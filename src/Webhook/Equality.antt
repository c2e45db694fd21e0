-- ===== src/Webhook/Equality.antt =====
-- reflect.DeepEqual on the parts of the document that the webhook compares: equality, where a nil
-- slice differs from an empty one.
use mathlib.Core.Logic.{dite}
use mathlib.Core.Bool.{Bool-discrete}
use verify_directory_operato.Base.{◌≡◌, ◌↔◌, refl, Bool, true, false, String, ◌==◌, eq_iff}
use verify_directory_operato.Api.{ImageSpec, ConfigMapSpec, EnvFromSource, EnvVar, Slice}

pub String-discrete : Discrete String
String-discrete s t =
    dite (Bool-discrete (s == t) true) (λ same. yes ((eq_iff s t).0 same))
      (λ differ. no (λ p. differ ((eq_iff s t).1 p)))

unfoldable pub deep_equal {ℓ} : {A : Type ℓ} → Discrete A → A → A → Bool
deep_equal d a b = elim (d a b) [ yes p ↦ true | no n ↦ false ]

pub deep_equal_iff {ℓ} :
    {A : Type ℓ} (d : Discrete A) (a b : A) → (deep_equal d a b ≡ true) ↔ (a ≡ b)
unfolding deep_equal
deep_equal_iff {A} d a b = decided (d a b)
  where
    decided : (x : Dec (a ≡ b)) → (elim x [ yes p ↦ true | no n ↦ false ] ≡ true) ↔ (a ≡ b)
    decided (yes p) = (λ e. p, λ p'. refl)
    decided (no n) = (λ e. cc, λ p. absurd (n p))

pub ImageSpec-discrete : Discrete ImageSpec
ImageSpec-discrete = hlevel String-discrete

pub ConfigMapSpec-discrete : Discrete ConfigMapSpec
ConfigMapSpec-discrete = hlevel String-discrete

pub EnvFrom-discrete : Discrete (Slice EnvFromSource)
EnvFrom-discrete = hlevel (String-discrete, Bool-discrete)

pub Env-discrete : Discrete (Slice EnvVar)
Env-discrete = hlevel String-discrete

pub deep_equal-same {ℓ} : {A : Type ℓ} (d : Discrete A) (a : A) → deep_equal d a a ≡ true
deep_equal-same d a = (deep_equal_iff d a a).1 refl

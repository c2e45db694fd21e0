-- ===== src/Base/Dict.antt =====
-- Go's maps with text keys, as association lists: `m[k]`, `m[k] = v`, `len(m)` and the keys. The
-- order in which Go ranges over a map is not here: see `shuffle` of Kube/Effect.antt.
use Prim.Native.Nat.{ℕ, suc}
use Prim.Native.String.{String}
use mathlib.Core.Path.{◌≡◌, refl, subst}
use mathlib.Core.Bool.{Bool, true, false, ◌||◌}
use mathlib.Core.Option.{Option, none, some}
use mathlib.Core.List.{List, [], ◌∷◌}
use native.Mathlib.Omega.{arith}
use text.Mathlib.Text.{◌==◌}
use text.Mathlib.TextEquality.{eq_iff}
use mathlib.Core.Logic.{inl, inr}
use verify_directory_operato.Base.Tests.{if◌then◌else◌, Bool-cases}
use verify_directory_operato.Base.Lists.{All}

abbrev pub Dict {ℓ} : Type ℓ → Type ℓ
Dict V = List (String × V)

module _ {ℓ} {V : Type ℓ} where
  unfoldable pub lookup : String → Dict V → Option V
  lookup k [] = none
  lookup k ((j, v) ∷ m) = if j == k then some v else lookup k m

  unfoldable pub insert : String → V → Dict V → Dict V
  insert key value [] = (key, value) ∷ []
  insert key value ((k, v) ∷ rest) =
      if k == key then (key, value) ∷ rest else (k, v) ∷ insert key value rest

  unfoldable pub has : String → Dict V → Bool
  has k [] = false
  has k ((j, v) ∷ m) = (j == k) || has k m

  abbrev pub keys : Dict V → List String
  keys [] = []
  keys ((j, v) ∷ m) = j ∷ keys m

  pub has-insert :
      (k j : String) (v : V) (m : Dict V) → has j (insert k v m) ≡ ((k == j) || has j m)
  unfolding has insert
  has-insert k j v [] = refl
  has-insert k j v ((i, w) ∷ rest) =
      ground (arith, has-insert k j v rest, eq_iff i k, eq_iff i j, eq_iff k j)

-- Whether a text is in a list of texts.
unfoldable pub contains : String → List String → Bool
contains k [] = false
contains k (j ∷ js) = (j == k) || contains k js

-- `len(m)`, where no key occurs twice, and `len(s)` of a slice.
abbrev pub length {ℓ} : {A : Type ℓ} → List A → ℕ
length [] = 0
length (x ∷ xs) = suc (length xs)

-- A predicate of all elements holds of each.
pub All-contains :
    (R : String → Type 0) (xs : List String) (p : String) → All R xs → contains p xs ≡ true → R p
unfolding contains
All-contains R [] p h e = absurd (cc)
All-contains R (x ∷ xs) p h e = elim (Bool-cases (x == p)) [
  | inl same ↦ subst R ((eq_iff x p).0 same) h.0
  | inr other ↦ All-contains R xs p h.1 (ground (arith, e, other))
]

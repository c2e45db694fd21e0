-- ===== src/Kube/Rules/Values.antt =====
-- What a run returns, with one rule for each way to build an effect.
use verify_directory_operato.Base.{String, ◌≡◌, refl, arith}
use verify_directory_operato.Base.Dict.{Dict, has}
use verify_directory_operato.Kube.Objects.{Error}
use verify_directory_operato.Kube.Effect.{
  Outcome, ok, fail, panic, M, Env, pure, raise, panics, ◌>>=◌, shuffled,
}
use verify_directory_operato.Kube.Rules.Laws.{RangesOverKeys}

-- Every run that returns does so with a value that satisfies Q.
pub record Returns {W A : Type 0} (Q : A → Type 0) (m : M W A) : Type 0 where
  pub at : (w : W) (a : A) → (m w).outcome ≡ ok a → Q a

module _ {W A B : Type 0} where
  -- What the value of the first part satisfies may be used for the rest.
  pub Returns-bind :
      (R : A → Type 0) (Q : B → Type 0) (m : M W A) (f : A → M W B)
      → Returns R m
      → ((a : A) → R a → Returns Q (f a))
      → Returns Q (m >>= f)
  unfolding ◌>>=◌
  Returns-bind R Q m f hm hf = record { at = λ w b. cases w b (m w).outcome refl }
    where
      cases :
          (w : W) (b : B) (o : Outcome A) → (m w).outcome ≡ o → ((m >>= f) w).outcome ≡ ok b → Q b
      cases w b (ok a) e = rw (e, ◌>>=◌) ((hf a (hm.at w a e)).at (m w).after b)
      cases w b (fail y) e = rw (e, ◌>>=◌) (λ p. absurd (cc))
      cases w b panic e = rw (e, ◌>>=◌) (λ p. absurd (cc))

  pub Returns-then :
      (Q : B → Type 0) (m : M W A) (f : A → M W B)
      → ((a : A) → Returns Q (f a))
      → Returns Q (m >>= f)
  Returns-then Q m f hf = Returns-bind (λ _. Unit) Q m f (record { at = λ w a e. tt }) (λ a _. hf a)

module _ {W A : Type 0} (Q : A → Type 0) where
  pub Returns-pure : (a : A) → Q a → Returns {W = W} Q (pure a)
  unfolding pure
  Returns-pure a h = record { at = λ w b e. ground (arith, h) }

  pub Returns-raise : (e : Error) → Returns {W = W} Q (raise e)
  unfolding raise
  Returns-raise e = record { at = λ w b p. absurd (cc) }

  pub Returns-panics : Returns {W = W} Q panics
  unfolding panics
  Returns-panics = record { at = λ w b p. absurd (cc) }

-- What a range over a map hands to the rest of a function has the map's keys.
pub shuffled-Returns :
    {W : Type 0} (E : Env W)
    → RangesOverKeys E
    → (m : Dict String) → Returns (λ order. (k : String) → has k order ≡ has k m) (shuffled E m)
unfolding shuffled
shuffled-Returns E fair m = record { at = λ w a e k. ground (arith, fair.keys m w k) }

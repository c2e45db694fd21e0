-- ===== src/Kube/Rules/Trace.antt =====
-- What the requests of a run are, with one rule for each way to build an effect.
use verify_directory_operato.Base.{
  ℕ, String, ◌≡◌, refl, Bool, true, false, Option, none, some, List, [], ◌∷◌, if◌then◌else◌,
}
use verify_directory_operato.Base.Lists.{All, All-append}
use verify_directory_operato.Base.Dict.{Dict}
use verify_directory_operato.Kube.Objects.{Error}
use verify_directory_operato.Kube.Effect.{
  Outcome, ok, fail, panic, Answer, granted, refused, M, Request, Env, pure, raise, panics,
  or_panic, on_answer, ◌>>=◌, settle, each, ask, ask_anyway, shuffled, paused, clock,
}

-- Every request of every run satisfies P.
pub record Emits {W A : Type 0} (P : Request → Type 0) (m : M W A) : Type 0 where
  pub at : (w : W) → All P (m w).trace

module _ {W A : Type 0} (P : Request → Type 0) where
  pub Emits-pure : (a : A) → Emits {W = W} P (pure a)
  unfolding pure
  Emits-pure a = record { at = λ w. tt }

  pub Emits-raise : (e : Error) → Emits {W = W} {A = A} P (raise e)
  unfolding raise
  Emits-raise e = record { at = λ w. tt }

  pub Emits-panics : Emits {W = W} {A = A} P panics
  unfolding panics
  Emits-panics = record { at = λ w. tt }

  pub Emits-or_panic : (o : Option A) → Emits {W = W} P (or_panic o)
  Emits-or_panic none = Emits-panics
  Emits-or_panic (some a) = Emits-pure a

  pub Emits-if : (b : Bool) (m n : M W A) → Emits P m → Emits P n → Emits P (if b then m else n)
  Emits-if true m n hm hn = hm
  Emits-if false m n hm hn = hn

  pub Emits-settle : (m : M W A) → Emits P m → Emits P (settle m)
  unfolding settle
  Emits-settle m h = record { at = λ w. cases w (m w).outcome refl }
    where
      cases : (w : W) (o : Outcome A) → (m w).outcome ≡ o → All P (settle m w).trace
      cases w (ok a) e = rw (e, settle) (h.at w)
      cases w (fail x) e = rw (e, settle) (h.at w)
      cases w panic e = rw (e, settle) (h.at w)

module _ {W A B : Type 0} (P : Request → Type 0) where
  pub Emits-bind :
      (m : M W A) (f : A → M W B) → Emits P m → ((a : A) → Emits P (f a)) → Emits P (m >>= f)
  unfolding ◌>>=◌
  Emits-bind m f hm hf = record { at = λ w. cases w (m w).outcome refl }
    where
      cases : (w : W) (o : Outcome A) → (m w).outcome ≡ o → All P ((m >>= f) w).trace
      cases w (ok a) e =
          rw (e, ◌>>=◌) (All-append P (m w).trace _ (hm.at w) ((hf a).at (m w).after))
      cases w (fail x) e = rw (e, ◌>>=◌) (hm.at w)
      cases w panic e = rw (e, ◌>>=◌) (hm.at w)

  pub Emits-answer :
      (r : Answer A) (f : A → M W B) (g : Error → M W B)
      → ((a : A) → Emits P (f a))
      → ((e : Error) → Emits P (g e))
      → Emits P (on_answer r f g)
  Emits-answer (granted a) f g hf hg = hf a
  Emits-answer (refused e) f g hf hg = hg e

module _ {W A : Type 0} (P : Request → Type 0) where
  pub Emits-each :
      (f : A → M W (Unit {0})) → ((a : A) → Emits P (f a)) → (xs : List A) → Emits P (each f xs)
  unfolding each
  Emits-each f h [] = Emits-pure P tt
  Emits-each f h (x ∷ xs) = Emits-bind P (f x) _ (h x) (λ _. Emits-each f h xs)

module _ {W : Type 0} (E : Env W) (P : Request → Type 0) where
  pub Emits-ask : (q : Request) → P q → Emits P (ask E q)
  unfolding ask
  Emits-ask q h = record { at = λ w. (h, tt) }

  pub Emits-ask_anyway : (q : Request) → P q → Emits P (ask_anyway E q)
  unfolding ask_anyway
  Emits-ask_anyway q h = record { at = λ w. (h, tt) }

  pub Emits-shuffled : (m : Dict String) → Emits P (shuffled E m)
  unfolding shuffled
  Emits-shuffled m = record { at = λ w. tt }

  pub Emits-paused : (n : ℕ) → Emits P (paused E n)
  unfolding paused
  Emits-paused n = record { at = λ w. tt }

  pub Emits-clock : Emits P (clock E)
  unfolding clock
  Emits-clock = record { at = λ w. tt }

module _ {W A : Type 0} (P : Request → Type 0) where
  pub Emits-each-All :
      (R : A → Type 0) (f : A → M W (Unit {0}))
      → ((a : A) → R a → Emits P (f a))
      → (xs : List A) → All R xs
      → Emits P (each f xs)
  unfolding each
  Emits-each-All R f h [] hs = Emits-pure P tt
  Emits-each-All R f h (x ∷ xs) hs =
      Emits-bind P (f x) _ (h x hs.0) (λ _. Emits-each-All R f h xs hs.1)

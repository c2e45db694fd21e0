-- ===== src/Kube/Rules/Errors.antt =====
-- That a run returns no error, with one rule for each way to build an effect.
use verify_directory_operato.Base.{ℕ, String, ◌≡◌, ◌≢◌, refl, Bool, true, false, if◌then◌else◌}
use verify_directory_operato.Base.Dict.{Dict}
use verify_directory_operato.Kube.Objects.{Error}
use verify_directory_operato.Kube.Effect.{
  Outcome, ok, fail, panic, Answer, granted, refused, M, Request, Env, pure, panics, on_answer,
  ◌>>=◌, settle, ask_anyway, shuffled, paused,
}

-- No run returns an error.
pub record NoError {W A : Type 0} (m : M W A) : Type 0 where
  pub at : (w : W) (e : Error) → (m w).outcome ≢ fail e

module _ {W A B : Type 0} where
  pub NoError-bind :
      (m : M W A) (f : A → M W B) → NoError m → ((a : A) → NoError (f a)) → NoError (m >>= f)
  unfolding ◌>>=◌
  NoError-bind m f hm hf = record { at = λ w x. cases w x (m w).outcome refl }
    where
      cases :
          (w : W) (x : Error) (o : Outcome A) → (m w).outcome ≡ o → ((m >>= f) w).outcome ≢ fail x
      cases w x (ok a) e = rw (e, ◌>>=◌) ((hf a).at (m w).after x)
      cases w x (fail y) e = absurd (hm.at w y e)
      cases w x panic e = rw (e, ◌>>=◌) (λ p. cc)

  pub NoError-answer :
      (r : Answer A) (f : A → M W B) (g : Error → M W B)
      → ((a : A) → NoError (f a))
      → ((e : Error) → NoError (g e))
      → NoError (on_answer r f g)
  NoError-answer (granted a) f g hf hg = hf a
  NoError-answer (refused e) f g hf hg = hg e

module _ {W A : Type 0} where
  pub NoError-if : (b : Bool) (m n : M W A) → NoError m → NoError n → NoError (if b then m else n)
  NoError-if true m n hm hn = hm
  NoError-if false m n hm hn = hn

  pub NoError-pure : (a : A) → NoError {W = W} (pure a)
  unfolding pure
  NoError-pure a = record { at = λ w x p. cc }

  pub NoError-panics : NoError {W = W} {A = A} panics
  unfolding panics
  NoError-panics = record { at = λ w x p. cc }

  pub NoError-settle : (m : M W A) → NoError (settle m)
  unfolding settle
  NoError-settle m = record { at = λ w x. cases w x (m w).outcome refl }
    where
      cases :
          (w : W) (x : Error) (o : Outcome A) → (m w).outcome ≡ o → (settle m w).outcome ≢ fail x
      cases w x (ok a) e = rw (e, settle) (λ p. cc)
      cases w x (fail y) e = rw (e, settle) (λ p. cc)
      cases w x panic e = rw (e, settle) (λ p. cc)

pub NoError-shuffled : {W : Type 0} (E : Env W) (m : Dict String) → NoError (shuffled E m)
unfolding shuffled
NoError-shuffled E m = record { at = λ w x p. cc }

module _ {W : Type 0} (E : Env W) where
  pub NoError-ask_anyway : (q : Request) → NoError (ask_anyway E q)
  unfolding ask_anyway
  NoError-ask_anyway q = record { at = λ w x p. cc }

  pub NoError-paused : (n : ℕ) → NoError (paused E n)
  unfolding paused
  NoError-paused n = record { at = λ w x p. cc }

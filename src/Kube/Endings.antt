-- ===== src/Kube/Endings.antt =====
-- How the trace of a run ends: with a request that satisfies P, on every run that returns, or on
-- every run that returns an error.
use mathlib.Core.List.{append_assoc}
use verify_directory_operato.Base.{◌≡◌, ◌≢◌, refl, sym, ap, ◌∙◌, List, [], ◌∷◌, ◌++◌}
use verify_directory_operato.Kube.Objects.{Error}
use verify_directory_operato.Kube.Effect.{
  Outcome, ok, fail, panic, M, Request, Env, Answer, granted, refused, settle, ask, ◌>>=◌,
  on_answer,
}
use verify_directory_operato.Kube.Rules.{
  NoError, settle-trace, bind-silent, bind-ok, bind-fail, bind-panic,
}

abbrev pub EndsWith : (Request → Type 0) → List Request → Type 0
EndsWith P t = (front : List Request) × (last : Request) × (t ≡ front ++ (last ∷ [])) × P last

-- A run that does not panic ends with such a request.
pub record Ends {W A : Type 0} (P : Request → Type 0) (m : M W A) : Type 0 where
  pub at : (w : W) → (m w).outcome ≢ panic → EndsWith P (m w).trace

-- A run that returns an error ends with such a request.
pub record EndsErrors {W A : Type 0} (P : Request → Type 0) (m : M W A) : Type 0 where
  pub at : (w : W) (e : Error) → (m w).outcome ≡ fail e → EndsWith P (m w).trace

pub EndsWith-append :
    (P : Request → Type 0) (t u : List Request) → EndsWith P u → EndsWith P (t ++ u)
EndsWith-append P t u (front, last, e, p) =
    (t ++ front, last, ap (◌++◌ t) e ∙ sym (append_assoc t front (last ∷ [])), p)

module _ {W A B : Type 0} (P : Request → Type 0) where
  -- A chain whose first part is known to return.
  pub Ends-after :
      (m : M W A) (f : A → M W B) (w : W) (a : A)
      → (m w).outcome ≡ ok a
      → Ends P (f a)
      → ((m >>= f) w).outcome ≢ panic
      → EndsWith P ((m >>= f) w).trace
  Ends-after m f w a e hf =
      rw (bind-ok m f w a e) (λ live. EndsWith-append P (m w).trace _ (hf.at (m w).after live))

  -- The end of a chain decides.
  pub Ends-bind :
      (m : M W A) (f : A → M W B) → EndsErrors P m → ((a : A) → Ends P (f a)) → Ends P (m >>= f)
  Ends-bind m f hm hf = record { at = λ w. cases w (m w).outcome refl }
    where
      cases :
          (w : W) (o : Outcome A)
          → (m w).outcome ≡ o
          → ((m >>= f) w).outcome ≢ panic
          → EndsWith P ((m >>= f) w).trace
      cases w (ok a) e = Ends-after m f w a e (hf a)
      cases w (fail x) e = rw (bind-fail m f w x e) (λ live. hm.at w x e)
      cases w panic e = rw (bind-panic m f w e) (λ live. absurd (live refl))

  pub EndsErrors-bind :
      (m : M W A) (f : A → M W B)
      → EndsErrors P m
      → ((a : A) → EndsErrors P (f a))
      → EndsErrors P (m >>= f)
  EndsErrors-bind m f hm hf = record { at = λ w. cases w (m w).outcome refl }
    where
      cases :
          (w : W) (o : Outcome A)
          → (m w).outcome ≡ o
          → (x : Error) → ((m >>= f) w).outcome ≡ fail x
          → EndsWith P ((m >>= f) w).trace
      cases w (ok a) e =
          rw (bind-ok m f w a e)
            (λ x p. EndsWith-append P (m w).trace _ ((hf a).at (m w).after x p))
      cases w (fail y) e = rw (bind-fail m f w y e) (λ x p. hm.at w y e)
      cases w panic e = rw (bind-panic m f w e) (λ x p. absurd (cc))

  pub EndsErrors-answer :
      (r : Answer A) (f : A → M W B) (g : Error → M W B)
      → ((a : A) → EndsErrors P (f a))
      → ((e : Error) → EndsErrors P (g e))
      → EndsErrors P (on_answer r f g)
  EndsErrors-answer (granted a) f g hf hg = hf a
  EndsErrors-answer (refused e) f g hf hg = hg e

module _ {W A : Type 0} (P : Request → Type 0) where
  pub EndsErrors-NoError : (m : M W A) → NoError m → EndsErrors P m
  EndsErrors-NoError m h = record { at = λ w e p. absurd (h.at w e p) }

  pub EndsErrors-Ends : (m : M W A) → Ends P m → EndsErrors P m
  EndsErrors-Ends m h = record { at = λ w e p. h.at w (λ q. cc) }

-- A part that makes one request, however that is answered, and then something that makes none.
module _ {W A B : Type 0} (P : Request → Type 0) (q : Request) (p : P q) where
  pub Ends-settle :
      (m : M W A) (k : Answer A → M W B)
      → ((w : W) → (m w).trace ≡ (q ∷ []))
      → ((a : Answer A) (w : W) → (k a w).trace ≡ [])
      → Ends P (settle m >>= k)
  Ends-settle m k asks silent = record {
    at = λ w live. ([], q, bind-silent (settle m) k w silent ∙ settle-trace m w ∙ asks w, p);
  }

pub ask-trace : {W : Type 0} (E : Env W) (q : Request) (w : W) → (ask E q w).trace ≡ (q ∷ [])
unfolding ask
ask-trace E q w = refl

-- ===== src/Kube/Follows.antt =====
-- Runs whose requests are the edges of a state machine, an indexed data type of steps.
use verify_directory_operato.Base.{
  ◌≡◌, refl, sym, subst, Bool, true, false, if◌then◌else◌, List, [], ◌∷◌, ◌++◌,
}
use verify_directory_operato.Base.Lists.{All}
use verify_directory_operato.Kube.Effect.{
  Outcome, ok, fail, panic, Answer, granted, refused, M, Request, ◌>>=◌, pure, on_answer,
}
use verify_directory_operato.Kube.Objects.{Error}
use verify_directory_operato.Kube.Rules.{Emits, bind-ok, bind-fail, bind-panic}

module _ {S : Type 0} (Step : S → Request → S → Type 0) where
  -- A path of the machine along a trace.
  pub data Follows : S → List Request → S → Type 0 where
    ends : {s : S} → Follows s [] s
    next :
        {s t u : S} {q : Request} {trace : List Request}
        → Step s q t
        → Follows t trace u
        → Follows s (q ∷ trace) u

  Follows-append :
      {s t u : S} {front back : List Request}
      → Follows s front t
      → Follows t back u
      → Follows s (front ++ back) u
  Follows-append ends g = g
  Follows-append (next e f) g = next e (Follows-append f g)

  Follows-All : (s : S) (trace : List Request) → All (λ q. Step s q s) trace → Follows s trace s
  Follows-All s [] h = ends
  Follows-All s (q ∷ trace) h = next h.0 (Follows-All s trace h.1)

  -- Every run follows the machine from s, and one that returns ends in a state that satisfies Q.
  pub record Moves {W A : Type 0} (s : S) (Q : S → Type 0) (m : M W A) : Type 0 where
    pub at : (w : W) → (u : S) × Follows s (m w).trace u × ((a : A) → (m w).outcome ≡ ok a → Q u)

  module _ {W A : Type 0} where
    pub Moves-Emits : (s : S) (m : M W A) → Emits (λ q. Step s q s) m → Moves s (λ t. t ≡ s) m
    Moves-Emits s m h = record { at = λ w. (s, Follows-All s (m w).trace (h.at w), λ a e. refl) }

    pub Moves-request :
        (s t : S) (q : Request) (m : M W A)
        → ((w : W) → (m w).trace ≡ (q ∷ []))
        → Step s q t
        → Moves s (λ u. u ≡ t) m
    Moves-request s t q m asks e = record {
      at = λ w. (t, subst (λ trace. Follows s trace t) (sym (asks w)) (next e ends), λ a o. refl);
    }

    pub Moves-pure : (s : S) (a : A) → Moves {W = W} s (λ _. Unit {0}) (pure a)
    unfolding pure
    Moves-pure s a = record { at = λ w. (s, ends, λ b e. tt) }

    pub Moves-if :
        (s : S) (Q : S → Type 0) (b : Bool) (m n : M W A)
        → Moves s Q m
        → Moves s Q n
        → Moves s Q (if b then m else n)
    Moves-if s Q true m n hm hn = hm
    Moves-if s Q false m n hm hn = hn

  module _ {W A B : Type 0} where
    pub Moves-answer :
        (s : S) (Q : S → Type 0) (r : Answer A) (f : A → M W B) (g : Error → M W B)
        → ((a : A) → Moves s Q (f a))
        → ((e : Error) → Moves s Q (g e))
        → Moves s Q (on_answer r f g)
    Moves-answer s Q (granted a) f g hf hg = hf a
    Moves-answer s Q (refused e) f g hf hg = hg e

    -- A first part after which the state is known.
    pub Moves-bind :
        (s t : S) (Q : S → Type 0) (m : M W A) (f : A → M W B)
        → Moves s (λ u. u ≡ t) m
        → ((a : A) → Moves t Q (f a))
        → Moves s Q (m >>= f)
    Moves-bind s t Q m f hm hf = record { at = λ w. cases w (m w).outcome refl }
      where
        cases :
            (w : W) (o : Outcome A)
            → (m w).outcome ≡ o
            → (u : S) × Follows s ((m >>= f) w).trace u
              × ((b : B) → ((m >>= f) w).outcome ≡ ok b → Q u)
        cases w (ok a) e =
            let (u, path, known) = hm.at w in
            let (v, path', end) = (hf a).at (m w).after in
            rw (bind-ok m f w a e)
              (v, Follows-append (subst (λ x. Follows s (m w).trace x) (known a e) path) path', end)
        cases w (fail x) e =
            let (u, path, known) = hm.at w in rw (bind-fail m f w x e) (u, path, λ b p. absurd (cc))
        cases w panic e =
            let (u, path, known) = hm.at w in rw (bind-panic m f w e) (u, path, λ b p. absurd (cc))

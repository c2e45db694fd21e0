-- ===== src/Kube/Ensures.antt =====
-- What a run that returns has brought about: a fact on its value and on the state that its requests
-- lead to, where each request steps a state.
use verify_directory_operato.Base.{◌≡◌, refl, sym, ap, ◌∙◌, subst, List, [], ◌∷◌, ◌++◌}
use mathlib.Core.List.{foldl}
use verify_directory_operato.Base.Lists.{All}
use verify_directory_operato.Kube.Effect.{ok, M, Request, ◌>>=◌, pure, each}
use verify_directory_operato.Kube.Rules.{Emits, Returns, bind-ok, bind-returned}

-- The state after the requests of a trace, oldest first.
abbrev pub replay {ℓ} : {S : Type ℓ} → (S → Request → S) → S → List Request → S
replay step s [] = s
replay step s (q ∷ t) = replay step (step s q) t

pub replay-append {ℓ} :
    {S : Type ℓ} (step : S → Request → S) (s : S) (front back : List Request)
    → replay step s (front ++ back) ≡ replay step (replay step s front) back
replay-append step s [] back = refl
replay-append step s (q ∷ front) back = replay-append step (step s q) front back

replay-All {ℓ} :
    {S : Type ℓ} (step : S → Request → S) (s : S) (trace : List Request)
    → All (λ q. step s q ≡ s) trace
    → replay step s trace ≡ s
replay-All step s [] h = refl
replay-All step s (q ∷ trace) h = ap (λ x. replay step x trace) h.0 ∙ replay-All step s trace h.1

-- A last part that keeps the state.
pub replay-next :
    {S W A B : Type 0} (step : S → Request → S) (s t : S) (m : M W A) (f : A → M W B) (w : W)
    (a : A)
    → (m w).outcome ≡ ok a
    → replay step s (m w).trace ≡ t
    → All (λ q. step t q ≡ t) (f a (m w).after).trace
    → replay step s ((m >>= f) w).trace ≡ t
replay-next step s t m f w a e first quiet =
    ap (λ r. replay step s r.trace) (bind-ok m f w a e)
    ∙ replay-append step s (m w).trace (f a (m w).after).trace
    ∙ ap (λ u. replay step u (f a (m w).after).trace) first
    ∙ replay-All step t (f a (m w).after).trace quiet

module _ {S : Type 0} (step : S → Request → S) where
  -- From the state s, every run that returns does so with a value and a state that satisfy Q.
  pub record Ensures {W A : Type 0} (s : S) (Q : A → S → Type 0) (m : M W A) : Type 0 where
    pub at : (w : W) (a : A) → (m w).outcome ≡ ok a → Q a (replay step s (m w).trace)

  module _ {W A B : Type 0} where
    -- What the first part ensures may be used for the rest.
    pub Ensures-bind :
        (s : S) (R : A → S → Type 0) (Q : B → S → Type 0) (m : M W A) (f : A → M W B)
        → Ensures s R m
        → ((a : A) (t : S) → R a t → Ensures t Q (f a))
        → Ensures s Q (m >>= f)
    Ensures-bind s R Q m f hm hf = record {
      at = λ w b e.
          let (a, first, rest) = bind-returned m f w b e in
          let path : replay step s ((m >>= f) w).trace
              ≡ replay step (replay step s (m w).trace) (f a (m w).after).trace =
            ap (λ r. replay step s r.trace) (bind-ok m f w a first)
            ∙ replay-append step s (m w).trace (f a (m w).after).trace in
          subst (λ t. Q b t) (sym path) ((hf a _ (hm.at w a first)).at (m w).after b rest);
    }

  module _ {W A : Type 0} where
    pub Ensures-pure : (s : S) (Q : A → S → Type 0) (a : A) → Q a s → Ensures {W = W} s Q (pure a)
    unfolding pure
    Ensures-pure s Q a h = record { at = λ w b e. subst (λ x. Q x s) (same e) h }
      where
        same : {b : A} → ok a ≡ ok b → a ≡ b
        same e = cc

    pub Ensures-from :
        (s t : S) (Q : A → S → Type 0) (m : M W A) → t ≡ s → Ensures s Q m → Ensures t Q m
    Ensures-from s t Q m e h = subst (λ x. Ensures x Q m) (sym e) h

    pub Ensures-mono :
        (s : S) (R Q : A → S → Type 0) (m : M W A)
        → ((a : A) (t : S) → R a t → Q a t)
        → Ensures s R m
        → Ensures s Q m
    Ensures-mono s R Q m f h = record { at = λ w a e. f a _ (h.at w a e) }

    -- Requests that keep a state.
    pub Ensures-Emits :
        (s : S) (R : A → Type 0) (m : M W A)
        → Emits (λ q. step s q ≡ s) m
        → Returns R m
        → Ensures s (λ a t. R a × (t ≡ s)) m
    Ensures-Emits s R m quiet h = record {
      at = λ w a e. (h.at w a e, replay-All step s (m w).trace (quiet.at w));
    }

    pub Ensures-quiet :
        (s : S) (m : M W A) → Emits (λ q. step s q ≡ s) m → Ensures s (λ a t. t ≡ s) m
    Ensures-quiet s m quiet = record { at = λ w a e. replay-All step s (m w).trace (quiet.at w) }

  module _ {W A B : Type 0} where
    -- A first part after which the state is known, and one that keeps it.
    pub Ensures-then :
        (s t : S) (Q : B → S → Type 0) (m : M W A) (f : A → M W B)
        → Ensures s (λ _ u. u ≡ t) m
        → ((a : A) → Ensures t Q (f a))
        → Ensures s Q (m >>= f)
    Ensures-then s t Q m f hm hf =
        Ensures-bind s (λ _ u. u ≡ t) Q m f hm (λ a u e. Ensures-from t u Q (f a) e (hf a))

    pub Ensures-quiet_then :
        (s : S) (Q : B → S → Type 0) (m : M W A) (f : A → M W B)
        → Emits (λ q. step s q ≡ s) m
        → ((a : A) → Ensures s Q (f a))
        → Ensures s Q (m >>= f)
    Ensures-quiet_then s Q m f hm hf = Ensures-then s s Q m f (Ensures-quiet s m hm) hf

  module _ {W A : Type 0} where
    -- A loop over a slice, where the state after it is a fold over the slice.
    pub Ensures-each :
        (fold : S → A → S) (f : A → M W (Unit {0}))
        → ((s : S) (a : A) → Ensures s (λ _ t. t ≡ fold s a) (f a))
        → (s : S) (xs : List A) → Ensures s (λ _ t. t ≡ foldl fold s xs) (each f xs)
    unfolding each
    Ensures-each fold f h s [] = Ensures-pure s _ tt refl
    Ensures-each fold f h s (x ∷ xs) =
        Ensures-then s (fold s x) _ (f x) _ (h s x) (λ _. Ensures-each fold f h (fold s x) xs)

  module _ {W A : Type 0} where
    -- A part that makes one request.
    pub Ensures-request :
        (s : S) (q : Request) (m : M W A)
        → ((w : W) → (m w).trace ≡ (q ∷ []))
        → Ensures s (λ _ t. t ≡ step s q) m
    Ensures-request s q m asks = record { at = λ w a e. ap (replay step s) (asks w) }

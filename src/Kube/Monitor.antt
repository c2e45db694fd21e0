-- ===== src/Kube/Monitor.antt =====
-- Monitors: automata that read the trace of a run and get stuck on a request out of order.
use verify_directory_operato.Base.{
  ◌≡◌, refl, ap, ◌∙◌, is_some, Bool, true, false, Option, none, some, Option-cases, inl, inr, List,
  [], ◌∷◌, ◌++◌,
}
use verify_directory_operato.Base.Lists.{All}
use verify_directory_operato.Kube.Effect.{Outcome, ok, fail, panic, M, Request, ◌>>=◌}
use verify_directory_operato.Kube.Rules.{Emits, bind-ok, bind-fail, bind-panic, bind-returned}

-- The state after a request; `none` is stuck.
abbrev pub Monitor : Type 0
Monitor = Bool → Request → Option Bool

abbrev pub watch : Monitor → Bool → List Request → Option Bool
watch step s [] = some s
watch step s (q ∷ t) = elim (step s q) [ none ↦ none | some s' ↦ watch step s' t ]

-- From a state, no run gets stuck.
pub record Safe {W A : Type 0} (step : Monitor) (s : Bool) (m : M W A) : Type 0 where
  pub at : (w : W) → is_some (watch step s (m w).trace) ≡ true

-- From a state, no run gets stuck, and every run that returns ends in another state.
pub record Leads {W A : Type 0} (step : Monitor) (s t : Bool) (m : M W A) : Type 0 where
  pub at : (w : W) → is_some (watch step s (m w).trace) ≡ true
  pub ends : (w : W) (a : A) → (m w).outcome ≡ ok a → watch step s (m w).trace ≡ some t

module _ (step : Monitor) where
  watch-append :
      (s t : Bool) (front back : List Request)
      → watch step s front ≡ some t
      → watch step s (front ++ back) ≡ watch step t back
  watch-append s t [] back = λ e. ap (λ o. elim o [ none ↦ none | some x ↦ watch step x back ]) e
  watch-append s t (q ∷ front) back = elim (Option-cases (step s q)) [
    | inl e ↦ rw (e, watch) (λ p. absurd (cc))
    | inr (x, e) ↦ rw (e, watch) (watch-append x t front back)
  ]

  watch-All :
      (s : Bool) (trace : List Request)
      → All (λ q. step s q ≡ some s) trace
      → watch step s trace ≡ some s
  watch-All s [] h = refl
  watch-All s (q ∷ trace) h = rw (h.0, watch) (watch-All s trace h.1)

  watch-All_some :
      (s : Bool) (trace : List Request)
      → All (λ q. (x : Bool) → is_some (step x q) ≡ true) trace
      → is_some (watch step s trace) ≡ true
  watch-All_some s [] h = refl
  watch-All_some s (q ∷ trace) h = elim (Option-cases (step s q)) [
    | inl e ↦ absurd (nowhere (ap is_some e) (h.0 s))
    | inr (x, e) ↦ rw (e, watch) (watch-All_some x trace h.1)
  ]
    where
      nowhere : {b : Bool} → b ≡ false → b ≡ true → ⊥
      nowhere f t = cc

module _ {W A : Type 0} (step : Monitor) where
  -- Requests that keep a state.
  pub Leads-Emits : (s : Bool) (m : M W A) → Emits (λ q. step s q ≡ some s) m → Leads step s s m
  Leads-Emits s m h = record {
    at = λ w. ap is_some (watch-All step s (m w).trace (h.at w));
    ends = λ w a e. watch-All step s (m w).trace (h.at w);
  }

  -- Requests that never get a state stuck.
  pub Safe-Emits :
      (s : Bool) (m : M W A) → Emits (λ q. (x : Bool) → is_some (step x q) ≡ true) m → Safe step s m
  Safe-Emits s m h = record { at = λ w. watch-All_some step s (m w).trace (h.at w) }

module _ {W A B : Type 0} (step : Monitor) (s t : Bool) where
  pub Safe-bind :
      (m : M W A) (f : A → M W B)
      → Leads step s t m
      → ((a : A) → Safe step t (f a))
      → Safe step s (m >>= f)
  Safe-bind m f hm hf = record { at = λ w. cases w (m w).outcome refl }
    where
      cases :
          (w : W) (o : Outcome A)
          → (m w).outcome ≡ o
          → is_some (watch step s ((m >>= f) w).trace) ≡ true
      cases w (ok a) e =
          rw (bind-ok m f w a e) (
            ap is_some (watch-append step s t (m w).trace _ (hm.ends w a e))
            ∙ (hf a).at (m w).after)
      cases w (fail x) e = rw (bind-fail m f w x e) (hm.at w)
      cases w panic e = rw (bind-panic m f w e) (hm.at w)

  pub Leads-bind :
      (u : Bool) (m : M W A) (f : A → M W B)
      → Leads step s t m
      → ((a : A) → Leads step t u (f a))
      → Leads step s u (m >>= f)
  Leads-bind u m f hm hf = record {
    at = (Safe-bind m f hm (λ a. record { at = (hf a).at })).at;
    ends = λ w b e.
        let (a, first, rest) = bind-returned m f w b e in
        ap (λ r. watch step s r.trace) (bind-ok m f w a first)
        ∙ watch-append step s t (m w).trace _ (hm.ends w a first)
        ∙ (hf a).ends (m w).after b rest;
  }

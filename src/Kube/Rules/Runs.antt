-- ===== src/Kube/Rules/Runs.antt =====
-- The run of a chain, and of a part whose error is looked at, from the run of their parts.
use verify_directory_operato.Base.{ap, sym, ◌∙◌, ◌≡◌, refl, List, [], ◌∷◌, ◌++◌}
use mathlib.Core.List.{append-nil}
use verify_directory_operato.Base.Lists.{All}
use verify_directory_operato.Kube.Objects.{Error}
use verify_directory_operato.Kube.Effect.{
  Outcome, ok, fail, panic, Answer, granted, refused, M, Request, Reply, Env, ◌>>=◌, then_run,
  settle, each, ask,
}

-- The run of a chain whose first part returns, fails or panics.
module _ {W A B : Type 0} (m : M W A) (f : A → M W B) (w : W) where
  pub bind-ok :
      (a : A) → (m w).outcome ≡ ok a → (m >>= f) w ≡ then_run (m w).trace (f a (m w).after)
  unfolding ◌>>=◌
  bind-ok a e = rw (e, ◌>>=◌) refl

  pub bind-run :
      (a : A) (after : W) (t : List Request)
      → m w ≡ record { outcome = ok a; after = after; trace = t }
      → (m >>= f) w ≡ then_run t (f a after)
  unfolding ◌>>=◌
  bind-run a after t e = rw (e, ◌>>=◌) refl

  pub bind-fail :
      (e : Error)
      → (m w).outcome ≡ fail e
      → (m >>= f) w ≡ record { outcome = fail e; after = (m w).after; trace = (m w).trace }
  unfolding ◌>>=◌
  bind-fail e p = rw (p, ◌>>=◌) refl

  pub bind-panic :
      (m w).outcome ≡ panic
      → (m >>= f) w ≡ record { outcome = panic; after = (m w).after; trace = (m w).trace }
  unfolding ◌>>=◌
  bind-panic p = rw (p, ◌>>=◌) refl

  pub bind-panic_outcome : (m w).outcome ≡ panic → ((m >>= f) w).outcome ≡ panic
  bind-panic_outcome p = ap (λ r. r.outcome) (bind-panic p)

  -- A chain that returns has parts that return.
  pub bind-returned :
      (b : B)
      → ((m >>= f) w).outcome ≡ ok b
      → (a : A) × ((m w).outcome ≡ ok a) × ((f a (m w).after).outcome ≡ ok b)
  bind-returned b = cases (m w).outcome refl
    where
      cases :
          (o : Outcome A)
          → (m w).outcome ≡ o
          → ((m >>= f) w).outcome ≡ ok b
          → (a : A) × ((m w).outcome ≡ ok a) × ((f a (m w).after).outcome ≡ ok b)
      cases (ok a) e = λ p. (a, e, sym (ap (λ r. r.outcome) (bind-ok a e)) ∙ p)
      cases (fail x) e = rw (bind-fail x e) (λ p. absurd (cc))
      cases panic e = rw (bind-panic e) (λ p. absurd (cc))

  -- A continuation that makes no request adds none.
  pub bind-silent : ((a : A) (w : W) → (f a w).trace ≡ []) → ((m >>= f) w).trace ≡ (m w).trace
  bind-silent silent = cases (m w).outcome refl
    where
      cases : (o : Outcome A) → (m w).outcome ≡ o → ((m >>= f) w).trace ≡ (m w).trace
      cases (ok a) e =
          ap (λ r. r.trace) (bind-ok a e)
          ∙ ap (◌++◌ (m w).trace) (silent a (m w).after)
          ∙ append-nil (m w).trace
      cases (fail x) e = ap (λ r. r.trace) (bind-fail x e)
      cases panic e = ap (λ r. r.trace) (bind-panic e)

-- The run of a part whose error is looked at.
module _ {W A : Type 0} (m : M W A) (w : W) where
  pub settle-ok : (a : A) → (m w).outcome ≡ ok a → (settle m w).outcome ≡ ok (granted a)
  unfolding settle
  settle-ok a e = rw (e, settle) refl

  pub settle-fail : (e : Error) → (m w).outcome ≡ fail e → (settle m w).outcome ≡ ok (refused e)
  unfolding settle
  settle-fail e p = rw (p, settle) refl

  pub settle-panic : (m w).outcome ≡ panic → (settle m w).outcome ≡ panic
  unfolding settle
  settle-panic p = rw (p, settle) refl

  pub settle-granted : (a : A) → (settle m w).outcome ≡ ok (granted a) → (m w).outcome ≡ ok a
  unfolding settle
  settle-granted a = cases (m w).outcome refl
    where
      cases :
          (o : Outcome A)
          → (m w).outcome ≡ o
          → (settle m w).outcome ≡ ok (granted a)
          → (m w).outcome ≡ ok a
      cases (ok b) e = rw (e, settle) (λ p. cc)
      cases (fail x) e = rw (e, settle) (λ p. absurd (cc))
      cases panic e = rw (e, settle) (λ p. absurd (cc))

  pub settle-trace : (settle m w).trace ≡ (m w).trace
  unfolding settle
  settle-trace = cases (m w).outcome refl
    where
      cases : (o : Outcome A) → (m w).outcome ≡ o → (settle m w).trace ≡ (m w).trace
      cases (ok a) e = rw (e, settle) refl
      cases (fail x) e = rw (e, settle) refl
      cases panic e = rw (e, settle) refl

-- The run of a part that returns, in a chain that looks at its error.
pub settle-run :
    {W A B : Type 0} (m : M W A) (f : Answer A → M W B) (w : W) (a : A) (after : W)
    (t : List Request)
    → m w ≡ record { outcome = ok a; after = after; trace = t }
    → (settle m >>= f) w ≡ then_run t (f (granted a) after)
unfolding settle ◌>>=◌
settle-run m f w a after t e =
    rw (settle, ◌>>=◌, e) (ap (λ r. then_run r.trace (f (granted a) r.after)) e)

-- The run of a request that is granted.
pub ask-granted :
    {W : Type 0} (E : Env W) (q : Request) (w : W) (a : Reply q)
    → (E.answer q w).0 ≡ granted a
    → ask E q w ≡ record { outcome = ok a; after = (E.answer q w).1; trace = q ∷ [] }
unfolding ask
ask-granted E q w a e = rw (e, ask) refl

-- The run of a request that is granted, in a chain that looks at the error.
pub settle-ask-granted :
    {W B : Type 0} (E : Env W) (q : Request) (f : Answer (Reply q) → M W B) (w : W) (a : Reply q)
    → (E.answer q w).0 ≡ granted a
    → (settle (ask E q) >>= f) w ≡ then_run (q ∷ []) (f (granted a) (E.answer q w).1)
unfolding settle ask ◌>>=◌
settle-ask-granted E q f w a e = rw (e, settle, ask, ◌>>=◌) refl

-- And of one that is refused.
pub settle-ask-refused :
    {W B : Type 0} (E : Env W) (q : Request) (f : Answer (Reply q) → M W B) (w : W) (x : Error)
    → (E.answer q w).0 ≡ refused x
    → (settle (ask E q) >>= f) w ≡ then_run (q ∷ []) (f (refused x) (E.answer q w).1)
unfolding settle ask ◌>>=◌
settle-ask-refused E q f w x e = rw (e, settle, ask, ◌>>=◌) refl

-- A loop that returns has gone through every element.
pub each-returned :
    {W A : Type 0} (f : A → M W (Unit {0})) (Q : A → Type 0)
    → ((a : A) (w : W) → (f a w).outcome ≡ ok tt → Q a)
    → (xs : List A) (w : W) → (each f xs w).outcome ≡ ok tt
    → All Q xs
unfolding each
each-returned f Q h [] w e = tt
each-returned f Q h (x ∷ xs) w e =
    let (_, first, rest) = bind-returned (f x) (λ _. each f xs) w tt e in
    (h x w first, each-returned f Q h xs _ rest)

-- ===== src/Kube/Completes.antt =====
-- Functions that return from every world, with rules by which this is proved along the code.
use verify_directory_operato.Base.{◌≡◌, refl, ap, ◌∙◌, List, [], ◌∷◌}
use verify_directory_operato.Base.Lists.{All}
use verify_directory_operato.Kube.Effect.{
  ok, Answer, granted, refused, M, Request, Reply, Env, ◌>>=◌, pure, each, settle, ask, on_answer,
}
use verify_directory_operato.Kube.Objects.{Error}
use verify_directory_operato.Kube.Rules.{bind-ok, settle-ok, ask-granted}

-- Every run returns, and with a value that satisfies Q.
pub record Completes {W A : Type 0} (Q : A → Type 0) (m : M W A) : Type 0 where
  pub at : (w : W) → (a : A) × ((m w).outcome ≡ ok a) × Q a

-- Any value.
abbrev pub Any : {A : Type 0} → A → Type 0
Any a = Unit {0}

module _ {W A B : Type 0} where
  pub Completes-bind :
      (R : A → Type 0) (Q : B → Type 0) (m : M W A) (f : A → M W B)
      → Completes R m
      → ((a : A) → R a → Completes Q (f a))
      → Completes Q (m >>= f)
  Completes-bind R Q m f hm hf = record {
    at = λ w.
        let (a, first, r) = hm.at w in
        let (b, rest, q) = (hf a r).at (m w).after in
        (b, ap (λ run. run.outcome) (bind-ok m f w a first) ∙ rest, q);
  }

module _ {W A : Type 0} where
  pub Completes-pure : (Q : A → Type 0) (a : A) → Q a → Completes {W = W} Q (pure a)
  unfolding pure
  Completes-pure Q a q = record { at = λ w. (a, refl, q) }

  pub Completes-settle :
      (Q : A → Type 0) (R : Answer A → Type 0) (m : M W A)
      → ((a : A) → Q a → R (granted a))
      → Completes Q m
      → Completes R (settle m)
  Completes-settle Q R m f h = record {
    at = λ w. let (a, first, q) = h.at w in (granted a, settle-ok m w a first, f a q);
  }

module _ {W A : Type 0} where
  pub Completes-each-All :
      (R : A → Type 0) (f : A → M W (Unit {0}))
      → ((a : A) → R a → Completes Any (f a))
      → (xs : List A) → All R xs
      → Completes Any (each f xs)
  unfolding each
  Completes-each-All R f h [] rs = Completes-pure Any tt tt
  Completes-each-All R f h (x ∷ xs) rs =
      Completes-bind Any Any (f x) _ (h x rs.0) (λ _ _. Completes-each-All R f h xs rs.1)

-- A part that completes, in a chain that looks at its error.
module _ {W A B : Type 0} (Q : A → Type 0) (R : B → Type 0) (m : M W A) where
  Granted : Answer A → Type 0
  Granted (granted a) = Q a
  Granted (refused e) = ⊥

  pub Completes-settled :
      (f : A → M W B) (g : Error → M W B)
      → Completes Q m
      → ((a : A) → Q a → Completes R (f a))
      → Completes R (settle m >>= λ r. on_answer r f g)
  unfolding Granted
  Completes-settled f g hm hf =
      Completes-bind Granted R (settle m) _ (Completes-settle Q Granted m (λ a q. q) hm) answered
    where
      answered : (r : Answer A) → Granted r → Completes R (on_answer r f g)
      answered (granted a) q = hf a q
      answered (refused e) q = absurd q

module _ {W : Type 0} (E : Env W) where
  -- A granted answer is what the call returns.
  pub Completes-granted :
      (q : Request) (Q : Reply q → Type 0)
      → ((w : W) → (a : Reply q) × ((E.answer q w).0 ≡ granted a) × Q a)
      → Completes Q (ask E q)
  Completes-granted q Q grants = record {
    at = λ w. let (a, e, p) = grants w in (a, ap (λ run. run.outcome) (ask-granted E q w a e), p);
  }

  pub Completes-ask :
      (q : Request)
      → ((w : W) → (a : Reply q) × ((E.answer q w).0 ≡ granted a))
      → Completes Any (ask E q)
  Completes-ask q grants = Completes-granted q Any (λ w. let (a, e) = grants w in (a, e, tt))

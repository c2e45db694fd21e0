-- ===== src/Kube/Makes.antt =====
-- That a run that returns has made requests, one after the other, that satisfy S, with rules for where
-- in the code they are made.
use mathlib.Core.List.{append_assoc, append-nil}
use verify_directory_operato.Base.{◌≡◌, sym, subst, ap, ◌∙◌, inl, inr, List, [], ◌∷◌, ◌++◌}
use verify_directory_operato.Base.Lists.{In}
use verify_directory_operato.Kube.Effect.{ok, M, Request, ◌>>=◌, each}
use verify_directory_operato.Kube.Rules.{Returns, bind-ok, bind-returned}

-- Requests that follow each other in the trace satisfy S.
abbrev pub Within : (List Request → Type 0) → List Request → Type 0
Within S t =
    (front : List Request) × (part : List Request) × (back : List Request) × (t
      ≡ front ++ (part ++ back))
    × S part

module _ (S : List Request → Type 0) where
  Within-front : (front back : List Request) → Within S front → Within S (front ++ back)
  Within-front front back (before, part, after, e, s) = (
    before,
    part,
    after ++ back,
    ap (λ t. t ++ back) e
        ∙ append_assoc before (part ++ after) back
        ∙ ap (◌++◌ before) (append_assoc part after back),
    s,
  )

  Within-back : (front back : List Request) → Within S back → Within S (front ++ back)
  Within-back front back (before, part, after, e, s) = (
    front ++ before,
    part,
    after,
    ap (◌++◌ front) e ∙ sym (append_assoc front before (part ++ after)),
    s,
  )

  pub record Makes {W A : Type 0} (m : M W A) : Type 0 where
    pub at : (w : W) (a : A) → (m w).outcome ≡ ok a → Within S (m w).trace

  module _ {W A B : Type 0} (m : M W A) (f : A → M W B) where
    pub Makes-first : Makes m → Makes (m >>= f)
    Makes-first h = record {
      at = λ w b e.
          let (a, first, _) = bind-returned m f w b e in
          subst (λ r. Within S r.trace) (sym (bind-ok m f w a first))
            (Within-front (m w).trace (f a (m w).after).trace (h.at w a first));
    }

    -- What the first part returns may be used.
    pub Makes-then :
        (R : A → Type 0) → Returns R m → ((a : A) → R a → Makes (f a)) → Makes (m >>= f)
    Makes-then R known h = record {
      at = λ w b e.
          let (a, first, rest) = bind-returned m f w b e in
          subst (λ r. Within S r.trace) (sym (bind-ok m f w a first))
            (Within-back (m w).trace (f a (m w).after).trace
              ((h a (known.at w a first)).at (m w).after b rest));
    }

    pub Makes-next : ((a : A) → Makes (f a)) → Makes (m >>= f)
    Makes-next h = Makes-then (λ _. Unit {0}) (record { at = λ w a e. tt }) (λ a _. h a)

  module _ {W A : Type 0} where
    -- An element of the slice for which the body makes the request.
    pub Makes-each :
        (f : A → M W (Unit {0})) (x : A) → Makes (f x) → (xs : List A) → In x xs → Makes (each f xs)
    unfolding each
    Makes-each f x h [] i = absurd i
    Makes-each f x h (y ∷ ys) (inl same) =
        Makes-first (f y) (λ _. each f ys) (subst (λ z. Makes (f z)) same h)
    Makes-each f x h (y ∷ ys) (inr i) =
        Makes-next (f y) (λ _. each f ys) (λ _. Makes-each f x h ys i)

  module _ {W A : Type 0} where
    -- A part whose whole trace satisfies S.
    pub Makes-whole :
        (m : M W A) → ((w : W) (a : A) → (m w).outcome ≡ ok a → S (m w).trace) → Makes m
    Makes-whole m h = record {
      at = λ w a e. ([], (m w).trace, [], sym (append-nil (m w).trace), h w a e);
    }

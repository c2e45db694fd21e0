-- ===== src/Controller/Replica/Traces.antt =====
-- The requests of a deletion of which the object may be missing.
use verify_directory_operato.Base.{◌≡◌, ◌∙◌, refl, [], Bool-cases, inl, inr, if◌then◌else◌}
use verify_directory_operato.Kube.{M, Env, Answer, granted, refused, pure, raise, on_answer}
use verify_directory_operato.Kube.Rules.{bind-silent, settle-trace}
use verify_directory_operato.Controller.Objects.{is_not_found}
use verify_directory_operato.Controller.Replica.{unless_missing}

-- They are those of the deletion alone.
pub unless_missing-trace :
    {W : Type 0} (E : Env W) (m : M W (Unit {0})) (w : W)
    → (unless_missing E m w).trace ≡ (m w).trace
unfolding unless_missing pure raise
unless_missing-trace {W} E m w = bind-silent _ _ w silent ∙ settle-trace m w
  where
    silent :
        (done : Answer (Unit {0})) (v : W)
        → (on_answer done (λ _. pure tt) (λ e. if is_not_found e then pure tt else raise e) v).trace
          ≡ []
    silent (granted _) v = refl
    silent (refused e) v = elim (Bool-cases (is_not_found e)) [
      | inl p ↦ rw p refl
      | inr p ↦ rw p refl
    ]

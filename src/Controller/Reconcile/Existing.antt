-- ===== src/Controller/Reconcile/Existing.antt =====
-- Which replicas getExistingPods finds.
use verify_directory_operato.Base.{
  ◌≡◌, Bool, false, ◌||◌, none, some, String, List, [], ◌∷◌, arith, ◌==◌,
}
use verify_directory_operato.Base.Dict.{Dict, has, has-insert, insert}
use verify_directory_operato.Names.{pvc_label}
use verify_directory_operato.Kube.{Pod}
use verify_directory_operato.Controller.Reconcile.{label_of, pods_by_pvc}

-- A listed pod carries the PVC as its label; a pod with no such label counts for the empty text.
abbrev pub is_labeled : String → List Pod → Bool
is_labeled pvc [] = false
is_labeled pvc (pod ∷ rest) = (label_of pvc_label pod.labels == pvc) || is_labeled pvc rest

-- The map that the loop of getExistingPods returns has the keys that it had before, and the PVCs
-- of the listed pods, and no others.
pub pods_by_pvc-has :
    (pods : List Pod) (before after : Dict String) (pvc : String)
    → pods_by_pvc pods before ≡ some after
    → has pvc after ≡ (has pvc before || is_labeled pvc pods)
unfolding pods_by_pvc
pods_by_pvc-has [] before after pvc = λ e. ground arith
pods_by_pvc-has (pod ∷ rest) before after pvc =
    found pod.containers (λ name. pods_by_pvc-has rest (insert label name before) after pvc)
  where
    label : String
    label = label_of pvc_label pod.labels

    found :
        (containers : List String)
        → ((name : String)
            → pods_by_pvc rest (insert label name before) ≡ some after
            → has pvc after ≡ (has pvc (insert label name before) || is_labeled pvc rest))
        → (elim containers [
          | [] ↦ none
          | name ∷ more ↦ pods_by_pvc rest (insert label name before)
        ])
          ≡ some after
        → has pvc after ≡ (has pvc before || ((label == pvc) || is_labeled pvc rest))
    found [] ih e = absurd (cc)
    found (name ∷ more) ih e = ground (arith, ih name e, has-insert label pvc name before)

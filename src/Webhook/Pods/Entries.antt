-- ===== src/Webhook/Pods/Entries.antt =====
-- A predicate on the names of the listed pods holds of the names that validatePods goes on with.
use verify_directory_operato.Base.{String, List, [], ◌∷◌, ◌==◌, Bool-cases, inl, inr}
use verify_directory_operato.Base.Lists.{All}
use verify_directory_operato.Base.Dict.{Dict, insert, contains}
use verify_directory_operato.Kube.{Pod}
use verify_directory_operato.Webhook.Pods.{pods_by_label, left_alone}

insert-All :
    (R : String → Type 0) (k v : String) (m : Dict String)
    → R v
    → All (λ e. R e.1) m
    → All (λ e. R e.1) (insert k v m)
unfolding insert
insert-All R k v [] r h = (r, tt)
insert-All R k v ((j, u) ∷ m) r h = elim (Bool-cases (j == k)) [
  | inl same ↦ rw (same, insert) (r, h.1)
  | inr other ↦ rw (other, insert) (h.0, insert-All R k v m r h.1)
]

pub pods_by_label-All :
    (R : String → Type 0) (pods : List Pod) (before : Dict String)
    → All (λ pod. R pod.name) pods
    → All (λ e. R e.1) before
    → All (λ e. R e.1) (pods_by_label pods before)
unfolding pods_by_label
pods_by_label-All R [] before rs h = h
pods_by_label-All R (pod ∷ rest) before rs h =
    pods_by_label-All R rest _ rs.1 (insert-All R _ pod.name before rs.0 h)

pub left_alone-All :
    (R : String → Type 0) (pvcs : List String) (pods : Dict String)
    → All (λ e. R e.1) pods
    → All R (left_alone pvcs pods)
unfolding left_alone
left_alone-All R pvcs [] h = tt
left_alone-All R pvcs ((pvc, name) ∷ pods) h = elim (Bool-cases (contains pvc pvcs)) [
  | inl stays ↦ rw (stays, left_alone) (h.0, left_alone-All R pvcs pods h.1)
  | inr goes ↦ rw (goes, left_alone) (left_alone-All R pvcs pods h.1)
]

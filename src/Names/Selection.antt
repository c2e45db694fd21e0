-- ===== src/Names/Selection.antt =====
-- Which labels select which pods: the selectors of the controller and of the webhook against the
-- labels that the controller gives its pods.
use verify_directory_operato.Base.{◌≡◌, ◌≢◌, ◌↔◌, String, some, arith, eq_iff}
use verify_directory_operato.Base.Lists.{All}
use verify_directory_operato.Base.Dict.{lookup}
use verify_directory_operato.Api.{Labels}
use verify_directory_operato.Names.{labels_for_app, labels_for_pod, labels_for_replica, pvc_label}

-- The rule of client.MatchingLabels and of a selector's matchLabels: every pair of the selector is
-- a label of the object.
abbrev pub Selects : Labels → Labels → Type 0
Selects selector labels = All (λ p. lookup p.0 labels ≡ some p.1) selector

-- The listing of getExistingPods selects every pod that deployReplica labels for the deployment
-- and a PVC, and such a pod carries the name of that PVC.
pub labels_for_replica-Selects :
    (name pod pvc : String)
    → pvc ≢ ""
    → Selects (labels_for_replica name "") (labels_for_pod name pod pvc)
      × (lookup pvc_label (labels_for_pod name pod pvc) ≡ some pvc)
unfolding labels_for_replica labels_for_pod lookup
labels_for_replica-Selects name pod pvc h = ground (arith, eq_iff pvc "")

-- The listing of validatePods, whose selector is LabelsForApp, selects no pod that deployReplica
-- labels, whatever the names and the PVC.
pub not-labels_for_app-Selects :
    (name owner pod pvc : String)
    → ¬ Selects (labels_for_app name "") (labels_for_pod owner pod pvc)
unfolding labels_for_app labels_for_pod lookup
not-labels_for_app-Selects name owner pod pvc = ground arith

-- The selector LabelsForPod of a replica set and of its service selects the pods of that very
-- name, PVC and deployment, and no others.
pub labels_for_pod-Selects_iff :
    (name pod pvc name' pod' pvc' : String)
    → pvc ≢ ""
    → Selects (labels_for_pod name pod pvc) (labels_for_pod name' pod' pvc')
      ↔ ((name ≡ name') × (pod ≡ pod') × (pvc ≡ pvc'))
unfolding labels_for_pod lookup
labels_for_pod-Selects_iff name pod pvc name' pod' pvc' h =
    ground (arith, eq_iff pvc "", eq_iff pvc' "")

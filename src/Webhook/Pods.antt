-- ===== src/Webhook/Pods.antt =====
-- validatePods: which pods an update adds, removes and leaves, and whether they allow it.
pub mod Requests
pub mod Entries
pub mod Allowed
use verify_directory_operato.Base.{Bool, true, false, String, ◌<>◌, List, [], ◌∷◌, if◌then◌else◌}
use verify_directory_operato.Base.Dict.{Dict, insert, contains}
use verify_directory_operato.Names.{labels_for_app, pvc_label}
use verify_directory_operato.Api.{Directory}
use verify_directory_operato.Yaml.{Value}
use verify_directory_operato.Kube.{
  M, Env, Error, Answer, Pod, Phase, running, ContainerStatus, list_pods, get_pod, pure, raise,
  panics, ask, each, shuffled, ◌>>=◌, ◌>>◌,
}
use verify_directory_operato.Controller.Handle.{new_error}
use verify_directory_operato.Controller.Reconcile.{label_of, obsolete, missing}
use verify_directory_operato.Webhook.Master.{get_primary_write_masters}

-- The loop over the listed pods.
unfoldable pub pods_by_label : List Pod → Dict String → Dict String
pods_by_label [] pods = pods
pods_by_label (pod ∷ rest) pods =
    pods_by_label rest (insert (label_of pvc_label pod.labels) pod.name pods)

-- The names of the pods that the document still has.
unfoldable pub left_alone : List String → Dict String → List String
left_alone pvcs [] = []
left_alone pvcs ((pvc, name) ∷ pods) =
    let rest = left_alone pvcs pods in if contains pvc pvcs then name ∷ rest else rest

-- `pod.Status.Phase != PodRunning || !pod.Status.ContainerStatuses[0].Ready`
unready : {W : Type 0} → Phase → List ContainerStatus → M W Bool
unready running [] = panics
unready running (s ∷ rest) = pure (if s.ready then false else true)
unready _ statuses = pure true

not_ready_error : String → Error
not_ready_error name = new_error (
    "The pod, "
    <> (name
        <> ", is not currently ready.  You must wait until all pods are ready before attempting to edit the document."))

master_error : String → Error
master_error pvc = new_error (
    "The pvc, "
    <> (pvc
        <> ", is currently being used as the primary write master by the LDAP proxy. As a result it is not currently possible to remove this PVC."))

module _ {W : Type 0} (E : Env W) where
  -- The body of the loop over the pods that are left alone.
  unfoldable pub check_ready : Directory → String → M W (Unit {0})
  unfolding unready not_ready_error
  check_ready d name = do
    pod ← ask E (get_pod d.namespace name)
    bad ← unready pod.phase pod.statuses
    if bad then raise (not_ready_error name) else pure tt

  -- The body of the loop over the PVCs that go.
  unfoldable pub check_not_master : List String → String → M W (Unit {0})
  unfolding master_error
  check_not_master primaries pvc =
      if contains pvc primaries then raise (master_error pvc) else pure tt

module _ {W : Type 0} (E : Env W) (decode : String → Answer Value) where
  -- The checks where something changes.
  unfoldable pub validate_changes : Directory → List String → List String → M W (Unit {0})
  validate_changes d to_be_deleted to_be_left = do
    each (check_ready E d) to_be_left
    primaries ← get_primary_write_masters E decode d
    each (check_not_master E primaries) to_be_deleted

  -- `len(toBeDeleted) == 0 && len(toBeAdded) == 0`
  validate_if_changed : Directory → List String → List String → List String → M W (Unit {0})
  validate_if_changed d [] [] to_be_left = pure tt
  validate_if_changed d to_be_deleted to_be_added to_be_left =
      validate_changes d to_be_deleted to_be_left

  -- validatePods
  unfoldable pub validate_pods : Directory → M W (Unit {0})
  unfolding validate_if_changed pods_by_label obsolete missing left_alone
  validate_pods d = do
    listed ← ask E (list_pods d.namespace (labels_for_app d.name ""))
    let pods = pods_by_label listed []
    order ← shuffled E pods
    validate_if_changed d (obsolete d.spec.pvcs order) (missing pods d.spec.pvcs)
        (left_alone d.spec.pvcs order)

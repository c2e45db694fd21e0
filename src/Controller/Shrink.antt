-- ===== src/Controller/Shrink.antt =====
-- deleteReplicas of src/controllers/ibmsecurityverifydirectory_delete.go.
pub mod Targets
pub mod Unlinks
use verify_directory_operato.Base.{Bool, true, false, String, List, [], ◌∷◌, if◌then◌else◌}
use verify_directory_operato.Base.Dict.{Dict, contains}
use verify_directory_operato.Names.{get_replica_pod_name}
use verify_directory_operato.Kube.{M, Env, pure, each, shuffled, ◌>>=◌, ◌>>◌}
use verify_directory_operato.Controller.Handle.{Handle}
use verify_directory_operato.Controller.Pods.{get_replica_set_pod_name}
use verify_directory_operato.Controller.Replica.{delete_replica, delete_replication_agreement}

module _ {W : Type 0} (E : Env W) where
  -- The body of the loop over the existing replicas, at the pod and the id of the replica that
  -- goes.
  unfoldable pub unlink : Handle → List String → String → String → String × String → M W (Unit {0})
  unlink h to_be_deleted pod id (pvc, name) =
      if contains pvc to_be_deleted then pure tt else delete_replication_agreement E h pod id

  -- The body of the loop over the replicas to be deleted.
  unfoldable pub remove_replica : Handle → Dict String → List String → String → M W (Unit {0})
  remove_replica h existing to_be_deleted pvc = do
    pod ← get_replica_set_pod_name E h (get_replica_pod_name h.directory pvc)
    order ← shuffled E existing
    each (unlink h to_be_deleted pod (get_replica_pod_name h.directory pvc)) order
    delete_replica E h pvc

  -- deleteReplicas
  unfoldable pub delete_replicas : Handle → Dict String → List String → M W (Unit {0})
  delete_replicas h existing to_be_deleted =
      each (remove_replica h existing to_be_deleted) to_be_deleted

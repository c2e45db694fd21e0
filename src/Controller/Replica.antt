-- ===== src/Controller/Replica.antt =====
-- One replica: its deployment, its seed job, its replication agreements and its deletion, from
-- src/controllers/ibmsecurityverifydirectory_create.go and
-- src/controllers/ibmsecurityverifydirectory_delete.go.
pub mod Build
pub mod Errors
pub mod Traces
pub mod Requests
use verify_directory_operato.Base.{
  Bool, true, false, String, List, [], ◌∷◌, ◌++◌, if◌then◌else◌, ◌==◌,
}
use verify_directory_operato.Base.Int.{itoa}
use verify_directory_operato.Base.Dict.{Dict}
use verify_directory_operato.Names.{get_replica_pod_name}
use verify_directory_operato.Kube.{
  M, Env, on_answer, Error, Answer, granted, refused, Object, job, replica_set, services,
  replica_sets, create, delete, pure, raise, ask, settle, each, shuffled, ◌>>=◌, ◌>>◌,
}
use verify_directory_operato.Controller.Handle.{Handle}
use verify_directory_operato.Controller.Pods.{get_replica_set_pod_name, is_pod_op_complete}
use verify_directory_operato.Controller.Objects.{is_not_found, execute_command}
use Build.{replica_object, seed_job}

module _ {W : Type 0} (E : Env W) where
  -- deployReplica. The error of the creation is logged and dropped.
  unfoldable pub deploy_replica : Handle → String → M W String
  deploy_replica h pvc = do
    settle (ask E (create (replica_object E h pvc)))
    get_replica_set_pod_name E h (get_replica_pod_name h.directory pvc)

  -- seedReplica
  unfoldable pub seed_replica : Handle → String → String → M W (Unit {0})
  seed_replica h principal pvc = ask E (create (seed_job E h principal pvc))

  -- `err != nil && !errors.IsNotFound(err)`
  unfoldable pub unless_missing : M W (Unit {0}) → M W (Unit {0})
  unless_missing m = do
    done ← settle m
    on_answer done (λ _. pure tt) (λ e. if is_not_found e then pure tt else raise e)

  -- deleteReplica
  unfoldable pub delete_replica : Handle → String → M W (Unit {0})
  unfolding unless_missing
  delete_replica h pvc = do
    let pod = get_replica_pod_name h.directory pvc
    name ← get_replica_set_pod_name E h pod
    unless_missing (ask E (delete services h.directory.namespace pod))
    unless_missing (ask E (delete replica_sets h.directory.namespace pod))
    E.poll_immediate 1 300 (is_pod_op_complete E h name false)

  -- deleteReplicationAgreement; the command's error is dropped.
  unfoldable pub delete_replication_agreement : Handle → String → String → M W (Unit {0})
  delete_replication_agreement h pod id = do
    settle (execute_command E h pod ("isvd_manage_replica" ∷ "-r" ∷ "-i" ∷ id ∷ []))
    pure tt

  -- The command of createReplicationAgreement, from the principal's, the source's and the
  -- destination's replica names.
  unfoldable pub agreement_command : Handle → String → String → String → List String
  agreement_command h principal src dst =
      ("isvd_manage_replica"
        ∷ (if principal == src
            then "-ap"
              ∷ "-h"
              ∷ dst
              ∷ "-p"
              ∷ itoa h.config.port
              ∷ "-i"
              ∷ dst
              ∷ "-ph"
              ∷ src
              ∷ "-pp"
              ∷ itoa h.config.port
              ∷ []
            else "-ar"
              ∷ "-h"
              ∷ dst
              ∷ "-p"
              ∷ itoa h.config.port
              ∷ "-i"
              ∷ dst
              ∷ "-s"
              ∷ principal
              ∷ []))
      ++ (if h.config.secure then "-z" ∷ [] else [])

  -- createReplicationAgreement
  unfoldable pub create_replication_agreement : Handle → String → String → String → M W (Unit {0})
  unfolding agreement_command
  create_replication_agreement h principal source dest = do
    let principal_rep = get_replica_pod_name h.directory principal
    let src = get_replica_pod_name h.directory source
    let dst = get_replica_pod_name h.directory dest
    pod ← get_replica_set_pod_name E h src
    settle (execute_command E h pod ("isvd_manage_replica" ∷ "-r" ∷ "-i" ∷ dst ∷ []))
    execute_command E h pod (agreement_command h principal_rep src dst)

  -- The body of the loop of createReplicationAgreements.
  unfoldable pub agree_with : Handle → String → String → String × String → M W (Unit {0})
  agree_with h principal pvc (source, name) =
      if source == principal
      then pure tt
      else if source == pvc
      then pure tt
      else create_replication_agreement h principal source pvc

  -- createReplicationAgreements
  unfoldable pub create_replication_agreements :
      Handle → String → String → Dict String → M W (Unit {0})
  unfolding agree_with
  create_replication_agreements h principal pvc existing = do
    order ← shuffled E existing
    each (agree_with h principal pvc) order

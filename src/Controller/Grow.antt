-- ===== src/Controller/Grow.antt =====
-- createReplicas of src/controllers/ibmsecurityverifydirectory_create.go, one function for each
-- of its phases.
pub mod Members
pub mod Seeding
pub mod Requests
pub mod Order
pub mod Failure
pub mod Links
use verify_directory_operato.Base.{Bool, true, false, Option, String, List, [], ◌∷◌, if◌then◌else◌}
use verify_directory_operato.Base.Dict.{Dict, insert}
use verify_directory_operato.Names.{
  get_replica_deployment_name, get_seed_config_map_name, get_seed_job_name,
}
use verify_directory_operato.Kube.{
  M, Env, on_answer, Error, Answer, granted, refused, pure, raise, or_panic, settle, each, shuffled,
  ◌>>=◌, ◌>>◌,
}
use verify_directory_operato.Controller.Handle.{Handle}
use verify_directory_operato.Controller.Pods.{get_replica_set_pod_name, wait_for_pod, wait_for_job}
use verify_directory_operato.Controller.Objects.{
  create_config_map, delete_config_map, create_cluster_service,
}
use verify_directory_operato.Controller.Replica.{
  deploy_replica, seed_replica, delete_replica, create_replication_agreement,
  create_replication_agreements,
}
use verify_directory_operato.Controller.Replica.Build.{config_map_key}

-- The key that a range over the map meets first, and the empty text where there is none.
abbrev pub first_key : Dict String → String
first_key [] = ""
first_key ((k, v) ∷ rest) = k

module _ {W : Type 0} (E : Env W) where
  -- Deploy a replica, create its service and wait for its pod: the new principal, and the
  -- principal again at the end.
  unfoldable pub start_principal : Handle → String → M W String
  start_principal h principal = do
    pod ← deploy_replica E h principal
    name ← or_panic (get_replica_deployment_name pod)
    create_cluster_service E h name h.config.port principal
    wait_for_pod E h pod
    pure name

  -- Run a step of the seeding; on its error delete the seed config map and return the error.
  unfoldable pub or_clean_up : Handle → M W (Unit {0}) → M W (Unit {0})
  or_clean_up h m = do
    done ← settle m
    on_answer done (λ _. pure tt)
        (λ e. do settle (delete_config_map E h (get_seed_config_map_name h.directory)); raise e)

  -- Create the seed config map, start every seed job, await every seed job, delete the map.
  unfoldable pub seed_replicas : Handle → String → List String → M W (Unit {0})
  seed_replicas h principal added = do
    create_config_map E h (get_seed_config_map_name h.directory) config_map_key
        "seed: \n  replica: \n    clean: true\n"
    or_clean_up h (each (λ pvc. seed_replica E h principal pvc) added)
    or_clean_up h (each (λ pvc. wait_for_job E h (get_seed_job_name h.directory pvc)) added)
    settle (delete_config_map E h (get_seed_config_map_name h.directory))
    pure tt

  -- Deploy every new replica; the maps replicaPods and existing grow by its deployment.
  unfoldable pub deploy_replicas :
      Handle → List String → Dict String → Dict String → M W (Dict String × Dict String)
  deploy_replicas h [] pods existing = pure (pods, existing)
  deploy_replicas h (pvc ∷ added) pods existing = do
    pod ← deploy_replica E h pvc
    name ← or_panic (get_replica_deployment_name pod)
    deploy_replicas h added (insert pvc name pods) (insert pvc name existing)

  -- Wait for the pod of a deployment in replicaPods.
  unfoldable pub await_replica : Handle → String × String → M W (Unit {0})
  await_replica h (pvc, name) = do pod ← get_replica_set_pod_name E h name; wait_for_pod E h pod

  -- The service of a deployment in replicaPods.
  unfoldable pub serve_replica : Handle → String × String → M W (Unit {0})
  serve_replica h (pvc, name) = create_cluster_service E h name h.config.port pvc

  -- Await the new replicas, link each to every other, and give each its service.
  unfoldable pub connect_replicas :
      Handle → String → List String → Dict String × Dict String → M W (Dict String)
  unfolding await_replica serve_replica
  connect_replicas h principal added maps = do
    order ← shuffled E maps.0
    each (await_replica h) order
    each (λ pvc. create_replication_agreements E h principal pvc maps.1) added
    order' ← shuffled E maps.0
    each (serve_replica h) order'
    pure maps.1

  -- Start the new replicas.
  unfoldable pub start_replicas : Handle → String → List String → Dict String → M W (Dict String)
  start_replicas h principal added existing = do
    maps ← deploy_replicas h added [] existing
    connect_replicas h principal added maps

  -- Everything after the choice of the principal.
  unfoldable pub grow : Handle → String → List String → Dict String → M W (Dict String)
  grow h principal added existing = do
    each (λ pvc. create_replication_agreement E h principal principal pvc) added
    delete_replica E h principal
    seed_replicas h principal added
    existing' ← start_replicas h principal added existing
    start_principal h principal
    pure existing'

  -- The first replica of a deployment becomes the principal.
  unfoldable pub create_first : Handle → String → List String → Dict String → M W (Dict String)
  create_first h principal added existing = do
    name ← start_principal h principal
    elim added [
      | [] ↦ pure (insert principal name existing)
      | pvc ∷ more ↦ grow h principal (pvc ∷ more) (insert principal name existing)
    ]

  -- createReplicas
  unfoldable pub create_replicas : Handle → Dict String → List String → M W (Dict String)
  create_replicas h existing [] = pure existing
  create_replicas h [] (principal ∷ added) = create_first h principal added []
  create_replicas h (replica ∷ more) (pvc ∷ added) = do
    order ← shuffled E (replica ∷ more)
    grow h (first_key order) (pvc ∷ added) (replica ∷ more)

-- ===== src/Controller/Reconcile.antt =====
-- Reconcile, getExistingPods and analyseExistingPods of
-- src/controllers/ibmsecurityverifydirectory_controller.go.
pub mod Analysis
pub mod Existing
pub mod Convergence
pub mod Outcome
pub mod Run
pub mod Requests
pub mod Stages
use verify_directory_operato.Base.{
  Bool, true, false, Option, none, some, String, List, [], ◌∷◌, if◌then◌else◌,
}
use verify_directory_operato.Base.Dict.{Dict, lookup, insert, has, contains, keys}
use verify_directory_operato.Names.{labels_for_replica, pvc_label}
use verify_directory_operato.Kube.{
  M, Env, on_answer, Error, Answer, granted, refused, Pod, ReplicaSet, get_directory, list_pods,
  update_status, pure, raise, panics, ask, settle, shuffled, ◌>>=◌, ◌>>◌,
}
use verify_directory_operato.Api.{Directory}
use verify_directory_operato.Controller.Handle.{Handle, ServerConfig}
use verify_directory_operato.Controller.Grow.{create_replicas}
use verify_directory_operato.Controller.Shrink.{delete_replicas}
use verify_directory_operato.Controller.ServerConfig.{get_server_config}
use verify_directory_operato.Controller.Proxy.{Codec, deploy_proxy}
use verify_directory_operato.Controller.Status.{ConditionApi, set_condition, in_progress}
use verify_directory_operato.Base.Int.{pos}

-- m[key] of a map with texts, which is empty where the key is missing.
abbrev pub label_of : String → Dict String → String
label_of key labels = elim (lookup key labels) [ none ↦ "" | some v ↦ v ]

-- The loop of getExistingPods; Containers[0] panics on a pod with no container, which is `none`.
unfoldable pub pods_by_pvc : List Pod → Dict String → Option (Dict String)
pods_by_pvc [] pods = some pods
pods_by_pvc (pod ∷ rest) pods = elim pod.containers [
  | [] ↦ none
  | container ∷ more ↦ pods_by_pvc rest (insert (label_of pvc_label pod.labels) container pods)
]

-- The keys of a range over the existing replicas that the document does not name.
unfoldable pub obsolete : List String → Dict String → List String
obsolete pvcs [] = []
obsolete pvcs ((pvc, name) ∷ existing) =
    let rest = obsolete pvcs existing in if contains pvc pvcs then rest else pvc ∷ rest

-- The PVCs of the document that have no replica.
unfoldable pub missing : Dict String → List String → List String
missing existing [] = []
missing existing (pvc ∷ pvcs) =
    let rest = missing existing pvcs in if has pvc existing then rest else pvc ∷ rest

abbrev is_empty : List String → Bool
is_empty [] = true
is_empty (x ∷ xs) = false

abbrev pub no_config : ServerConfig
no_config = record {
  port = pos 0;
  secure = false;
  license_key = "";
  admin_dn = "";
  admin_pwd = "";
  suffixes = [];
}

module _ {W : Type 0} (E : Env W) where
  -- getExistingPods
  unfoldable pub get_existing_pods : Handle → M W (Dict String)
  get_existing_pods h = do
    pods ← ask E (list_pods h.req_namespace (labels_for_replica h.req_name ""))
    elim (pods_by_pvc pods []) [ none ↦ panics | some existing ↦ pure existing ]

  -- analyseExistingPods: the replicas to be deleted, and those to be added.
  unfoldable pub analyse_existing_pods : Handle → Dict String → M W (List String × List String)
  unfolding obsolete missing
  analyse_existing_pods h existing = do
    order ← shuffled E existing
    pure (obsolete h.directory.spec.pvcs order, missing existing h.directory.spec.pvcs)

module _ {W : Type 0} (E : Env W) (api : ConditionApi) (codec : Codec)
    (same_spec : ReplicaSet → ReplicaSet → Bool) where
  -- `if len(toBeDeleted) != 0 || len(toBeAdded) != 0 { createReplicas }`
  unfoldable pub add_replicas : Handle → Dict String → List String × List String → M W (Dict String)
  add_replicas h existing (to_be_deleted, to_be_added) =
      if is_empty to_be_deleted
      then if is_empty to_be_added then pure existing else create_replicas E h existing to_be_added
      else create_replicas E h existing to_be_added

  -- What Reconcile does between its two updates of the status.
  unfoldable pub apply_changes : Handle → Dict String → List String × List String → M W (Unit {0})
  unfolding add_replicas
  apply_changes h existing changes = do
    h' ← get_server_config E codec.decode h
    replicas ← add_replicas h' existing changes
    deploy_proxy E codec same_spec h'
    delete_replicas E h' replicas changes.0

  -- `r.setCondition(err, &h, …)`, whose own error Reconcile drops.
  unfoldable pub conclude : Handle → Answer (Unit {0}) → M W (Unit {0})
  conclude h (granted _) = settle (set_condition api E h none) >>= λ _. pure tt
  conclude h (refused e) = settle (set_condition api E h (some e)) >>= λ _. pure tt

  -- From the first update of the status on.
  unfoldable pub progress : Handle → Dict String → List String × List String → M W (Unit {0})
  progress h existing changes = do
    let d = h.directory
    updated ←
        settle (ask E (update_status (record d { conditions = api.set d.conditions in_progress })))
    on_answer updated
        (λ d'. do
          let h' = record h { directory = d' }
          done ← settle (apply_changes h' existing changes)
          conclude h' done)
        (λ e. pure tt)

  -- Reconcile for a document that is not failing.
  unfoldable pub reconcile_document : Handle → M W (Unit {0})
  reconcile_document h = do
    found ← settle (get_existing_pods E h)
    on_answer found
        (λ existing. do changes ← analyse_existing_pods E h existing; progress h existing changes)
        (λ e. conclude h (refused e))

  -- Reconcile. Its result is ctrl.Result{} on every path, the value `tt` here.
  unfoldable pub reconcile : String → String → M W (Unit {0})
  reconcile namespace name = do
    found ← settle (ask E (get_directory namespace name))
    on_answer found
        (λ d.
          if api.is_false d.conditions "Available"
          then pure tt
          else reconcile_document (record {
            req_namespace = namespace;
            req_name = name;
            directory = d;
            config = no_config;
          }))
        (λ e. pure tt)

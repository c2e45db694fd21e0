-- ===== src/Controller/Reconcile/Requests.antt =====
-- What the changes of Reconcile ask for between its two updates of the status.
use verify_directory_operato.Base.{◌≡◌, refl, Bool, true, false, String, List, [], ◌∷◌}
use verify_directory_operato.Base.Dict.{Dict}
use verify_directory_operato.Kube.{
  Env, Request, ReplicaSet, update_status, create, update, delete, exec,
}
use verify_directory_operato.Kube.Rules.{
  Emits, Emits-pure, Emits-bind, Emits-if, Emits-each, Emits-shuffled, PollsFairly,
}
use verify_directory_operato.Controller.Handle.{Handle}
use verify_directory_operato.Controller.Status.{ConditionApi}
use verify_directory_operato.Controller.Pods.Requests.{is_read, Emits-get_replica_set_pod_name}
use verify_directory_operato.Controller.Replica.Build.{replica_object, seed_job}
use verify_directory_operato.Controller.Replica.Requests.{
  Emits-delete_replica, Emits-delete_replication_agreement, Emits-create_replication_agreement,
}
use verify_directory_operato.Controller.Grow.{start_principal, grow, create_first, create_replicas}
use verify_directory_operato.Controller.Grow.Requests.{
  Emits-seed_replicas, Emits-start_replicas, Emits-start_principal,
}
use verify_directory_operato.Controller.Shrink.{unlink, remove_replica, delete_replicas}
use verify_directory_operato.Controller.ServerConfig.Requests.{Emits-get_server_config}
use verify_directory_operato.Controller.Proxy.{Codec}
use verify_directory_operato.Controller.Proxy.Requests.{is_proxied, Emits-deploy_proxy}
use verify_directory_operato.Controller.Reconcile.{add_replicas, apply_changes}

abbrev pub is_status : Request → Bool
is_status (update_status d) = true
is_status _ = false

is_status-is_read : (q : Request) → is_read q ≡ true → is_status q ≡ false
is_status-is_read (update_status d) e = absurd (cc)
is_status-is_read _ e = refl

is_status-is_proxied : (q : Request) → is_proxied q ≡ true → is_status q ≡ false
is_status-is_proxied (update_status d) e = absurd (cc)
is_status-is_proxied _ e = refl

-- Every request but an update of the status satisfies P.
module _ {W : Type 0} (E : Env W) (polls : PollsFairly E) (P : Request → Type 0)
    (works : (q : Request) → is_status q ≡ false → P q) where
  reads : (q : Request) → is_read q ≡ true → P q
  reads q e = works q (is_status-is_read q e)

  execs : (ns pod : String) (command : List String) → P (exec ns pod command)
  execs ns pod command = works (exec ns pod command) refl

  module _ (h : Handle) where
    Emits-start_principal_here : (principal : String) → Emits P (start_principal E h principal)
    unfolding replica_object
    Emits-start_principal_here principal =
        Emits-start_principal E polls P reads execs h (λ pvc. works (create _) refl)
          (λ _ _ _. works (create _) refl) principal

    Emits-grow :
        (principal : String) (added : List String) (existing : Dict String)
        → Emits P (grow E h principal added existing)
    unfolding grow replica_object seed_job
    Emits-grow principal added existing =
        Emits-bind P _ _
          (Emits-each P _
            (λ pvc. Emits-create_replication_agreement E P execs reads h principal principal pvc)
            added)
          λ _.
            Emits-bind P _ _
              (Emits-delete_replica E P polls reads h principal
                (λ kind. works (delete kind _ _) refl))
              λ _.
                Emits-bind P _ _
                  (Emits-seed_replicas E polls P reads h (λ _ _ _. works (create _) refl)
                    (λ _ _ _. works (update _) refl) (λ _. works (delete _ _ _) refl)
                    (λ _ _. works (create _) refl) principal added)
                  λ _.
                    Emits-bind P _ _
                      (Emits-start_replicas E polls P reads execs h (λ pvc. works (create _) refl)
                        (λ _ _ _. works (create _) refl) principal added existing)
                      λ m.
                        Emits-bind P _ _ (Emits-start_principal_here principal)
                          (λ _. Emits-pure P m)

    Emits-create_first :
        (principal : String) (added : List String) (existing : Dict String)
        → Emits P (create_first E h principal added existing)
    unfolding create_first
    Emits-create_first principal [] existing =
        Emits-bind P _ _ (Emits-start_principal_here principal) (λ name. Emits-pure P _)
    Emits-create_first principal (pvc ∷ more) existing =
        Emits-bind P _ _ (Emits-start_principal_here principal)
          (λ name. Emits-grow principal (pvc ∷ more) _)

    Emits-create_replicas :
        (existing : Dict String) (added : List String)
        → Emits P (create_replicas E h existing added)
    unfolding create_replicas
    Emits-create_replicas existing [] = Emits-pure P existing
    Emits-create_replicas [] (principal ∷ added) = Emits-create_first principal added []
    Emits-create_replicas (entry ∷ more) (pvc ∷ added) =
        Emits-bind P _ _ (Emits-shuffled E P (entry ∷ more)) (λ order. Emits-grow _ _ _)

    Emits-unlink :
        (deleted : List String) (pod id : String) (entry : String × String)
        → Emits P (unlink E h deleted pod id entry)
    unfolding unlink
    Emits-unlink deleted pod id entry =
        Emits-if P _ _ _ (Emits-pure P tt) (Emits-delete_replication_agreement E P execs h pod id)

    Emits-remove_replica :
        (existing : Dict String) (deleted : List String) (pvc : String)
        → Emits P (remove_replica E h existing deleted pvc)
    unfolding remove_replica
    Emits-remove_replica existing deleted pvc =
        Emits-bind P _ _ (Emits-get_replica_set_pod_name E P reads h _) λ pod.
          Emits-bind P _ _ (Emits-shuffled E P existing) λ order.
            Emits-bind P _ _ (Emits-each P _ (Emits-unlink deleted pod _) order)
              λ _. Emits-delete_replica E P polls reads h pvc (λ kind. works (delete kind _ _) refl)

  module _ (api : ConditionApi) (codec : Codec) (same_spec : ReplicaSet → ReplicaSet → Bool) where
    Emits-add_replicas :
        (h : Handle) (existing : Dict String) (deleted added : List String)
        → Emits P (add_replicas E api codec same_spec h existing (deleted, added))
    unfolding add_replicas
    Emits-add_replicas h existing deleted added =
        Emits-if P _ _ _
          (Emits-if P _ _ _ (Emits-pure P existing) (Emits-create_replicas h existing added))
          (Emits-create_replicas h existing added)

    pub Emits-apply_changes :
        (h : Handle) (existing : Dict String) (changes : List String × List String)
        → Emits P (apply_changes E api codec same_spec h existing changes)
    unfolding apply_changes delete_replicas
    Emits-apply_changes h existing changes =
        Emits-bind P _ _ (Emits-get_server_config E codec.decode P reads h) λ h'.
          Emits-bind P _ _ (Emits-add_replicas h' existing changes.0 changes.1) λ replicas.
            Emits-bind P _ _
              (Emits-deploy_proxy E codec same_spec P (λ q e. works q (is_status-is_proxied q e))
                h')
              λ _. Emits-each P _ (Emits-remove_replica h' replicas changes.0) changes.0

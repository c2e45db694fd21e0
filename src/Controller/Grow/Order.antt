-- ===== src/Controller/Grow/Order.antt =====
-- createReplicas: in which order its phases make their requests.
use verify_directory_operato.Base.{
  ◌≡◌, ◌∙◌, refl, is_some, Bool, true, false, none, some, String, List, arith, ◌&&◌, ◌==◌, eq_refl,
  if◌then◌else◌, ap,
}
use verify_directory_operato.Base.Dict.{Dict}
use verify_directory_operato.Names.{get_replica_pod_name}
use verify_directory_operato.Kube.{
  Env, Request, create, delete, services, replica_sets, replica_set, job, ask,
}
use verify_directory_operato.Kube.Rules.{Emits-pure, Emits-bind, Emits-ask, Emits-each, PollsFairly}
use verify_directory_operato.Kube.Endings.{ask-trace}
use verify_directory_operato.Kube.Monitor.{
  Monitor, watch, Safe, Leads, Leads-Emits, Safe-Emits, Safe-bind, Leads-bind,
}
use verify_directory_operato.Controller.Handle.{Handle}
use verify_directory_operato.Controller.Pods.Requests.{
  is_read, Emits-get_replica_set_pod_name, Emits-is_pod_op_complete,
}
use verify_directory_operato.Controller.Replica.{delete_replica, unless_missing}
use verify_directory_operato.Controller.Replica.Requests.{
  Emits-unless_missing, Emits-create_replication_agreement,
}
use verify_directory_operato.Controller.Replica.Traces.{unless_missing-trace}
use verify_directory_operato.Controller.Replica.Build.{replica_object, seed_job}
use verify_directory_operato.Controller.Grow.{grow}
use verify_directory_operato.Controller.Grow.Requests.{
  Emits-seed_replicas, Emits-start_replicas, Emits-start_principal,
}

-- A monitor whose state says whether the principal's replica set is stopped: its deletion stops
-- it, its creation starts it, and a job while it is not stopped is stuck.
abbrev pub principal_monitor : String → String → Monitor
principal_monitor ns pod stopped (delete replica_sets n name) =
    some (if n == ns && name == pod then true else stopped)
principal_monitor ns pod stopped (create (replica_set rs)) =
    some (if rs.meta.name == pod then false else stopped)
principal_monitor ns pod stopped (create (job j)) = if stopped then some true else none
principal_monitor ns pod stopped _ = some stopped

module _ (ns pod : String) where
  monitor-reads :
      (s : Bool) (q : Request) → is_read q ≡ true → principal_monitor ns pod s q ≡ some s
  monitor-reads s (delete k n name) e = absurd (cc)
  monitor-reads s (create o) e = absurd (cc)
  monitor-reads s _ e = refl

-- The monitor of the principal's replica set.
abbrev pub watched : Handle → String → Monitor
watched h principal =
    principal_monitor h.directory.namespace (get_replica_pod_name h.directory principal)

module _ {W : Type 0} (E : Env W) (polls : PollsFairly E) (h : Handle) (principal : String) where
  watched-reads : (s : Bool) (q : Request) → is_read q ≡ true → (watched h principal) s q ≡ some s
  watched-reads = monitor-reads h.directory.namespace (get_replica_pod_name h.directory principal)

  any-reads :
      (q : Request) → is_read q ≡ true → (s : Bool) → is_some ((watched h principal) s q) ≡ true
  any-reads q e s = ap is_some (watched-reads s q e)

  stops :
      (w : W)
      → watch
          (watched h principal)
          false
          (unless_missing E
            (ask E (
              delete replica_sets h.directory.namespace
                (get_replica_pod_name h.directory principal)))
            w).trace
        ≡ some true
  stops w =
      ap (watch (watched h principal) false) (unless_missing-trace E _ w ∙ ask-trace E _ w)
      ∙ ground (
        arith,
        eq_refl h.directory.namespace,
        eq_refl (get_replica_pod_name h.directory principal),
      )

  unless_missing-stops : Leads (watched h principal) false true (
      unless_missing E (
        ask E
          (delete replica_sets h.directory.namespace (get_replica_pod_name h.directory principal))))
  unless_missing-stops = record { at = λ w. ap is_some (stops w); ends = λ w a e. stops w }

  delete_replica-stops : Leads (watched h principal) false true (delete_replica E h principal)
  unfolding delete_replica
  delete_replica-stops =
      Leads-bind _ _ _ _ _ _
        (Leads-Emits _ false _ (Emits-get_replica_set_pod_name E _ (watched-reads false) h _))
        λ name.
          Leads-bind _ _ _ _ _ _
            (Leads-Emits _ false _ (
              Emits-unless_missing E _ _ (
                Emits-ask E (λ q. (watched h principal) false q ≡ some false)
                  (delete services h.directory.namespace
                    (get_replica_pod_name h.directory principal))
                  refl)))
            λ _. Leads-bind _ _ _ _ _ _ unless_missing-stops λ _. Leads-Emits _ true _ (
              polls.emits _ 1 300 _
                (Emits-is_pod_op_complete E _ (watched-reads true) h name false))

  -- Whatever the answers, createReplicas creates no seed job before it has asked for the deletion
  -- of the principal's replica set, and none after it has asked for its creation again.
  pub grow-Safe :
      (added : List String) (existing : Dict String)
      → Safe (watched h principal) false (grow E h principal added existing)
  unfolding grow seed_job replica_object
  grow-Safe added existing =
      Safe-bind _ false false _ _
        (Leads-Emits _ false _ (
          Emits-each _ _
            (λ pvc.
              Emits-create_replication_agreement E _ (λ _ _ _. refl) (watched-reads false) h _ _
                pvc)
            added))
        λ _. Safe-bind _ false true _ _ delete_replica-stops λ _.
          Safe-bind _ true true _ _
            (Leads-Emits _ true _ (
              Emits-seed_replicas E polls _ (watched-reads true) h (λ _ _ _. refl) (λ _ _ _. refl)
                (λ _. refl) (λ _ _. refl) principal added))
            λ _. Safe-Emits _ true _ (
              Emits-bind _ _ _
                (Emits-start_replicas E polls _ any-reads (λ _ _ _ _. refl) h (λ _ _. refl)
                  (λ _ _ _ _. refl) principal added existing)
                λ m.
                  Emits-bind _ _ _
                    (Emits-start_principal E polls _ any-reads (λ _ _ _ _. refl) h (λ _ _. refl)
                      (λ _ _ _ _. refl) principal)
                    λ _. Emits-pure _ m)

-- ===== src/Controller/Replica/Requests.antt =====
-- The requests of deleteReplica and of the replication agreements.
use verify_directory_operato.Base.{◌≡◌, true, false, String, List}
use verify_directory_operato.Names.{get_replica_pod_name}
use verify_directory_operato.Kube.{M, Env, Request, delete, exec, services, replica_sets, Kind}
use verify_directory_operato.Kube.Rules.{
  Emits, Emits-pure, Emits-bind, Emits-ask, Emits-settle, PollsFairly,
}
use verify_directory_operato.Controller.Handle.{Handle}
use verify_directory_operato.Controller.Pods.Requests.{
  is_read, emits_rules, Emits-get_replica_set_pod_name, Emits-is_pod_op_complete,
}
use verify_directory_operato.Controller.Objects.{execute_command}
use verify_directory_operato.Controller.Replica.{
  unless_missing, delete_replica, delete_replication_agreement, create_replication_agreement,
}

module _ {W : Type 0} (E : Env W) (P : Request → Type 0) where
  pub Emits-unless_missing : (m : M W (Unit {0})) → Emits P m → Emits P (unless_missing E m)
  unfolding unless_missing
  Emits-unless_missing m hm = search emits_rules

  -- A deletion of a replica, where reads satisfy P, and so do deletions of what has its name.
  pub Emits-delete_replica :
      PollsFairly E
      → ((q : Request) → is_read q ≡ true → P q)
      → (h : Handle) (pvc : String)
      → ((kind : Kind)
          → P (delete kind h.directory.namespace (get_replica_pod_name h.directory pvc)))
      → Emits P (delete_replica E h pvc)
  unfolding delete_replica
  Emits-delete_replica polls reads h pvc deletes =
      Emits-bind P _ _ (Emits-get_replica_set_pod_name E P reads h _) λ name.
        Emits-bind P _ _ (Emits-unless_missing _ (Emits-ask E P _ (deletes services))) λ _.
          Emits-bind P _ _ (Emits-unless_missing _ (Emits-ask E P _ (deletes replica_sets)))
            λ _. polls.emits P 1 300 _ (Emits-is_pod_op_complete E P reads h name false)

  module _ (execs : (ns pod : String) (command : List String) → P (exec ns pod command)) where
    Emits-execute_command :
        (h : Handle) (pod : String) (command : List String)
        → Emits P (execute_command E h pod command)
    unfolding execute_command
    Emits-execute_command h pod command = Emits-ask E P _ (execs h.directory.namespace pod command)

    pub Emits-delete_replication_agreement :
        (h : Handle) (pod id : String) → Emits P (delete_replication_agreement E h pod id)
    unfolding delete_replication_agreement
    Emits-delete_replication_agreement h pod id =
        Emits-bind P _ _ (Emits-settle P _ (Emits-execute_command h pod _)) (λ _. Emits-pure P tt)

    pub Emits-create_replication_agreement :
        ((q : Request) → is_read q ≡ true → P q)
        → (h : Handle) (principal source dest : String)
        → Emits P (create_replication_agreement E h principal source dest)
    unfolding create_replication_agreement
    Emits-create_replication_agreement reads h principal source dest =
        search (emits_rules, Emits-get_replica_set_pod_name E P reads, Emits-execute_command) depth
          9

-- ===== src/Controller/Grow/Requests.antt =====
-- The requests of the parts of createReplicas.
use verify_directory_operato.Base.{◌≡◌, true, String, List, [], ◌∷◌}
use verify_directory_operato.Base.Dict.{Dict}
use verify_directory_operato.Base.Int.{ℤ}
use verify_directory_operato.Kube.{M, Env, Request, create, update, delete, exec, config_maps}
use verify_directory_operato.Kube.Rules.{
  Emits, Emits-pure, Emits-raise, Emits-if, Emits-settle, Emits-bind, Emits-answer, Emits-ask,
  Emits-each, Emits-shuffled, Emits-or_panic, PollsFairly,
}
use verify_directory_operato.Controller.Handle.{Handle}
use verify_directory_operato.Controller.Pods.Requests.{
  is_read, emits_rules, Emits-get_replica_set_pod_name, Emits-wait_for_pod, Emits-wait_for_job,
}
use verify_directory_operato.Controller.Objects.{
  create_config_map, delete_config_map, create_cluster_service, config_map_object, cluster_service,
}
use verify_directory_operato.Controller.Replica.{
  deploy_replica, seed_replica, create_replication_agreements,
}
use verify_directory_operato.Controller.Replica.Requests.{Emits-create_replication_agreement}
use verify_directory_operato.Controller.Replica.Build.{replica_object, seed_job}
use verify_directory_operato.Controller.Grow.{
  start_principal, or_clean_up, seed_replicas, deploy_replicas, await_replica, serve_replica,
  connect_replicas, start_replicas,
}

-- What the seeding asks for, where reads and some other requests satisfy P.
module _ {W : Type 0} (E : Env W) (polls : PollsFairly E) (P : Request → Type 0)
    (reads : (q : Request) → is_read q ≡ true → P q) (h : Handle)
    (creates : (name key value : String) → P (create (config_map_object E h name key value)))
    (updates : (name key value : String) → P (update (config_map_object E h name key value)))
    (cleans : (name : String) → P (delete config_maps h.directory.namespace name))
    (jobs : (principal pvc : String) → P (create (seed_job E h principal pvc))) where
  Emits-create_config_map :
      (name key value : String) → Emits P (create_config_map E h name key value)
  unfolding create_config_map
  Emits-create_config_map name key value =
      Emits-bind P _ _ (Emits-settle P _ (Emits-ask E P _ (creates name key value))) λ made.
        Emits-answer P made _ _ (λ _. Emits-pure P tt)
          (λ e. Emits-if P _ _ _ (Emits-ask E P _ (updates name key value)) (Emits-raise P e))

  Emits-delete_config_map : (name : String) → Emits P (delete_config_map E h name)
  unfolding delete_config_map
  Emits-delete_config_map name = Emits-ask E P _ (cleans name)

  Emits-or_clean_up : (m : M W (Unit {0})) → Emits P m → Emits P (or_clean_up E h m)
  unfolding or_clean_up
  Emits-or_clean_up m hm = search (emits_rules, Emits-delete_config_map) depth 9

  Emits-seed_replica : (principal pvc : String) → Emits P (seed_replica E h principal pvc)
  unfolding seed_replica
  Emits-seed_replica principal pvc = Emits-ask E P _ (jobs principal pvc)

  pub Emits-seed_replicas :
      (principal : String) (added : List String) → Emits P (seed_replicas E h principal added)
  unfolding seed_replicas
  Emits-seed_replicas principal added =
      search
        (
          emits_rules,
          Emits-create_config_map,
          Emits-or_clean_up,
          Emits-seed_replica,
          Emits-wait_for_job E P reads polls,
          Emits-delete_config_map,
        )
        depth 12

-- How the new replicas are linked and served, where creations of services are free too.
module _ {W : Type 0} (E : Env W) (polls : PollsFairly E) (P : Request → Type 0)
    (reads : (q : Request) → is_read q ≡ true → P q)
    (execs : (ns pod : String) (command : List String) → P (exec ns pod command)) (h : Handle)
    (serves : (pod : String) (port : ℤ) (pvc : String)
      → P (create (cluster_service E h pod port pvc))) where
  pub Emits-create_cluster_service :
      (pod : String) (port : ℤ) (pvc : String) → Emits P (create_cluster_service E h pod port pvc)
  unfolding create_cluster_service
  Emits-create_cluster_service pod port pvc = Emits-ask E P _ (serves pod port pvc)

  Emits-create_replication_agreements :
      (principal pvc : String) (existing : Dict String)
      → Emits P (create_replication_agreements E h principal pvc existing)
  unfolding create_replication_agreements
  Emits-create_replication_agreements principal pvc existing =
      search (emits_rules, Emits-create_replication_agreement E P execs reads) depth 12

  Emits-await_replica : (entry : String × String) → Emits P (await_replica E h entry)
  unfolding await_replica
  Emits-await_replica entry =
      Emits-bind P _ _ (Emits-get_replica_set_pod_name E P reads h entry.1)
        λ pod. Emits-wait_for_pod E P reads polls h pod

  pub Emits-connect_replicas :
      (principal : String) (added : List String) (maps : Dict String × Dict String)
      → Emits P (connect_replicas E h principal added maps)
  unfolding connect_replicas serve_replica
  Emits-connect_replicas principal added maps = Emits-bind P _ _ (Emits-shuffled E P _) λ order.
      Emits-bind P _ _ (Emits-each P _ Emits-await_replica order) λ _.
        Emits-bind P _ _
          (Emits-each P _ (λ pvc. Emits-create_replication_agreements principal pvc maps.1) added)
          λ _. Emits-bind P _ _ (Emits-shuffled E P _) λ order'.
            Emits-bind P _ _
              (Emits-each P _ (λ entry. Emits-create_cluster_service entry.1 h.config.port entry.0)
                order')
              λ _. Emits-pure P maps.1

-- Everything after the seeding, where creations of replica sets are free too.
module _ {W : Type 0} (E : Env W) (polls : PollsFairly E) (P : Request → Type 0)
    (reads : (q : Request) → is_read q ≡ true → P q)
    (execs : (ns pod : String) (command : List String) → P (exec ns pod command)) (h : Handle)
    (sets : (pvc : String) → P (create (replica_object E h pvc)))
    (serves : (pod : String) (port : ℤ) (pvc : String)
      → P (create (cluster_service E h pod port pvc))) where
  Emits-deploy_replica : (pvc : String) → Emits P (deploy_replica E h pvc)
  unfolding deploy_replica
  Emits-deploy_replica pvc =
      search (emits_rules, sets, Emits-get_replica_set_pod_name E P reads) depth 9

  Emits-deploy_replicas :
      (added : List String) (pods existing : Dict String)
      → Emits P (deploy_replicas E h added pods existing)
  unfolding deploy_replicas
  Emits-deploy_replicas [] pods existing = Emits-pure P (pods, existing)
  Emits-deploy_replicas (pvc ∷ added) pods existing =
      Emits-bind P _ _ (Emits-deploy_replica pvc)
        λ pod. Emits-bind P _ _ (Emits-or_panic P _) λ name. Emits-deploy_replicas added _ _

  pub Emits-start_replicas :
      (principal : String) (added : List String) (existing : Dict String)
      → Emits P (start_replicas E h principal added existing)
  unfolding start_replicas
  Emits-start_replicas principal added existing =
      Emits-bind P _ _ (Emits-deploy_replicas added [] existing)
        λ maps. Emits-connect_replicas E polls P reads execs h serves principal added maps

  pub Emits-start_principal : (principal : String) → Emits P (start_principal E h principal)
  unfolding start_principal
  Emits-start_principal principal = Emits-bind P _ _ (Emits-deploy_replica principal) λ pod.
      Emits-bind P _ _ (Emits-or_panic P _) λ name.
        Emits-bind P _ _
          (Emits-create_cluster_service E polls P reads execs h serves name h.config.port principal)
          λ _. Emits-bind P _ _ (Emits-wait_for_pod E P reads polls h pod) λ _. Emits-pure P name

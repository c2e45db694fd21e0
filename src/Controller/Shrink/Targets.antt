-- ===== src/Controller/Shrink/Targets.antt =====
-- What deleteReplicas may ask of the API server.
use verify_directory_operato.Base.{◌≡◌, refl, true, String, List}
use verify_directory_operato.Base.Lists.{In, All-In_self}
use verify_directory_operato.Base.Dict.{Dict}
use verify_directory_operato.Names.{get_replica_pod_name}
use verify_directory_operato.Kube.{
  Env, Request, delete, create, update, update_deployment, patch, update_status,
}
use verify_directory_operato.Kube.Rules.{
  Emits, Emits-each-All, Emits-bind, Emits-shuffled, Emits-each, PollsFairly,
}
use verify_directory_operato.Controller.Handle.{Handle}
use verify_directory_operato.Controller.Pods.Requests.{
  is_read, emits_rules, Emits-get_replica_set_pod_name,
}
use verify_directory_operato.Controller.Replica.Requests.{
  Emits-delete_replica, Emits-delete_replication_agreement,
}
use verify_directory_operato.Controller.Shrink.{unlink, remove_replica, delete_replicas}

-- A request that changes nothing but the objects of the listed replicas: a deletion names one of
-- them, nothing is created or updated, and reads and commands are free.
abbrev pub Removes : Handle → List String → Request → Type 0
Removes h pvcs (delete kind ns name) =
    (ns ≡ h.directory.namespace)
    × ((pvc : String) × In pvc pvcs × (name ≡ get_replica_pod_name h.directory pvc))
Removes h pvcs (create o) = ⊥
Removes h pvcs (update o) = ⊥
Removes h pvcs (update_deployment o) = ⊥
Removes h pvcs (patch o) = ⊥
Removes h pvcs (update_status d) = ⊥
Removes h pvcs _ = Unit {0}

Removes-is_read :
    (h : Handle) (pvcs : List String) (q : Request) → is_read q ≡ true → Removes h pvcs q
Removes-is_read h pvcs (delete kind ns name) e = absurd (cc)
Removes-is_read h pvcs (create o) e = absurd (cc)
Removes-is_read h pvcs (update o) e = absurd (cc)
Removes-is_read h pvcs (update_deployment o) e = absurd (cc)
Removes-is_read h pvcs (patch o) e = absurd (cc)
Removes-is_read h pvcs (update_status d) e = absurd (cc)
Removes-is_read h pvcs _ e = tt

module _ {W : Type 0} (E : Env W) (polls : PollsFairly E) (h : Handle) (pvcs : List String) where
  Emits-unlink :
      (pod id : String) (entry : String × String)
      → Emits (Removes h pvcs) (unlink E h pvcs pod id entry)
  unfolding unlink
  Emits-unlink pod id entry =
      search (emits_rules, Emits-delete_replication_agreement E (Removes h pvcs) (λ _ _ _. tt))
        depth 9

  Emits-remove_replica :
      (existing : Dict String) (pvc : String)
      → In pvc pvcs
      → Emits (Removes h pvcs) (remove_replica E h existing pvcs pvc)
  unfolding remove_replica
  Emits-remove_replica existing pvc i =
      let reads = Removes-is_read h pvcs in
      Emits-bind (Removes h pvcs) _ _ (Emits-get_replica_set_pod_name E (Removes h pvcs) reads h _)
        λ pod. Emits-bind (Removes h pvcs) _ _ (Emits-shuffled E (Removes h pvcs) existing) λ order.
          Emits-bind (Removes h pvcs) _ _ (Emits-each (Removes h pvcs) _ (Emits-unlink pod _) order)
            λ _.
              Emits-delete_replica E (Removes h pvcs) polls reads h pvc
                (λ _. (refl, (pvc, i, refl)))

-- Whatever the answers, deleteReplicas creates and updates nothing, and every object that it asks
-- to delete is named for one of the replicas that are to be deleted.
pub delete_replicas-Removes :
    {W : Type 0} (E : Env W)
    → PollsFairly E
    → (h : Handle) (existing : Dict String) (to_be_deleted : List String)
    → Emits (Removes h to_be_deleted) (delete_replicas E h existing to_be_deleted)
unfolding delete_replicas
delete_replicas-Removes E polls h existing to_be_deleted =
    Emits-each-All (Removes h to_be_deleted) (λ pvc. In pvc to_be_deleted) _
      (Emits-remove_replica E polls h to_be_deleted existing) to_be_deleted
      (All-In_self to_be_deleted)

-- ===== src/Controller/Standing/Shrunk.antt =====
-- What deleteReplicas leaves asked for.
use mathlib.Core.List.{foldl}
use verify_directory_operato.Base.{
  ◌≡◌, refl, ◌∙◌, Bool, true, false, not, ◌&&◌, String, List, [], ◌∷◌, arith,
}
use verify_directory_operato.Base.Dict.{Dict}
use verify_directory_operato.Names.{get_replica_pod_name}
use verify_directory_operato.Kube.{Env, Request, delete, services, replica_sets, Kind, ask}
use verify_directory_operato.Kube.Rules.{
  Emits, Emits-if, Emits-pure, Emits-each, Emits-shuffled, PollsFairly,
}
use verify_directory_operato.Kube.Endings.{ask-trace}
use verify_directory_operato.Kube.Ensures.{
  Ensures, Ensures-mono, Ensures-then, Ensures-quiet, Ensures-quiet_then, Ensures-each,
  Ensures-request,
}
use verify_directory_operato.Controller.Handle.{Handle}
use verify_directory_operato.Controller.Pods.Requests.{
  is_read, Emits-get_replica_set_pod_name, Emits-is_pod_op_complete,
}
use verify_directory_operato.Controller.Replica.{delete_replica, unless_missing}
use verify_directory_operato.Controller.Replica.Requests.{Emits-delete_replication_agreement}
use verify_directory_operato.Controller.Replica.Traces.{unless_missing-trace}
use verify_directory_operato.Controller.Shrink.{unlink, remove_replica, delete_replicas}
use verify_directory_operato.Controller.Standing.{
  standing, Quiet, same_replica, any_same, standing-is_read, standing-delete,
}

module _ {W : Type 0} (E : Env W) (polls : PollsFairly E) (h : Handle) (k : String) where
  unless_missing-Ensures :
      (s : Bool) (kind : Kind) (ns name : String)
      → Ensures
          (standing h.directory k)
          s
          (λ _ t. t ≡ standing h.directory k s (delete kind ns name))
          (unless_missing E (ask E (delete kind ns name)))
  unless_missing-Ensures s kind ns name =
      Ensures-request _ s (delete kind ns name) _
        (λ w. unless_missing-trace E _ w ∙ ask-trace E (delete kind ns name) w)

  -- The replica's own replica set is gone, and every other is as it was.
  pub delete_replica-Ensures :
      (s : Bool) (pvc : String)
      → Ensures
          (standing h.directory k)
          s
          (λ _ t. t ≡ (s && not (same_replica h.directory k pvc)))
          (delete_replica E h pvc)
  unfolding delete_replica
  delete_replica-Ensures s pvc =
      let pod = get_replica_pod_name h.directory pvc in
      let left : Bool = s && not (same_replica h.directory k pvc) in
      Ensures-quiet_then _ s _ _ _
        (Emits-get_replica_set_pod_name E (Quiet h.directory k s) (reads s) h pod)
        λ name.
          Ensures-then _ s s _ _ _ (unless_missing-Ensures s services h.directory.namespace pod)
            λ _. Ensures-then _ s left _ _ _ stops λ _. Ensures-quiet _ left _ (
              polls.emits (Quiet h.directory k left) 1 300 _
                (Emits-is_pod_op_complete E (Quiet h.directory k left) (reads left) h name false))
    where
      reads : (s : Bool) (q : Request) → is_read q ≡ true → standing h.directory k s q ≡ s
      reads = standing-is_read h.directory k

      stops :
          Ensures
            (standing h.directory k)
            s
            (λ _ t. t ≡ (s && not (same_replica h.directory k pvc)))
            (unless_missing E (
              ask E
                (delete replica_sets h.directory.namespace (get_replica_pod_name h.directory pvc))))
      stops =
          Ensures-mono _ s _ _ _ (λ _ t e. e ∙ standing-delete h.directory k s pvc)
            (unless_missing-Ensures s replica_sets h.directory.namespace
              (get_replica_pod_name h.directory pvc))

  Emits-unlink :
      (s : Bool) (deleted : List String) (pod id : String) (entry : String × String)
      → Emits (Quiet h.directory k s) (unlink E h deleted pod id entry)
  unfolding unlink
  Emits-unlink s deleted pod id entry =
      let P = Quiet h.directory k s in
      Emits-if P _ _ _ (Emits-pure P tt)
        (Emits-delete_replication_agreement E P (λ _ _ _. refl) h pod id)

  remove_replica-Ensures :
      (existing : Dict String) (deleted : List String) (s : Bool) (pvc : String)
      → Ensures
          (standing h.directory k)
          s
          (λ _ t. t ≡ (s && not (same_replica h.directory k pvc)))
          (remove_replica E h existing deleted pvc)
  unfolding remove_replica
  remove_replica-Ensures existing deleted s pvc =
      let P = Quiet h.directory k s in
      Ensures-quiet_then _ s _ _ _
        (Emits-get_replica_set_pod_name E P (standing-is_read h.directory k s) h _)
        λ pod. Ensures-quiet_then _ s _ _ _ (Emits-shuffled E P existing) λ order.
          Ensures-quiet_then _ s _ _ _ (Emits-each P _ (Emits-unlink s deleted pod _) order)
            λ _. delete_replica-Ensures s pvc

  foldl-any_same :
      (s : Bool) (pvcs : List String)
      → foldl (λ t pvc. t && not (same_replica h.directory k pvc)) s pvcs
        ≡ (s && not (any_same h.directory k pvcs))
  foldl-any_same s [] = ground arith
  foldl-any_same s (pvc ∷ pvcs) =
      ground (arith, foldl-any_same (s && not (same_replica h.directory k pvc)) pvcs)

  -- The replica sets of the listed replicas are gone, and every other is as it was.
  pub delete_replicas-Ensures :
      (existing : Dict String) (deleted : List String) (s : Bool)
      → Ensures
          (standing h.directory k)
          s
          (λ _ t. t ≡ (s && not (any_same h.directory k deleted)))
          (delete_replicas E h existing deleted)
  unfolding delete_replicas
  delete_replicas-Ensures existing deleted s =
      Ensures-mono _ s _ _ _ (λ _ t e. e ∙ foldl-any_same s deleted)
        (Ensures-each _ (λ t pvc. t && not (same_replica h.directory k pvc)) _
          (remove_replica-Ensures existing deleted) s deleted)

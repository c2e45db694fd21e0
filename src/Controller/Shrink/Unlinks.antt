-- ===== src/Controller/Shrink/Unlinks.antt =====
-- On which pod deleteReplicas runs the commands that remove replication agreements.
use verify_directory_operato.Base.{
  ◌≡◌, refl, ℕ, zero, suc, String, List, [], ◌∷◌, ◌++◌, arith, if◌then◌else◌, Bool-cases, inl, inr,
}
use verify_directory_operato.Base.Lists.{repeat}
use verify_directory_operato.Base.Dict.{Dict, contains}
use verify_directory_operato.Kube.{Env, ok, Request, exec, each, shuffled, pure, settle, ask, ◌>>=◌}
use verify_directory_operato.Kube.Rules.{bind-ok, bind-run}
use verify_directory_operato.Controller.Handle.{Handle}
use verify_directory_operato.Names.{get_replica_pod_name}
use verify_directory_operato.Controller.Pods.{get_replica_set_pod_name}
use verify_directory_operato.Controller.Objects.{execute_command}
use verify_directory_operato.Controller.Replica.{delete_replica, delete_replication_agreement}
use verify_directory_operato.Controller.Shrink.{unlink, remove_replica}

-- How many of the replicas stay.
abbrev pub staying : List String → Dict String → ℕ
staying to_be_deleted [] = zero
staying to_be_deleted ((pvc, name) ∷ existing) =
    let rest = staying to_be_deleted existing in
    if contains pvc to_be_deleted then rest else suc rest

-- The command that removes the agreement to the replica of that id, on a pod.
abbrev pub removal : Handle → String → String → Request
removal h pod id = exec h.directory.namespace pod ("isvd_manage_replica" ∷ "-r" ∷ "-i" ∷ id ∷ [])

module _ {W : Type 0} (E : Env W) (h : Handle) (to_be_deleted : List String) (pod id : String) where
  agreement_run :
      (w : W)
      → ((delete_replication_agreement E h pod id w).outcome ≡ ok tt)
        × ((delete_replication_agreement E h pod id w).trace
            ≡ exec h.directory.namespace pod ("isvd_manage_replica" ∷ "-r" ∷ "-i" ∷ id ∷ []) ∷ [])
  unfolding delete_replication_agreement execute_command ◌>>=◌ settle ask
  agreement_run w = (ground arith, ground arith)

  unlink_run :
      (entry : String × String) (w : W)
      → ((unlink E h to_be_deleted pod id entry w).outcome ≡ ok tt)
        × ((unlink E h to_be_deleted pod id entry w).trace
            ≡ repeat (staying to_be_deleted (entry ∷ [])) (removal h pod id))
  unfolding unlink pure
  unlink_run entry w = elim (Bool-cases (contains entry.0 to_be_deleted)) [
    | inl gone ↦ rw (gone, unlink) (refl, refl)
    | inr stays ↦ rw (stays, unlink) (agreement_run w)
  ]

  staying-cons :
      (entry : String × String) (existing : Dict String)
      → repeat (staying to_be_deleted (entry ∷ [])) (removal h pod id)
          ++ repeat (staying to_be_deleted existing) (removal h pod id)
        ≡ repeat (staying to_be_deleted (entry ∷ existing)) (removal h pod id)
  staying-cons entry existing = elim (Bool-cases (contains entry.0 to_be_deleted)) [
    | inl gone ↦ rw (gone) refl
    | inr stays ↦ rw (stays) refl
  ]

  unlinks_run :
      (existing : Dict String) (w : W)
      → ((each (unlink E h to_be_deleted pod id) existing w).outcome ≡ ok tt)
        × ((each (unlink E h to_be_deleted pod id) existing w).trace
            ≡ repeat (staying to_be_deleted existing) (removal h pod id))
  unfolding each pure
  unlinks_run [] w = (refl, refl)
  unlinks_run (entry ∷ existing) w =
      let first = unlink_run entry w in
      let rest = unlinks_run existing (unlink E h to_be_deleted pod id entry w).after in
      rw (bind-ok (unlink E h to_be_deleted pod id entry) _ w tt first.0)
        (rest.0, rw (first.1, rest.1) (staying-cons entry existing))

module _ {W : Type 0} (E : Env W) (h : Handle) where
  -- Let the pod of the replica that goes be found. Then deleteReplicas asks, for this replica, for
  -- the removal of the agreement to that very replica as often as the range over the existing
  -- replicas meets one that stays, each time on the pod of the replica that goes. It makes no request
  -- between this, the lookup before it and the deletion of the replica behind it.
  pub remove_replica-repeat :
      (existing : Dict String) (to_be_deleted : List String) (pvc pod : String) (w : W)
      → let id = get_replica_pod_name h.directory pvc in
        let lookup = get_replica_set_pod_name E h id w in
        (lookup.outcome ≡ ok pod)
        → (after : W) × ((remove_replica E h existing to_be_deleted pvc w).trace
            ≡ lookup.trace
              ++ (repeat
                    (staying to_be_deleted (E.shuffle existing lookup.after).0)
                    (removal h pod id)
                  ++ (delete_replica E h pvc after).trace))
  unfolding remove_replica shuffled
  remove_replica-repeat existing to_be_deleted pvc pod w found =
      let id = get_replica_pod_name h.directory pvc in
      let order = E.shuffle existing (get_replica_set_pod_name E h id w).after in
      let (returned, asked) = unlinks_run E h to_be_deleted pod id order.0 order.1 in
      (
        (each (unlink E h to_be_deleted pod id) order.0 order.1).after,
        rw
            (
              bind-ok (get_replica_set_pod_name E h id) _ w pod found,
              bind-run (shuffled E existing) _ _ order.0 order.1 [] refl,
              bind-ok (each (unlink E h to_be_deleted pod id) order.0) _ order.1 tt returned,
              asked,
            )
            refl,
      )

-- ===== src/Controller/Converged.antt =====
-- A whole run of Reconcile, against the document, whatever the API server answers.
use verify_directory_operato.Base.{
  ◌≡◌, ◌≢◌, ◌⊎◌, inl, inr, refl, ap, ◌∙◌, Bool, true, false, String, some, List, [], ◌∷◌, ◌++◌,
}
use verify_directory_operato.Base.Lists.{All}
use verify_directory_operato.Base.Dict.{Dict, has, contains, keys}
use verify_directory_operato.Api.{Directory}
use verify_directory_operato.Names.{labels_for_replica, get_replica_pod_name}
use verify_directory_operato.Names.Injective.{IsLower}
use verify_directory_operato.Kube.{
  Env, Outcome, ok, fail, panic, Answer, granted, refused, ReplicaSet, Pod, Request, get_directory,
  list_pods, update_status, ask, settle, pure, ◌>>=◌,
}
use verify_directory_operato.Kube.Rules.{
  PollsFairly, RangesOverKeys, Emits, Emits-ask, Emits-bind, Emits-pure, Emits-settle, bind-run,
  settle-ok, settle-trace, settle-ask-granted, settle-ask-refused,
}
use verify_directory_operato.Kube.Ensures.{replay, replay-append, replay-next}
use verify_directory_operato.Kube.Endings.{EndsWith, EndsWith-append}
use verify_directory_operato.Controller.Handle.{Handle}
use verify_directory_operato.Controller.Status.{ConditionApi, IsLawful, in_progress, set_condition}
use verify_directory_operato.Controller.Proxy.{Codec}
use verify_directory_operato.Controller.Reconcile.{
  pods_by_pvc, no_config, analyse_existing_pods, apply_changes, conclude, progress, reconcile,
}
use verify_directory_operato.Controller.Reconcile.Outcome.{Reports, succeeded, progress-Reports}
use verify_directory_operato.Controller.Reconcile.Run.{analysis-run, reconcile-run}
use verify_directory_operato.Controller.Standing.{standing, Quiet}
use verify_directory_operato.Controller.Standing.Whole.{
  Analysed, analyse_existing_pods-Analysed, reconciled-Ensures,
}

panic-cases : {A : Type 0} (o : Outcome A) → (o ≡ panic) ⊎ (o ≢ panic)
panic-cases (ok a) = inr (λ e. cc)
panic-cases (fail x) = inr (λ e. cc)
panic-cases panic = inl refl

-- An update of the status is answered with the document that was sent.
abbrev pub Echoes : {W : Type 0} → Env W → Type 0
Echoes {W} E = (d d' : Directory) (w : W) → (E.answer (update_status d) w).0 ≡ granted d' → d' ≡ d

-- The document with its condition InProgress true.
abbrev pub started : ConditionApi → Directory → Directory
started api d = record d { conditions = api.set d.conditions in_progress }

module _ {W : Type 0} (E : Env W) (echoes : Echoes E) (polls : PollsFairly E)
    (fair : RangesOverKeys E) (api : ConditionApi) (law : IsLawful api) (codec : Codec)
    (same_spec : ReplicaSet → ReplicaSet → Bool) where
  Emits-status :
      (P : Request → Type 0) (d : Directory)
      → P (update_status d)
      → Emits {W = W} P (settle (ask E (update_status d) >>= λ _. pure tt) >>= λ _. pure tt)
  Emits-status P d p =
      Emits-bind P _ _
        (Emits-settle P _
          (Emits-bind P _ _ (Emits-ask E P (update_status d) p) (λ _. Emits-pure P tt)))
        (λ _. Emits-pure P tt)

  Emits-conclude :
      (h : Handle) (k : String) (s : Bool) (r : Answer (Unit {0}))
      → Emits (Quiet h.directory k s) (conclude E api codec same_spec h r)
  unfolding conclude set_condition
  Emits-conclude h k s (granted _) = Emits-status (Quiet h.directory k s) _ refl
  Emits-conclude h k s (refused e) = Emits-status (Quiet h.directory k s) _ refl

  module _ (h : Handle) (existing : Dict String) (k : String) where
    -- What became of the document: nothing was asked for but the update to a document in progress;
    -- or the replica set of k is asked for as the document says, and the document was reported as
    -- available; or it was reported as not available.
    abbrev pub Settled : List Request → List Request → Type 0
    Settled reads trace =
        (trace ≡ reads ++ (update_status (started api h.directory) ∷ []))
        ⊎ (((replay (standing h.directory k) (has k existing) trace
                ≡ contains k h.directory.spec.pvcs)
              × EndsWith (Reports api true) trace)
            ⊎ EndsWith (Reports api false) trace)

    Settled-after :
        (reads trace : List Request)
        → replay (standing h.directory k) (has k existing) reads ≡ has k existing
        → Settled [] trace
        → Settled reads (reads ++ trace)
    Settled-after reads trace e (inl only) = inl (ap (λ t. reads ++ t) only)
    Settled-after reads trace e (inr (inl (stands, ends))) = inr (
        inl (
          replay-append (standing h.directory k) (has k existing) reads trace
              ∙ ap (λ s. replay (standing h.directory k) s trace) e
              ∙ stands,
          EndsWith-append _ reads trace ends,
        ))
    Settled-after reads trace e (inr (inr ends)) = inr (inr (EndsWith-append _ reads trace ends))

    module _ (hk : IsLower k) (old : All IsLower (keys existing))
        (new : All IsLower h.directory.spec.pvcs) where
      changed-standing :
          (changes : List String × List String) (w : W)
          → Analysed E polls fair api codec same_spec h existing changes
          → let begun : Handle = record h { directory = started api h.directory } in
            let changed = apply_changes E api codec same_spec begun existing changes in
            (changed w).outcome ≡ ok tt
            → replay
                (standing h.directory k)
                (has k existing)
                ((settle changed >>= conclude E api codec same_spec begun) w).trace
              ≡ contains k h.directory.spec.pvcs
      unfolding get_replica_pod_name Analysed
      changed-standing changes w facts e =
          let begun : Handle = record h { directory = started api h.directory } in
          let changed = apply_changes E api codec same_spec begun existing changes in
          replay-next (standing h.directory k) (has k existing) (contains k h.directory.spec.pvcs)
            (settle changed) _ w (granted tt) (settle-ok changed w tt e)
            (ap (replay (standing h.directory k) (has k existing)) (settle-trace changed w)
              ∙ (reconciled-Ensures E polls fair api codec same_spec begun existing k hk old new
                    changes facts).at
                  w tt e)
            ((Emits-conclude begun k (contains k h.directory.spec.pvcs) (granted tt)).at _)

      progress-Settled :
          (changes : List String × List String) (w : W)
          → Analysed E polls fair api codec same_spec h existing changes
          → (progress E api codec same_spec h existing changes w).outcome ≢ panic
          → Settled [] (progress E api codec same_spec h existing changes w).trace
      unfolding progress get_replica_pod_name pure
      progress-Settled changes w facts live =
          answered (E.answer (update_status (started api h.directory)) w).0 refl
        where
          after : W
          after = (E.answer (update_status (started api h.directory)) w).1

          begun : Handle
          begun = record h { directory = started api h.directory }

          concluded :
              (o : Outcome (Unit {0}))
              → (apply_changes E api codec same_spec begun existing changes after).outcome ≡ o
              → (E.answer (update_status (started api h.directory)) w).0
                ≡ granted (started api h.directory)
              → EndsWith
                  (Reports api (succeeded o))
                  (progress E api codec same_spec h existing changes w).trace
              → Settled [] (progress E api codec same_spec h existing changes w).trace
          concluded (ok _) e u ends = inr (
              inl (
                rw (settle-ask-granted E (update_status (started api h.directory)) _ w _ u)
                    (changed-standing changes after facts e),
                ends,
              ))
          concluded (fail x) e u ends = inr (inr ends)
          concluded panic e u ends = inr (inr ends)

          answered :
              (r : Answer Directory)
              → (E.answer (update_status (started api h.directory)) w).0 ≡ r
              → Settled [] (progress E api codec same_spec h existing changes w).trace
          answered (refused x) e = inl (
              ap (λ r. r.trace)
                (settle-ask-refused E (update_status (started api h.directory)) _ w x e))
          answered (granted d) e =
              let u = e ∙ ap granted (echoes _ d w e) in
              concluded _ refl u
                (progress-Reports E api codec same_spec law h existing changes w _ u live)

  -- Let an update of the status that is granted be answered with the document that was sent. Let a
  -- document be read that is not failing. Let k, the PVCs of the listed pods and the PVCs of the
  -- document be in lower case, as Kubernetes names are, and let the replica set of k be asked for
  -- at the start exactly when a pod of k is listed. Every run of Reconcile then panics, or is of one
  -- of three kinds. Behind its two reads it asks only for the update of the status to the document
  -- in progress; or the last request about the replica set of k, if there is any, leaves it asked
  -- for exactly when the document names k, and the last request of all updates the status to a
  -- document that is no longer in progress and is available; or that last request updates it to one
  -- that is no longer in progress and is not available.
  pub reconcile-standing :
      (namespace name k : String) (d : Directory) (pods : List Pod) (existing : Dict String) (w : W)
      → let h : Handle = record {
        req_namespace = namespace;
        req_name = name;
        directory = d;
        config = no_config;
      } in
        let found = E.answer (get_directory namespace name) w in
        let listing = list_pods namespace (labels_for_replica name "") in
        let run = reconcile E api codec same_spec namespace name w in
        (found.0 ≡ granted d)
        → api.is_false d.conditions "Available" ≡ false
        → (E.answer listing found.1).0 ≡ granted pods
        → pods_by_pvc pods [] ≡ some existing
        → IsLower k
        → All IsLower (keys existing)
        → All IsLower d.spec.pvcs
        → (run.outcome ≡ panic)
          ⊎ Settled h existing k (get_directory namespace name ∷ listing ∷ []) run.trace
  reconcile-standing namespace name k d pods existing w read fresh listed grouped hk old new =
      let h : Handle = record {
        req_namespace = namespace;
        req_name = name;
        directory = d;
        config = no_config;
      } in
      let reads : List Request =
        get_directory namespace name ∷ list_pods namespace (labels_for_replica name "") ∷ [] in
      let listing = list_pods namespace (labels_for_replica name "") in
      let w2 : W = (E.answer listing (E.answer (get_directory namespace name) w).1).1 in
      let (changes, after, analysed) = analysis-run E api codec same_spec h existing w2 in
      let facts =
        (analyse_existing_pods-Analysed E polls fair api codec same_spec h existing).at w2 changes
          (ap (λ r. r.outcome) analysed) in
      rw
        (
          reconcile-run E api codec same_spec h pods existing w read refl fresh listed grouped,
          bind-run (analyse_existing_pods E h existing) (progress E api codec same_spec h existing)
              w2 changes after [] analysed,
        )
        (elim (panic-cases (progress E api codec same_spec h existing changes after).outcome) [
          | inl panicked ↦ inl panicked
          | inr live ↦ inr (
              Settled-after h existing k reads _ refl
                (progress-Settled h existing k hk old new changes after facts live))
        ])

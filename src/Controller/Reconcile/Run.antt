-- ===== src/Controller/Reconcile/Run.antt =====
-- The run of Reconcile up to its first update of the status.
use verify_directory_operato.Base.{◌≡◌, refl, Bool, false, String, some, List, [], ◌∷◌}
use verify_directory_operato.Base.Dict.{Dict}
use verify_directory_operato.Names.{labels_for_replica}
use verify_directory_operato.Kube.{
  Env, ok, granted, ReplicaSet, Pod, get_directory, list_pods, shuffled, pure, then_run, ◌>>=◌,
}
use verify_directory_operato.Kube.Rules.{ask-granted, bind-run, settle-ask-granted, settle-run}
use verify_directory_operato.Controller.Handle.{Handle}
use verify_directory_operato.Controller.Status.{ConditionApi}
use verify_directory_operato.Controller.Proxy.{Codec}
use verify_directory_operato.Controller.Reconcile.{
  pods_by_pvc, no_config, get_existing_pods, analyse_existing_pods, progress, reconcile_document,
  reconcile,
}

module _ {W : Type 0} (E : Env W) (api : ConditionApi) (codec : Codec)
    (same_spec : ReplicaSet → ReplicaSet → Bool) where
  pub analysis-run :
      (h : Handle) (existing : Dict String) (w : W)
      → (changes : List String × List String) × (after : W) × (analyse_existing_pods E h existing w
          ≡ record { outcome = ok changes; after = after; trace = [] })
  unfolding analyse_existing_pods shuffled ◌>>=◌ pure
  analysis-run h existing w = (_, _, refl)

  get_existing_pods-run :
      (h : Handle) (pods : List Pod) (existing : Dict String) (w : W)
      → let listing = list_pods h.req_namespace (labels_for_replica h.req_name "") in
        ((E.answer listing w).0 ≡ granted pods)
        → pods_by_pvc pods [] ≡ some existing
        → get_existing_pods E h w
          ≡ record { outcome = ok existing; after = (E.answer listing w).1; trace = listing ∷ [] }
  unfolding get_existing_pods pure
  get_existing_pods-run h pods existing w listed grouped =
      rw
        (
          bind-run _ _ w pods _ _ (
              ask-granted E (list_pods h.req_namespace (labels_for_replica h.req_name "")) w pods
                listed),
          grouped,
        )
        refl

  -- The run of Reconcile up to the analysis.
  pub reconcile-run :
      (h : Handle) (pods : List Pod) (existing : Dict String) (w : W)
      → let found = E.answer (get_directory h.req_namespace h.req_name) w in
        let listing = list_pods h.req_namespace (labels_for_replica h.req_name "") in
        (found.0 ≡ granted h.directory)
        → h.config ≡ no_config
        → api.is_false h.directory.conditions "Available" ≡ false
        → (E.answer listing found.1).0 ≡ granted pods
        → pods_by_pvc pods [] ≡ some existing
        → reconcile E api codec same_spec h.req_namespace h.req_name w
          ≡ then_run (get_directory h.req_namespace h.req_name ∷ listing ∷ []) (
              (analyse_existing_pods E h existing >>= progress E api codec same_spec h existing)
                (E.answer listing found.1).1)
  unfolding reconcile reconcile_document
  reconcile-run h pods existing w read plain fresh listed grouped =
      rw
        (
          settle-ask-granted E (get_directory h.req_namespace h.req_name) _ w h.directory read,
          fresh,
          plain,
          settle-run (get_existing_pods E (record h { config = no_config })) _ _ existing _ _ (
              get_existing_pods-run (record h { config = no_config }) pods existing _ listed
                grouped),
        )
        refl

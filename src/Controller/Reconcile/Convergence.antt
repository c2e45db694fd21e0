-- ===== src/Controller/Reconcile/Convergence.antt =====
-- The replicas that a reconciliation leaves, against the document.
use verify_directory_operato.Base.{◌≡◌, Bool, not, ◌&&◌, String, List, [], ◌∷◌, arith}
use verify_directory_operato.Base.Dict.{Dict, has, contains}
use verify_directory_operato.Kube.{Env, ReplicaSet, pure, ◌>>=◌}
use verify_directory_operato.Kube.Rules.{Returns, Returns-pure, Returns-bind, RangesOverKeys}
use verify_directory_operato.Controller.Handle.{Handle}
use verify_directory_operato.Controller.Status.{ConditionApi}
use verify_directory_operato.Controller.Proxy.{Codec}
use verify_directory_operato.Controller.Grow.Members.{Extends, create_replicas-Extends}
use verify_directory_operato.Controller.Reconcile.{analyse_existing_pods, add_replicas}
use verify_directory_operato.Controller.Reconcile.Analysis.{analyse_existing_pods-Returns}

-- Of a map of replicas and the replicas that are then deleted: the key is that of a replica that
-- stays exactly when the document names it.
abbrev pub Converges : Handle → String → Dict String × List String → Type 0
Converges h k (replicas, deleted) =
    (has k replicas && not (contains k deleted)) ≡ contains k h.directory.spec.pvcs

module _ {W : Type 0} (E : Env W) (api : ConditionApi) (codec : Codec)
    (same_spec : ReplicaSet → ReplicaSet → Bool) where
  add_replicas-Extends :
      (h : Handle) (existing : Dict String) (deleted added : List String)
      → Returns
          (Extends existing added)
          (add_replicas E api codec same_spec h existing (deleted, added))
  unfolding add_replicas
  add_replicas-Extends h existing [] [] = Returns-pure _ _ (λ k. unfold contains in ground arith)
  add_replicas-Extends h existing [] (pvc ∷ added) =
      create_replicas-Extends E h existing (pvc ∷ added)
  add_replicas-Extends h existing (gone ∷ deleted) added =
      create_replicas-Extends E h existing added

  -- Whenever the analysis of the existing replicas and the creation of the missing ones return
  -- without an error, the replicas that are then left, once those to be deleted are gone, are
  -- exactly those of the document.
  pub replicas-Converge :
      RangesOverKeys E
      → (h : Handle) (existing : Dict String) (k : String)
      → Returns (Converges h k) (
          analyse_existing_pods E h existing >>= λ changes.
          add_replicas E api codec same_spec h existing changes >>= λ after.
          pure (after, changes.0))
  replicas-Converge fair h existing k =
      Returns-bind _ _ _ _ (analyse_existing_pods-Returns E fair h existing k) λ changes facts.
        Returns-bind _ _ _ _ (add_replicas-Extends h existing changes.0 changes.1)
          λ after keys. Returns-pure _ _ (ground (arith, keys k, facts))

-- ===== src/Controller/Standing/Whole.antt =====
-- What a reconciliation leaves asked for, against the document.
use verify_directory_operato.Base.{
  ◌≡◌, refl, sym, ◌∙◌, ap, subst, Bool, true, not, ◌&&◌, ◌||◌, String, List, [], ◌∷◌, arith, ◌==◌,
  eq_iff, Bool-cases, inl, inr,
}
use verify_directory_operato.Base.Lists.{All}
use verify_directory_operato.Base.Dict.{Dict, has, contains, keys, All-contains}
use verify_directory_operato.Api.{Directory}
use verify_directory_operato.Names.{get_replica_pod_name}
use verify_directory_operato.Names.Injective.{IsLower, get_replica_pod_name_inj}
use verify_directory_operato.Kube.{
  Env, Request, ReplicaSet, create, delete, replica_set, config_map, deployment, service, job,
  ◌>>=◌,
}
use verify_directory_operato.Kube.Rules.{
  Emits-bind, Emits-pure, Emits-shuffled, PollsFairly, RangesOverKeys, Returns,
}
use verify_directory_operato.Kube.Ensures.{
  Ensures, Ensures-from, Ensures-mono, Ensures-quiet_then, Ensures-bind, Ensures-Emits,
  Ensures-pure, Ensures-then,
}
use verify_directory_operato.Controller.Handle.{Handle}
use verify_directory_operato.Controller.Status.{ConditionApi}
use verify_directory_operato.Controller.Proxy.{Codec, deploy_proxy}
use verify_directory_operato.Controller.Proxy.Requests.{is_proxied, Emits-deploy_proxy}
use verify_directory_operato.Controller.Shrink.{delete_replicas}
use verify_directory_operato.Controller.ServerConfig.Requests.{
  Emits-get_server_config, get_server_config-Returns,
}
use verify_directory_operato.Controller.Reconcile.{
  analyse_existing_pods, add_replicas, apply_changes,
}
use verify_directory_operato.Controller.Reconcile.Analysis.{analyse_existing_pods-Returns}
use verify_directory_operato.Controller.Standing.{standing, Quiet, same_replica, standing-is_read}
use verify_directory_operato.Controller.Standing.Grown.{any_same-contains, create_replicas-Ensures}
use verify_directory_operato.Controller.Standing.Shrunk.{delete_replicas-Ensures}

-- A PVC shares its replica set's name with no other one that is in lower case.
same_replica-IsLower :
    (d : Directory) (k p : String) → IsLower k → IsLower p → same_replica d k p ≡ (p == k)
same_replica-IsLower d k p hk hp = elim (Bool-cases (same_replica d k p)) [
  | inl same ↦
      let e : p ≡ k = get_replica_pod_name_inj d p k hp hk ((eq_iff _ _).0 same) in
      same ∙ sym ((eq_iff p k).1 e)
  | inr other ↦
      ground
        (arith, other, eq_iff p k, eq_iff (get_replica_pod_name d p) (get_replica_pod_name d k))
]

has-keys : {V : Type 0} (m : Dict V) (p : String) → has p m ≡ contains p (keys m)
unfolding has contains
has-keys [] p = refl
has-keys ((j, v) ∷ m) p = ground (arith, has-keys m p)

is_proxied-Quiet :
    (d : Directory) (k : String) (s : Bool) (q : Request) → is_proxied q ≡ true → Quiet d k s q
is_proxied-Quiet d k s (create (replica_set rs)) e = absurd (cc)
is_proxied-Quiet d k s (create (config_map c)) e = refl
is_proxied-Quiet d k s (create (deployment c)) e = refl
is_proxied-Quiet d k s (create (service c)) e = refl
is_proxied-Quiet d k s (create (job j)) e = refl
is_proxied-Quiet d k s (delete kind ns name) e = absurd (cc)
is_proxied-Quiet d k s _ e = refl

module _ {W : Type 0} (E : Env W) (polls : PollsFairly E) (fair : RangesOverKeys E)
    (api : ConditionApi) (codec : Codec) (same_spec : ReplicaSet → ReplicaSet → Bool) where
  add_replicas-Ensures :
      (h : Handle) (k : String) (existing : Dict String) (deleted added : List String)
      → ((p : String)
          → (has p existing || contains p added) ≡ true
          → same_replica h.directory k p ≡ (p == k))
      → Ensures
          (standing h.directory k)
          (has k existing)
          (λ _ t. t ≡ (has k existing || contains k added))
          (add_replicas E api codec same_spec h existing (deleted, added))
  unfolding add_replicas
  add_replicas-Ensures h k existing [] [] apart =
      Ensures-pure _ _ _ existing (unfold contains in ground arith)
  add_replicas-Ensures h k existing [] (pvc ∷ added) apart =
      create_replicas-Ensures E polls fair h k existing (pvc ∷ added) apart
  add_replicas-Ensures h k existing (gone ∷ deleted) added apart =
      create_replicas-Ensures E polls fair h k existing added apart

  -- Everything behind the reading of the configuration.
  changes-Ensures :
      (h : Handle) (k : String) (existing : Dict String) (deleted added : List String)
      → ((p : String)
          → (has p existing || contains p added) ≡ true
          → same_replica h.directory k p ≡ (p == k))
      → ((p : String) → contains p deleted ≡ true → same_replica h.directory k p ≡ (p == k))
      → Ensures
          (standing h.directory k)
          (has k existing)
          (λ _ t. t ≡ ((has k existing || contains k added) && not (contains k deleted)))
          (add_replicas E api codec same_spec h existing (deleted, added) >>= λ replicas.
            deploy_proxy E codec same_spec h >>= λ _. delete_replicas E h replicas deleted)
  changes-Ensures h k existing deleted added apart gone =
      let grown : Bool = has k existing || contains k added in
      Ensures-then _ _ grown _ _ _ (add_replicas-Ensures h k existing deleted added apart)
        λ replicas.
          Ensures-quiet_then _ grown _ _ _
            (Emits-deploy_proxy E codec same_spec _ (is_proxied-Quiet h.directory k grown) h)
            λ _.
              Ensures-mono _ grown _ _ _
                (λ _ t e.
                  e ∙ ap (λ b. grown && not b) (any_same-contains h.directory k deleted gone))
                (delete_replicas-Ensures E polls h k replicas deleted grown)

  -- What the analysis of the existing replicas says of every PVC.
  unfoldable pub Analysed : Handle → Dict String → List String × List String → Type 0
  Analysed h existing changes =
      (p : String)
      → (contains p changes.0 ≡ (has p existing && not (contains p h.directory.spec.pvcs)))
        × (contains p changes.1 ≡ (contains p h.directory.spec.pvcs && not (has p existing)))
        × (((has p existing && not (contains p changes.0)) || contains p changes.1)
            ≡ contains p h.directory.spec.pvcs)

  pub analyse_existing_pods-Analysed :
      (h : Handle) (existing : Dict String)
      → Returns (Analysed h existing) (analyse_existing_pods E h existing)
  unfolding Analysed
  analyse_existing_pods-Analysed h existing = record {
    at = λ w changes e p. (analyse_existing_pods-Returns E fair h existing p).at w changes e;
  }

  pub analysis-Ensures :
      (h : Handle) (existing : Dict String) (k : String)
      → Ensures
          (standing h.directory k)
          (has k existing)
          (λ changes t. Analysed h existing changes × (t ≡ has k existing))
          (analyse_existing_pods E h existing)
  unfolding analyse_existing_pods
  analysis-Ensures h existing k =
      let P = Quiet h.directory k (has k existing) in
      Ensures-Emits _ (has k existing) _ _
        (Emits-bind P _ _ (Emits-shuffled E P existing) (λ order. Emits-pure P _))
        (analyse_existing_pods-Analysed h existing)

  module _ (h : Handle) (existing : Dict String) (k : String) (hk : IsLower k)
      (old : All IsLower (keys existing)) (new : All IsLower h.directory.spec.pvcs) where
    existing-IsLower : (p : String) → has p existing ≡ true → IsLower p
    existing-IsLower p e =
        All-contains IsLower (keys existing) p old (sym (has-keys existing p) ∙ e)

    changed-IsLower :
        (changes : List String × List String)
        → Analysed h existing changes
        → (p : String) → (has p existing || contains p changes.1) ≡ true
        → IsLower p
    unfolding Analysed
    changed-IsLower changes facts p e = elim (Bool-cases (has p existing)) [
      | inl there ↦ existing-IsLower p there
      | inr absent ↦
          All-contains IsLower h.directory.spec.pvcs p new (ground (arith, e, absent, (facts p).1))
    ]

    deleted-IsLower :
        (changes : List String × List String)
        → Analysed h existing changes
        → (p : String) → contains p changes.0 ≡ true
        → IsLower p
    unfolding Analysed
    deleted-IsLower changes facts p e = existing-IsLower p (ground (arith, e, (facts p).0))

    planned-Ensures :
        (changes : List String × List String) (h' : Handle)
        → Analysed h existing changes
        → h'.directory ≡ h.directory
        → Ensures
            (standing h.directory k)
            (has k existing)
            (λ _ t. t ≡ contains k h.directory.spec.pvcs)
            (add_replicas E api codec same_spec h' existing changes >>= λ replicas.
              deploy_proxy E codec same_spec h' >>= λ _. delete_replicas E h' replicas changes.0)
    unfolding Analysed
    planned-Ensures changes h' facts same =
        Ensures-mono _ _ _ _ _ (λ _ t e. ground (arith, e, facts k))
          (subst
            (λ d.
              Ensures (standing d k) (has k existing)
                (λ _ t.
                  t ≡ ((has k existing || contains k changes.1) && not (contains k changes.0)))
                (add_replicas E api codec same_spec h' existing changes >>= λ replicas.
                  deploy_proxy E codec same_spec h' >>= λ _.
                  delete_replicas E h' replicas changes.0))
            same
            (changes-Ensures h' k existing changes.0 changes.1
              (λ p e. same_replica-IsLower _ k p hk (changed-IsLower changes facts p e))
              (λ p e. same_replica-IsLower _ k p hk (deleted-IsLower changes facts p e))))

    -- From what the analysis says on, the reading of the configuration included.
    pub reconciled-Ensures :
        (changes : List String × List String)
        → Analysed h existing changes
        → Ensures
            (standing h.directory k)
            (has k existing)
            (λ _ t. t ≡ contains k h.directory.spec.pvcs)
            (apply_changes E api codec same_spec h existing changes)
    unfolding apply_changes
    reconciled-Ensures changes facts =
        let s : Bool = has k existing in
        Ensures-bind _ s _ _ _ _
          (Ensures-Emits _ s _ _
            (Emits-get_server_config E codec.decode _ (standing-is_read h.directory k s) h)
            (get_server_config-Returns E codec.decode h))
          λ h' u same. Ensures-from _ s u _ _ same.1 (planned-Ensures changes h' facts same.0)

  -- Let k, the existing replicas and the PVCs of the document be in lower case, as Kubernetes names
  -- are, and let the replica set of k be asked for exactly when k has a replica. Whenever the
  -- analysis of the existing replicas and the changes that follow return without an error, the
  -- last request about the replica set of k, if there is any, leaves it asked for exactly when the
  -- document names k.
  pub apply_changes-Ensures :
      (h : Handle) (existing : Dict String) (k : String)
      → IsLower k
      → All IsLower (keys existing)
      → All IsLower h.directory.spec.pvcs
      → Ensures
          (standing h.directory k)
          (has k existing)
          (λ _ t. t ≡ contains k h.directory.spec.pvcs)
          (analyse_existing_pods E h existing >>= apply_changes E api codec same_spec h existing)
  apply_changes-Ensures h existing k hk old new =
      Ensures-bind _ (has k existing) _ _ _ _ (analysis-Ensures h existing k) λ changes t facts.
        Ensures-from _ (has k existing) t _ _ facts.1
          (reconciled-Ensures h existing k hk old new changes facts.0)

-- ===== src/Controller/Standing/Grown.antt =====
-- What createReplicas leaves asked for.
use verify_directory_operato.Base.{
  ◌≡◌, refl, ◌∙◌, Bool, true, not, ◌&&◌, ◌||◌, String, List, [], ◌∷◌, arith, ◌==◌, eq_refl, eq_iff,
  ap, subst, Bool-cases, inl, inr,
}
use verify_directory_operato.Base.Dict.{Dict, has, insert, contains}
use verify_directory_operato.Names.{get_replica_deployment_name}
use verify_directory_operato.Api.{Directory}
use verify_directory_operato.Kube.{Env, Request, create, settle, ask, pure}
use verify_directory_operato.Kube.Rules.{
  Emits-bind, Emits-pure, Emits-each, Emits-or_panic, Emits-shuffled, PollsFairly, RangesOverKeys,
  shuffled-Returns, settle-trace,
}
use verify_directory_operato.Kube.Endings.{ask-trace}
use verify_directory_operato.Kube.Ensures.{
  Ensures, Ensures-mono, Ensures-then, Ensures-quiet, Ensures-quiet_then, Ensures-request,
  Ensures-pure, Ensures-bind, Ensures-Emits,
}
use verify_directory_operato.Controller.Handle.{Handle}
use verify_directory_operato.Controller.Pods.Requests.{
  is_read, Emits-get_replica_set_pod_name, Emits-wait_for_pod,
}
use verify_directory_operato.Controller.Replica.{deploy_replica}
use verify_directory_operato.Controller.Replica.Build.{replica_object, seed_job}
use verify_directory_operato.Controller.Replica.Requests.{Emits-create_replication_agreement}
use verify_directory_operato.Controller.Grow.{
  start_principal, deploy_replicas, start_replicas, grow, create_first, create_replicas, first_key,
}
use verify_directory_operato.Controller.Grow.Requests.{
  Emits-seed_replicas, Emits-create_cluster_service, Emits-connect_replicas,
}
use verify_directory_operato.Controller.Standing.{
  standing, Quiet, same_replica, any_same, standing-is_read, standing-create,
}
use verify_directory_operato.Controller.Standing.Shrunk.{delete_replica-Ensures}

module _ {W : Type 0} (E : Env W) (polls : PollsFairly E) (h : Handle) (k : String) where
  reads : (s : Bool) (q : Request) → is_read q ≡ true → Quiet h.directory k s q
  reads = standing-is_read h.directory k

  deploy_replica-Ensures :
      (s : Bool) (pvc : String)
      → Ensures
          (standing h.directory k)
          s
          (λ _ t. t ≡ (s || same_replica h.directory k pvc))
          (deploy_replica E h pvc)
  unfolding deploy_replica
  deploy_replica-Ensures s pvc =
      let up : Bool = s || same_replica h.directory k pvc in
      let q : Request = create (replica_object E h pvc) in
      Ensures-then _ s up _ _ _
        (Ensures-mono _ s _ _ _ (λ _ t e. e ∙ standing-create E h k s pvc)
          (Ensures-request _ s q (settle (ask E q)) (λ w. settle-trace _ w ∙ ask-trace E q w)))
        λ _.
          Ensures-quiet _ up _
            (Emits-get_replica_set_pod_name E (Quiet h.directory k up) (reads up) h _)

  start_principal-Ensures :
      (s : Bool) (principal : String)
      → Ensures
          (standing h.directory k)
          s
          (λ _ t. t ≡ (s || same_replica h.directory k principal))
          (start_principal E h principal)
  unfolding start_principal
  start_principal-Ensures s principal =
      let up : Bool = s || same_replica h.directory k principal in
      let P = Quiet h.directory k up in
      Ensures-then _ s up _ _ _ (deploy_replica-Ensures s principal) λ pod. Ensures-quiet _ up _ (
        Emits-bind P _ _ (Emits-or_panic P (get_replica_deployment_name pod)) λ name.
          Emits-bind P _ _
            (Emits-create_cluster_service E polls P (reads up) (λ _ _ _. refl) h (λ _ _ _. refl)
              name h.config.port principal)
            λ _.
              Emits-bind P _ _ (Emits-wait_for_pod E P (reads up) polls h pod)
                λ _. Emits-pure P name)

  deploy_replicas-Ensures :
      (s : Bool) (added : List String) (pods existing : Dict String)
      → Ensures
          (standing h.directory k)
          s
          (λ _ t. t ≡ (s || any_same h.directory k added))
          (deploy_replicas E h added pods existing)
  unfolding deploy_replicas
  deploy_replicas-Ensures s [] pods existing = Ensures-pure _ s _ _ (ground arith)
  deploy_replicas-Ensures s (pvc ∷ added) pods existing =
      let up : Bool = s || same_replica h.directory k pvc in
      Ensures-then _ s up _ _ _ (deploy_replica-Ensures s pvc) λ pod.
        Ensures-quiet_then _ up _ _ _ (Emits-or_panic _ (get_replica_deployment_name pod)) λ name.
          Ensures-mono _ up _ _ _ (λ _ t e. ground arith)
            (deploy_replicas-Ensures up added (insert pvc name pods) (insert pvc name existing))

  start_replicas-Ensures :
      (s : Bool) (principal : String) (added : List String) (existing : Dict String)
      → Ensures
          (standing h.directory k)
          s
          (λ _ t. t ≡ (s || any_same h.directory k added))
          (start_replicas E h principal added existing)
  unfolding start_replicas
  start_replicas-Ensures s principal added existing =
      let up : Bool = s || any_same h.directory k added in
      Ensures-then _ s up _ _ _ (deploy_replicas-Ensures s added [] existing) λ maps.
        Ensures-quiet _ up _ (
          Emits-connect_replicas E polls (Quiet h.directory k up) (reads up) (λ _ _ _. refl) h
            (λ _ _ _. refl) principal added maps)

  -- The added replicas and the principal are asked for; every other replica is as it was.
  grow-Ensures :
      (s : Bool) (principal : String) (added : List String) (existing : Dict String)
      → Ensures
          (standing h.directory k)
          s
          (λ _ t. t ≡ ((s || same_replica h.directory k principal) || any_same h.directory k added))
          (grow E h principal added existing)
  unfolding grow seed_job
  grow-Ensures s principal added existing =
      let stopped : Bool = s && not (same_replica h.directory k principal) in
      let up : Bool = stopped || any_same h.directory k added in
      let P = Quiet h.directory k s in
      let Q = Quiet h.directory k stopped in
      Ensures-quiet_then _ s _ _ _
        (Emits-each P _
          (λ pvc.
            Emits-create_replication_agreement E P (λ _ _ _. refl) (reads s) h principal principal
              pvc)
          added)
        λ _. Ensures-then _ s stopped _ _ _ (delete_replica-Ensures E polls h k s principal) λ _.
          Ensures-quiet_then _ stopped _ _ _
            (Emits-seed_replicas E polls Q (reads stopped) h (λ _ _ _. refl) (λ _ _ _. refl)
              (λ _. refl) (λ _ _. refl) principal added)
            λ _.
              Ensures-then _ stopped up _ _ _
                (start_replicas-Ensures stopped principal added existing)
                λ m.
                  Ensures-then _ up (up || same_replica h.directory k principal) _ _ _
                    (start_principal-Ensures up principal) λ _. Ensures-pure _ _ _ m (ground arith)

  create_first-Ensures :
      (s : Bool) (principal : String) (added : List String)
      → Ensures
          (standing h.directory k)
          s
          (λ _ t. t ≡ (s || any_same h.directory k (principal ∷ added)))
          (create_first E h principal added [])
  unfolding create_first
  create_first-Ensures s principal added =
      let up : Bool = s || same_replica h.directory k principal in
      Ensures-then _ s up _ _ _ (start_principal-Ensures s principal) (rest added)
    where
      rest :
          (more : List String) (name : String)
          → Ensures
              (standing h.directory k)
              {W = W}
              (s || same_replica h.directory k principal)
              (λ _ t. t ≡ (s || any_same h.directory k (principal ∷ more)))
              (elim more [
                | [] ↦ pure (insert principal name [])
                | pvc ∷ more' ↦ grow E h principal (pvc ∷ more') (insert principal name [])
              ])
      rest [] name = Ensures-pure _ _ _ _ (ground arith)
      rest (pvc ∷ more) name =
          Ensures-mono _ _ _ _ _ (λ _ t e. ground arith)
            (grow-Ensures _ principal (pvc ∷ more) (insert principal name []))

-- The key that a range over a map that is not empty meets first is one of its keys.
first_key-has :
    (order : Dict String) (entry : String × String) (more : Dict String)
    → ((p : String) → has p order ≡ has p (entry ∷ more))
    → has (first_key order) (entry ∷ more) ≡ true
unfolding has
first_key-has [] (p, name) more same = ground (arith, same p, eq_refl p)
first_key-has ((j, name) ∷ order) entry more same = ground (arith, same j, eq_refl j)

has-or_self : (k p : String) (m : Dict String) → has p m ≡ true → (has k m || (p == k)) ≡ has k m
has-or_self k p m known = elim (Bool-cases (p == k)) [
  | inl same ↦
      let there : has k m ≡ true = subst (λ q. has q m ≡ true) ((eq_iff p k).0 same) known in
      rw there refl
  | inr other ↦ ground (arith, other)
]

module _ (d : Directory) (k : String) where
  -- Where PVCs share no replica set with k, those of k are k alone.
  pub any_same-contains :
      (pvcs : List String)
      → ((p : String) → contains p pvcs ≡ true → same_replica d k p ≡ (p == k))
      → any_same d k pvcs ≡ contains k pvcs
  unfolding contains
  any_same-contains [] apart = refl
  any_same-contains (pvc ∷ pvcs) apart =
      let here : same_replica d k pvc ≡ (pvc == k) = apart pvc (rw (eq_refl pvc) refl) in
      let there : any_same d k pvcs ≡ contains k pvcs =
        any_same-contains pvcs (λ p e. apart p (ground (arith, e))) in
      ground (arith, here, there)

-- With the replica set of k asked for exactly when k has a replica, it is asked for after
-- createReplicas exactly when k has one or is to be added.
pub create_replicas-Ensures :
    {W : Type 0} (E : Env W)
    → PollsFairly E
    → RangesOverKeys E
    → (h : Handle) (k : String) (existing : Dict String) (added : List String)
    → ((p : String)
        → (has p existing || contains p added) ≡ true
        → same_replica h.directory k p ≡ (p == k))
    → Ensures
        (standing h.directory k)
        (has k existing)
        (λ _ t. t ≡ (has k existing || contains k added))
        (create_replicas E h existing added)
unfolding create_replicas
create_replicas-Ensures E polls fair h k existing [] apart =
    Ensures-pure _ _ _ existing (unfold contains in ground arith)
create_replicas-Ensures E polls fair h k [] (principal ∷ added) apart =
    Ensures-mono _ _ _ _ _
      (λ _ t e.
        e
        ∙ ap (λ b. has {V = String} k [] || b)
            (any_same-contains h.directory k (principal ∷ added)
              (λ p i. apart p (ground (arith, i)))))
      (create_first-Ensures E polls h k (has {V = String} k []) principal added)
create_replicas-Ensures E polls fair h k (entry ∷ more) (pvc ∷ added) apart =
    Ensures-bind _ s _ _ _ _
      (Ensures-Emits _ s _ _ (Emits-shuffled E _ (entry ∷ more)) (shuffled-Returns E fair _))
      λ order u facts.
        let principal : String = first_key order in
        let known : has principal (entry ∷ more) ≡ true = first_key-has order entry more facts.0 in
        let own : same_replica h.directory k principal ≡ (principal == k) =
          apart principal (ground (arith, known)) in
        let new : any_same h.directory k (pvc ∷ added) ≡ contains k (pvc ∷ added) =
          any_same-contains h.directory k (pvc ∷ added) (λ p i. apart p (ground (arith, i))) in
        Ensures-mono _ u _ _ _
          (λ _ t e.
            e ∙ ground (arith, facts.1, own, new, has-or_self k principal (entry ∷ more) known))
          (grow-Ensures E polls h k u principal (pvc ∷ added) (entry ∷ more))
  where
    s : Bool
    s = has k (entry ∷ more)

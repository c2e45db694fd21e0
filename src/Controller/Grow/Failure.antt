-- ===== src/Controller/Grow/Failure.antt =====
-- What a failed seeding leaves behind.
use verify_directory_operato.Base.{◌≡◌, refl, Bool, true, false, String, List, ◌∷◌}
use verify_directory_operato.Base.Lists.{All, All-append}
use verify_directory_operato.Base.Dict.{Dict}
use verify_directory_operato.Kube.{
  M, Env, ok, fail, Error, Request, create, replica_set, shuffled, each, ◌>>=◌,
}
use verify_directory_operato.Kube.Rules.{
  Emits, Emits-shuffled, Emits-each, PollsFairly, bind-ok, bind-fail,
}
use verify_directory_operato.Controller.Handle.{Handle}
use verify_directory_operato.Controller.Pods.Requests.{is_read}
use verify_directory_operato.Controller.Replica.{delete_replica, create_replication_agreement}
use verify_directory_operato.Controller.Replica.Build.{seed_job}
use verify_directory_operato.Controller.Replica.Requests.{
  Emits-delete_replica, Emits-create_replication_agreement,
}
use verify_directory_operato.Controller.Grow.{first_key, seed_replicas, grow, create_replicas}
use verify_directory_operato.Controller.Grow.Requests.{Emits-seed_replicas}

-- A request that starts no replica.
abbrev pub starts_none : Request → Bool
starts_none (create (replica_set rs)) = false
starts_none _ = true

abbrev pub StartsNone : Request → Type 0
StartsNone q = starts_none q ≡ true

StartsNone-is_read : (q : Request) → is_read q ≡ true → StartsNone q
StartsNone-is_read (create o) e = absurd (cc)
StartsNone-is_read _ e = refl

-- The run returns this error, and all its requests satisfy P.
abbrev pub FailsWith : {W A : Type 0} → (Request → Type 0) → Error → M W A → W → Type 0
FailsWith P e m w = ((m w).outcome ≡ fail e) × All P (m w).trace

module _ {W A B : Type 0} (P : Request → Type 0) (e : Error) (m : M W A) (f : A → M W B)
    (w : W) where
  FailsWith-next :
      (a : A)
      → Emits P m
      → (m w).outcome ≡ ok a
      → FailsWith P e (f a) (m w).after
      → FailsWith P e (m >>= f) w
  FailsWith-next a hm p h = rw (bind-ok m f w a p) (h.0, All-append P (m w).trace _ (hm.at w) h.1)

  FailsWith-first : Emits P m → (m w).outcome ≡ fail e → FailsWith P e (m >>= f) w
  FailsWith-first hm p = rw (bind-fail m f w e p) (refl, hm.at w)

module _ {W : Type 0} (E : Env W) (polls : PollsFairly E) (h : Handle) (principal : String)
    (added : List String) where
  -- The same from the choice of the principal on.
  grow-StartsNone :
      (existing : Dict String) (w : W) (e : Error)
      → let linked =
          each (λ pvc. create_replication_agreement E h principal principal pvc) added w in
        let stopped = delete_replica E h principal linked.after in
        let seeded = seed_replicas E h principal added stopped.after in
        (linked.outcome ≡ ok tt)
        → (stopped.outcome ≡ ok tt)
        → (seeded.outcome ≡ fail e)
        → FailsWith StartsNone e (grow E h principal added existing) w
  unfolding grow seed_job
  grow-StartsNone existing w e p q r =
      FailsWith-next StartsNone e _ _ w tt
        (Emits-each StartsNone (λ pvc. create_replication_agreement E h principal principal pvc)
          (λ pvc.
            Emits-create_replication_agreement E StartsNone (λ _ _ _. refl) StartsNone-is_read h
              principal principal pvc)
          added)
        p
        (FailsWith-next StartsNone e _ _ _ tt
          (Emits-delete_replica E StartsNone polls StartsNone-is_read h principal (λ _. refl)) q
          (FailsWith-first StartsNone e _ _ _
            (Emits-seed_replicas E polls StartsNone StartsNone-is_read h (λ _ _ _. refl)
              (λ _ _ _. refl) (λ _. refl) (λ _ _. refl) principal added)
            r))

module _ {W : Type 0} (E : Env W) (polls : PollsFairly E) (h : Handle) where
  -- In a deployment that has a replica already, let the range over the replicas meet the principal
  -- first. If the agreements have been made and the principal has been deleted, and the seeding
  -- then fails, createReplicas returns the error of the seeding, and asks for the creation of no
  -- replica set, the principal's among them.
  pub create_replicas-StartsNone :
      (replica : String × String) (more : Dict String) (pvc : String) (added : List String) (w : W)
      (e : Error)
      → let order = E.shuffle (replica ∷ more) w in
        let principal = first_key order.0 in
        let linked =
          each
            (λ dest. create_replication_agreement E h principal principal dest)
            (pvc ∷ added)
            order.1 in
        let stopped = delete_replica E h principal linked.after in
        let seeded = seed_replicas E h principal (pvc ∷ added) stopped.after in
        (linked.outcome ≡ ok tt)
        → (stopped.outcome ≡ ok tt)
        → (seeded.outcome ≡ fail e)
        → FailsWith StartsNone e (create_replicas E h (replica ∷ more) (pvc ∷ added)) w
  unfolding create_replicas shuffled
  create_replicas-StartsNone replica more pvc added w e p q r =
      FailsWith-next StartsNone e _ _ w _ (Emits-shuffled E StartsNone (replica ∷ more)) refl
        (grow-StartsNone E polls h _ (pvc ∷ added) (replica ∷ more) _ e p q r)

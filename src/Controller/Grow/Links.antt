-- ===== src/Controller/Grow/Links.antt =====
-- createReplicas: between which replicas it makes replication agreements.
use verify_directory_operato.Base.{
  ◌≡◌, ◌≢◌, refl, sym, subst, ap, ◌∙◌, ◌++◌, true, false, ◌||◌, String, List, [], ◌∷◌, inl, inr,
  Bool-cases, arith, eq_iff, ◌==◌,
}
use verify_directory_operato.Base.Lists.{In}
use verify_directory_operato.Base.Dict.{Dict, has, contains}
use verify_directory_operato.Names.{get_replica_pod_name}
use verify_directory_operato.Kube.{Env, Request, exec, ok, settle, ask, ◌>>=◌}
use verify_directory_operato.Kube.Rules.{RangesOverKeys, shuffled-Returns, bind-ok, bind-returned}
use verify_directory_operato.Kube.Makes.{
  Makes, Makes-first, Makes-then, Makes-next, Makes-each, Makes-whole,
}
use verify_directory_operato.Controller.Handle.{Handle}
use verify_directory_operato.Controller.Pods.{get_replica_set_pod_name}
use verify_directory_operato.Controller.Objects.{execute_command}
use verify_directory_operato.Controller.Replica.{
  agreement_command, create_replication_agreement, agree_with, create_replication_agreements,
}
use verify_directory_operato.Controller.Grow.{connect_replicas, start_replicas, grow}
use verify_directory_operato.Controller.Grow.Members.{deploy_replicas-Extends}

-- The lookup of the pod of the source's replica set, and on that pod the command that removes an
-- earlier agreement and the one that makes the agreement to the destination.
abbrev pub Agrees : {W : Type 0} → Env W → Handle → String → String → String → List Request → Type 0
Agrees {W} E h principal source dest part =
    let src = get_replica_pod_name h.directory source in
    let dst = get_replica_pod_name h.directory dest in
    (w : W) × (pod : String) × ((get_replica_set_pod_name E h src w).outcome ≡ ok pod)
    × (part
        ≡ (get_replica_set_pod_name E h src w).trace
          ++ (exec h.directory.namespace pod ("isvd_manage_replica" ∷ "-r" ∷ "-i" ∷ dst ∷ [])
              ∷ exec h.directory.namespace pod
                  (agreement_command E h (get_replica_pod_name h.directory principal) src dst)
              ∷ []))

In-contains : (x : String) (xs : List String) → contains x xs ≡ true → In x xs
unfolding contains
In-contains x [] e = absurd (cc)
In-contains x (y ∷ ys) e = elim (Bool-cases (y == x)) [
  | inl same ↦ inl (sym ((eq_iff y x).0 same))
  | inr other ↦ inr (In-contains x ys (ground (arith, e, other)))
]

In-has : {V : Type 0} (k : String) (m : Dict V) → has k m ≡ true → (v : V) × In (k, v) m
unfolding has
In-has {V} k [] e = absurd (cc)
In-has {V} k ((j, v) ∷ m) e = elim (Bool-cases (j == k)) [
  | inl same ↦ (v, inl (subst (λ i. ◌≡◌ {A = String × V} (i, v) (j, v)) ((eq_iff j k).0 same) refl))
  | inr other ↦ let (u, i) = In-has k m (ground (arith, e, other)) in (u, inr i)
]

module _ {W : Type 0} (E : Env W) (h : Handle) (principal : String) where
  commands_run :
      (pod : String) (clear make : List String) (w : W)
      → ((settle (execute_command E h pod clear) >>= λ _. execute_command E h pod make) w).trace
        ≡ exec h.directory.namespace pod clear ∷ exec h.directory.namespace pod make ∷ []
  unfolding execute_command ◌>>=◌ settle ask
  commands_run pod clear make w = ground arith

  create_replication_agreement-Makes :
      (source dest : String)
      → Makes
          (Agrees E h principal source dest)
          (create_replication_agreement E h principal source dest)
  unfolding create_replication_agreement agreement_command
  create_replication_agreement-Makes source dest = Makes-whole _ _ λ w a e.
      let (pod, found, rest) = bind-returned _ _ w a e in
      (
        w,
        pod,
        found,
        ap (λ r. r.trace) (bind-ok _ _ w pod found) ∙ ap (◌++◌ _) (commands_run pod _ _ _),
      )

  agree_with-Makes :
      (source dest name : String)
      → source ≢ principal
      → source ≢ dest
      → Makes (Agrees E h principal source dest) (agree_with E h principal dest (source, name))
  unfolding agree_with
  agree_with-Makes source dest name other apart =
      rw (neq source principal other, neq source dest apart)
        (create_replication_agreement-Makes source dest)
    where
      neq : (a b : String) → a ≢ b → (a == b) ≡ false
      neq a b p = elim (Bool-cases (a == b)) [
        | inl same ↦ absurd (p ((eq_iff a b).0 same))
        | inr differ ↦ differ
      ]

  module _ (fair : RangesOverKeys E) where
    create_replication_agreements-Makes :
        (source dest : String) (existing : Dict String)
        → source ≢ principal
        → source ≢ dest
        → has source existing ≡ true
        → Makes
            (Agrees E h principal source dest)
            (create_replication_agreements E h principal dest existing)
    unfolding create_replication_agreements
    create_replication_agreements-Makes source dest existing other apart known =
        Makes-then _ _ _ _ (shuffled-Returns E fair existing) λ order same.
          let (name, i) = In-has source order (ground (arith, same source, known)) in
          Makes-each _ _ (source, name) (agree_with-Makes source dest name other apart) order i

    start_replicas-Makes :
        (source dest : String) (added : List String) (existing : Dict String)
        → source ≢ principal
        → source ≢ dest
        → contains dest added ≡ true
        → (has source existing || contains source added) ≡ true
        → Makes (Agrees E h principal source dest) (start_replicas E h principal added existing)
    unfolding start_replicas connect_replicas
    start_replicas-Makes source dest added existing other apart new known =
        Makes-then _ _ _ _ (deploy_replicas-Extends E h added [] existing) λ maps keys.
          Makes-next _ _ _ λ order. Makes-next _ _ _ λ _. Makes-first _ _ _ (
            Makes-each _ _ dest
              (create_replication_agreements-Makes source dest maps.1 other apart
                (ground (arith, keys source, known)))
              added (In-contains dest added new))

    -- Whenever createReplicas, with its principal chosen, returns without an error, it has made, for
    -- each added replica and each other replica that existed or was added, and the principal, an
    -- agreement from the latter to the former: it has looked up the pod of the source's replica
    -- set, and right after that asked for the command on that very pod.
    pub grow-Makes :
        (source dest : String) (added : List String) (existing : Dict String)
        → source ≢ dest
        → contains dest added ≡ true
        → (source == principal || (has source existing || contains source added)) ≡ true
        → Makes (Agrees E h principal source dest) (grow E h principal added existing)
    unfolding grow
    grow-Makes source dest added existing apart new known =
        elim (Bool-cases (source == principal)) [
          | inl same ↦
              let e : source ≡ principal = (eq_iff source principal).0 same in
              Makes-first _ _ _ (
                Makes-each _ _ dest
                  (subst
                    (λ s.
                      Makes (Agrees E h principal source dest)
                        (create_replication_agreement E h principal s dest))
                    e (create_replication_agreement-Makes source dest))
                  added (In-contains dest added new))
          | inr other ↦ Makes-next _ _ _ λ _. Makes-next _ _ _ λ _. Makes-next _ _ _ λ _.
              Makes-first _ _ _ (
                start_replicas-Makes source dest added existing
                  (λ e. ground (arith, other, (eq_iff source principal).1 e)) apart new
                  (ground (arith, known, other)))
        ]

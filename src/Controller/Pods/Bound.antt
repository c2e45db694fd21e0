-- ===== src/Controller/Pods/Bound.antt =====
-- How often the lookup of a replica set's pod reads the replica set.
use verify_directory_operato.Base.{
  ℕ, zero, suc, ◌≤◌, ◌<◌, ◌≡◌, ◌⊎◌, inl, inr, refl, String, List, [], ◌∷◌, ◌++◌, arith, leb,
  Bool-cases, ap,
}
use verify_directory_operato.Base.Lists.{repeat}
use verify_directory_operato.Kube.{
  Env, ok, Pod, Request, ReplicaSetState, get_replica_set, list_selected, ask_anyway, paused, pure,
  panics, value_of, ◌>>=◌,
}
use verify_directory_operato.Kube.Rules.{bind-run, bind-silent}
use verify_directory_operato.Controller.Handle.{Handle}
use verify_directory_operato.Controller.Pods.{await_labeled, first_name, get_replica_set_pod_name}

module _ {W : Type 0} (E : Env W) (h : Handle) (name : String) where
  abbrev read : Request
  read = get_replica_set h.directory.namespace name

  -- What the code goes on with after a read of the replica set, and the world then.
  abbrev pub reading : W → ReplicaSetState × W
  reading w = (value_of (E.beside_error read) (E.answer read w).0, (E.answer read w).1)

  -- The same after n more reads, two seconds before each.
  abbrev pub reread : ReplicaSetState × W → ℕ → ReplicaSetState × W
  reread s zero = s
  reread s (suc n) = reread (reading (E.sleep 2 s.1)) n

  -- n is the number of further reads: each follows one that finds no labeled pod, and after them a
  -- labeled pod is found or no round is left.
  abbrev pub IsWait : ℕ → ReplicaSetState × W → ℕ → Type 0
  IsWait rounds s n =
      (n ≤ rounds)
      × ((i : ℕ) → i < n → (reread s i).0.fully_labeled ≡ 0)
      × ((n ≡ rounds) ⊎ (1 ≤ (reread s n).0.fully_labeled))

  IsWait-suc :
      (rounds : ℕ) (s : ReplicaSetState × W) (n : ℕ)
      → s.0.fully_labeled ≡ 0
      → IsWait rounds (reading (E.sleep 2 s.1)) n
      → IsWait (suc rounds) s (suc n)
  IsWait-suc rounds s n unlabeled (fits, before, done) = (omega (arith, fits), earlier, last done)
    where
      earlier : (i : ℕ) → i < suc n → (reread s i).0.fully_labeled ≡ 0
      earlier zero l = unlabeled
      earlier (suc i) l = before i (omega (arith, l))

      last :
          (n ≡ rounds) ⊎ (1 ≤ (reread s (suc n)).0.fully_labeled)
          → (suc n ≡ suc rounds) ⊎ (1 ≤ (reread s (suc n)).0.fully_labeled)
      last (inl e) = inl (ap suc e)
      last (inr l) = inr l

  await_labeled_run :
      (rounds : ℕ) (rs : ReplicaSetState) (w : W)
      → (n : ℕ) × IsWait rounds (rs, w) n
        × (await_labeled E rounds h name rs w ≡ record {
          outcome = ok (reread (rs, w) n).0;
          after = (reread (rs, w) n).1;
          trace = repeat n read;
        })
  unfolding await_labeled pure ask_anyway paused ◌>>=◌
  await_labeled_run zero rs w =
      (0, (omega arith, (λ i l. absurd (omega (arith, l))), inl refl), refl)
  await_labeled_run (suc rounds) rs w = elim (Bool-cases (leb 1 rs.fully_labeled)) [
    | inl labeled ↦ (
      0,
      (omega arith, (λ i l. absurd (omega (arith, l))), inr (ground (arith, labeled))),
      rw (labeled, await_labeled) refl,
    )
    | inr unlabeled ↦
        let again = reading (E.sleep 2 w) in
        let (n, waits, run) = await_labeled_run rounds again.0 again.1 in
        (
          suc n,
          IsWait-suc rounds (rs, w) n (ground (arith, unlabeled)) waits,
          rw (unlabeled, await_labeled, run) refl,
        )
  ]

  first_name_silent : (pods : List Pod) (w : W) → (first_name {W = W} pods w).trace ≡ []
  unfolding first_name pure panics
  first_name_silent [] w = refl
  first_name_silent (pod ∷ rest) w = refl

  -- Whatever the answers, the lookup of a replica set's pod reads the replica set once and then n more
  -- times, where n is at most 60. Each of these n reads follows one whose answer has no labeled
  -- pod, and the last answer has one unless n is 60. Then the lookup lists the pods that the
  -- selector in the last answer selects, and makes no other request.
  pub get_replica_set_pod_name-repeat :
      (w : W)
      → (n : ℕ) × IsWait 60 (reading w) n
        × ((get_replica_set_pod_name E h name w).trace
            ≡ read ∷ repeat n read
              ++ (list_selected h.directory.namespace
                    (E.selector_text (reread (reading w) n).0.selector)
                  ∷ []))
  unfolding get_replica_set_pod_name ask_anyway
  get_replica_set_pod_name-repeat w =
      let (n, waits, run) = await_labeled_run 60 (reading w).0 (reading w).1 in
      let found = reread (reading w) n in
      let listing = list_selected h.directory.namespace (E.selector_text found.0.selector) in
      (
        n,
        waits,
        rw
            (
              bind-run (ask_anyway E read) _ w (reading w).0 (reading w).1 (read ∷ []) refl,
              bind-run (await_labeled E 60 h name (reading w).0) _ (reading w).1 found.0 found.1
                  (repeat n read) run,
            )
            (ap (λ t. read ∷ repeat n read ++ t)
              (bind-silent (ask_anyway E listing) first_name found.1 first_name_silent)),
      )

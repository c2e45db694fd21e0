-- ===== src/Controller/Reconcile/Outcome.antt =====
-- How Reconcile ends: its error, its first request and its last update of the status.
use verify_directory_operato.Base.{
  ◌≡◌, ◌≢◌, refl, ◌∙◌, is_some, Bool, true, false, not, String, List, [], ◌∷◌, Option, none, some,
}
use verify_directory_operato.Base.Dict.{Dict}
use verify_directory_operato.Api.{Directory}
use verify_directory_operato.Kube.{
  Env, Outcome, ok, fail, panic, Answer, granted, refused, Error, Request, ReplicaSet,
  update_status, pure, settle, ◌>>=◌,
}
use verify_directory_operato.Kube.Rules.{
  NoError, NoError-bind, NoError-pure, NoError-settle, NoError-answer, NoError-if, NoError-shuffled,
  bind-panic_outcome, bind-silent, settle-ask-granted, settle-ok, settle-fail, settle-panic,
}
use verify_directory_operato.Kube.Endings.{
  EndsWith, EndsWith-append, Ends, Ends-after, Ends-settle, ask-trace,
}
use verify_directory_operato.Controller.Handle.{Handle}
use verify_directory_operato.Controller.Proxy.{Codec}
use verify_directory_operato.Controller.Status.{
  ConditionApi, IsLawful, in_progress, processed, available, with_outcome, set_condition,
}
use verify_directory_operato.Controller.Reconcile.{
  analyse_existing_pods, apply_changes, conclude, progress, reconcile_document, reconcile,
}

-- The function returned, without an error.
abbrev pub succeeded : Outcome (Unit {0}) → Bool
succeeded (ok _) = true
succeeded _ = false

module _ (api : ConditionApi) where
  -- An update of the status to a document that is not in progress, and that is available or
  -- unavailable as the flag says.
  abbrev pub Reports : Bool → Request → Type 0
  Reports good q =
      (d : Directory) × (q ≡ update_status d)
      × (api.is_true d.conditions "InProgress" ≡ false)
      × (api.is_true d.conditions "Available" ≡ good)
      × (api.is_false d.conditions "Available" ≡ not good)

  pub with_outcome-Reports :
      IsLawful api
      → (d : Directory) (err : Option Error)
      → Reports (not (is_some err)) (update_status (with_outcome api d err))
  unfolding with_outcome available
  with_outcome-Reports law d none = (
    with_outcome api d none,
    refl,
    law.is_true-set_ne _ (available d.generation none) "InProgress" (λ p. cc)
        ∙ law.is_true-set d.conditions processed,
    law.is_true-set _ (available d.generation none),
    law.is_false-set _ (available d.generation none),
  )
  with_outcome-Reports law d (some e) = (
    with_outcome api d (some e),
    refl,
    law.is_true-set_ne _ (available d.generation (some e)) "InProgress" (λ p. cc)
        ∙ law.is_true-set d.conditions processed,
    law.is_true-set _ (available d.generation (some e)),
    law.is_false-set _ (available d.generation (some e)),
  )

module _ {W : Type 0} (E : Env W) (api : ConditionApi) (codec : Codec)
    (same_spec : ReplicaSet → ReplicaSet → Bool) where
  conclude-NoError :
      (h : Handle) (r : Answer (Unit {0})) → NoError (conclude E api codec same_spec h r)
  unfolding conclude
  conclude-NoError h (granted _) = NoError-bind _ _ (NoError-settle _) (λ _. NoError-pure tt)
  conclude-NoError h (refused e) = NoError-bind _ _ (NoError-settle _) (λ _. NoError-pure tt)

  progress-NoError :
      (h : Handle) (existing : Dict String) (changes : List String × List String)
      → NoError (progress E api codec same_spec h existing changes)
  unfolding progress
  progress-NoError h existing changes = NoError-bind _ _ (NoError-settle _) λ updated.
      NoError-answer updated _ _
        (λ d'. NoError-bind _ _ (NoError-settle _) (λ done. conclude-NoError _ done))
        (λ e. NoError-pure tt)

  reconcile_document-NoError : (h : Handle) → NoError (reconcile_document E api codec same_spec h)
  unfolding reconcile_document analyse_existing_pods
  reconcile_document-NoError h = NoError-bind _ _ (NoError-settle _) λ found.
      NoError-answer found _ _
        (λ existing.
          NoError-bind _ _
            (NoError-bind _ _ (NoError-shuffled E existing) (λ order. NoError-pure _))
            (λ changes. progress-NoError h existing changes))
        (λ e. conclude-NoError h (refused e))

  -- Reconcile returns no error, whatever the API server answers: the request is never put back.
  pub reconcile-NoError :
      (namespace name : String) → NoError (reconcile E api codec same_spec namespace name)
  unfolding reconcile
  reconcile-NoError namespace name = NoError-bind _ _ (NoError-settle _) λ found.
      NoError-answer found _ _
        (λ d. NoError-if _ _ _ (NoError-pure tt) (reconcile_document-NoError _))
        (λ e. NoError-pure tt)

  set_condition-Ends :
      IsLawful api
      → (h : Handle) (err : Option Error)
      → Ends (Reports api (not (is_some err))) (settle (set_condition api E h err) >>= λ _. pure tt)
  unfolding set_condition pure
  set_condition-Ends law h err =
      Ends-settle _ _ (with_outcome-Reports api law h.directory err) _ _
        (λ w. bind-silent _ _ w (λ _ _. refl) ∙ ask-trace E _ w) (λ _ _. refl)

  -- How the changes ended is what the last update of the status reports.
  module _ (law : IsLawful api) (h : Handle) (existing : Dict String)
      (changes : List String × List String) where
    apply_conclude :
        (w : W) (o : Outcome (Unit {0}))
        → (apply_changes E api codec same_spec h existing changes w).outcome ≡ o
        → ((settle (apply_changes E api codec same_spec h existing changes)
              >>= conclude E api codec same_spec h)
            w).outcome
          ≢ panic
        → EndsWith
            (Reports api (succeeded o))
            ((settle (apply_changes E api codec same_spec h existing changes)
                >>= conclude E api codec same_spec h)
              w).trace
    unfolding conclude
    apply_conclude w (ok _) e =
        Ends-after _ _ _ w _ (settle-ok _ w tt e) (set_condition-Ends law h none)
    apply_conclude w (fail x) e =
        Ends-after _ _ _ w _ (settle-fail _ w x e) (set_condition-Ends law h (some x))
    apply_conclude w panic e = λ live. absurd (live (bind-panic_outcome _ _ w (settle-panic _ w e)))

  -- Once the first update of the status is granted, every run that does not panic ends with an
  -- update of the status to a document that is no longer in progress, and whose condition
  -- `Available` is true when the changes succeeded and false when they failed.
  pub progress-Reports :
      (law : IsLawful api) (h : Handle) (existing : Dict String)
      (changes : List String × List String) (w : W) (d : Directory)
      → let started = record h.directory {
        conditions = api.set h.directory.conditions in_progress;
      } in
        let after = E.answer (update_status started) w in
        (after.0 ≡ granted d)
        → (progress E api codec same_spec h existing changes w).outcome ≢ panic
        → EndsWith
            (Reports api (
              succeeded
                (apply_changes E api codec same_spec
                  (record h { directory = d })
                  existing
                  changes
                  after.1).outcome))
            (progress E api codec same_spec h existing changes w).trace
  unfolding progress
  progress-Reports law h existing changes w d e = rw (settle-ask-granted E _ _ w d e) (λ live.
      EndsWith-append _
        (update_status
            (record h.directory { conditions = api.set h.directory.conditions in_progress })
          ∷ [])
        _ (apply_conclude law (record h { directory = d }) existing changes _ _ refl live))

-- ===== src/Startup/Order.antt =====
-- In which order the operator sets itself up, and how it exits.
use verify_directory_operato.Base.{
  ◌≡◌, ◌⊎◌, inl, inr, refl, Bool, true, false, if◌then◌else◌, Option, none, some, List, [], ◌∷◌,
  ◌++◌, ap, sym, subst,
}
use verify_directory_operato.Kube.{Error}
use verify_directory_operato.Startup.{
  SetupCall, new_manager, setup_controller, setup_webhook, add_healthz_check, add_readyz_check,
  start, Runtime, Exit, Flags, Parsed, flags_set, help_asked, bad_flag, default_flags,
  manager_options, or_exit, set_up, main,
}

-- What an operator sets up, in order: it starts last.
abbrev pub plan : Flags → List SetupCall
plan flags =
    new_manager (manager_options flags)
    ∷ setup_controller
    ∷ setup_webhook
    ∷ add_healthz_check "healthz"
    ∷ add_readyz_check "readyz"
    ∷ start
    ∷ []

-- Every call is granted, from a world on.
abbrev pub AllGranted : {W : Type 0} → Runtime W → List SetupCall → W → Type 0
AllGranted R [] w = Unit {0}
AllGranted R (c ∷ calls) w = ((R.call c w).0 ≡ none) × AllGranted R calls (R.call c w).1

-- Every call up to one is granted, and that one, which ends the list, fails.
abbrev pub LastFails : {W : Type 0} → Runtime W → List SetupCall → W → Type 0
LastFails R [] w = ⊥
LastFails R (c ∷ []) w = (e : Error) × ((R.call c w).0 ≡ some e)
LastFails R (c ∷ d ∷ calls) w = ((R.call c w).0 ≡ none) × LastFails R (d ∷ calls) (R.call c w).1

-- The process ends with the code 0 after the whole plan, or with the code 1 at the first call of the
-- plan that fails.
abbrev pub ExitsAfter : {W : Type 0} → Runtime W → List SetupCall → W → Exit → Type 0
ExitsAfter R calls w end =
    ((end.code ≡ 0) × (end.calls ≡ calls) × AllGranted R calls w)
    ⊎ ((end.code ≡ 1)
        × ((rest : List SetupCall) × (calls ≡ end.calls ++ rest))
        × LastFails R end.calls w)

module _ {W : Type 0} (R : Runtime W) where
  -- How the process ends, by what became of the command line and of the cluster's configuration.
  abbrev pub Ends : Parsed → Bool → W → Exit → Type 0
  Ends (flags_set flags) true w end = ExitsAfter R (plan flags) w end
  Ends (flags_set flags) false w end = (end.code ≡ 1) × (end.calls ≡ [])
  Ends help_asked found w end = (end.code ≡ 0) × (end.calls ≡ [])
  Ends bad_flag found w end = (end.code ≡ 2) × (end.calls ≡ [])

  LastFails-cons :
      (c : SetupCall) (calls : List SetupCall) (w : W)
      → (R.call c w).0 ≡ none
      → LastFails R calls (R.call c w).1
      → LastFails R (c ∷ calls) w
  LastFails-cons c [] w e h = absurd h
  LastFails-cons c (d ∷ calls) w e h = (e, h)

  module _ (c : SetupCall) (rest : W → Exit) (w : W) where
    or_exit-none :
        (R.call c w).0 ≡ none
        → or_exit R c rest w
          ≡ record { code = (rest (R.call c w).1).code; calls = c ∷ (rest (R.call c w).1).calls }
    unfolding or_exit
    or_exit-none e = rw (e, or_exit) refl

    or_exit-some :
        (x : Error)
        → (R.call c w).0 ≡ some x
        → or_exit R c rest w ≡ record { code = 1; calls = c ∷ [] }
    unfolding or_exit
    or_exit-some x e = rw (e, or_exit) refl

  or_exit-ExitsAfter :
      (c : SetupCall) (calls : List SetupCall) (rest : W → Exit)
      → ((w : W) → ExitsAfter R calls w (rest w))
      → (w : W) → ExitsAfter R (c ∷ calls) w (or_exit R c rest w)
  or_exit-ExitsAfter c calls rest h w = cases (R.call c w).0 refl (h (R.call c w).1)
    where
      IsEnd : Exit → Type 0
      IsEnd end = ExitsAfter R (c ∷ calls) w end

      cases :
          (err : Option Error)
          → (R.call c w).0 ≡ err
          → ExitsAfter R calls (R.call c w).1 (rest (R.call c w).1)
          → ExitsAfter R (c ∷ calls) w (or_exit R c rest w)
      cases (some x) e done =
          subst IsEnd (sym (or_exit-some c rest w x e)) (inr (refl, (calls, refl), (x, e)))
      cases none e (inl (code, all, granted)) =
          subst IsEnd (sym (or_exit-none c rest w e))
            (inl (code, ap (λ l. c ∷ l) all, (e, granted)))
      cases none e (inr (code, (left, split), fails)) =
          subst IsEnd (sym (or_exit-none c rest w e))
            (inr (code, (left, ap (λ l. c ∷ l) split), LastFails-cons c _ w e fails))

  set_up-ExitsAfter : (flags : Flags) (w : W) → ExitsAfter R (plan flags) w (set_up R flags w)
  unfolding set_up
  set_up-ExitsAfter flags = or_exit-ExitsAfter _ _ _ (
      or_exit-ExitsAfter _ _ _ (
        or_exit-ExitsAfter _ _ _ (
          or_exit-ExitsAfter _ _ _
            (or_exit-ExitsAfter _ _ _ (or_exit-ExitsAfter _ [] _ (λ w. inl (refl, refl, tt)))))))

  -- The process makes no call and exits with the code 0 where help is asked for, 2 on a bad flag, and
  -- 1 where the configuration of the cluster is not found. Otherwise it makes the calls of its plan
  -- in order, with the options that the flags give: the manager, the controller, the webhook, the
  -- two checks, and the start last. It exits with the code 0 after all of them, each granted, or
  -- with the code 1 at the first that fails.
  pub main-ExitsAfter : (w : W) → Ends (R.parse default_flags) (R.has_config w) w (main R w)
  unfolding main
  main-ExitsAfter w = cases (R.parse default_flags) (R.has_config w)
    where
      cases :
          (parsed : Parsed) (found : Bool)
          → Ends parsed found w (elim parsed [
            | flags_set flags ↦ if found then set_up R flags w else record { code = 1; calls = [] }
            | help_asked ↦ record { code = 0; calls = [] }
            | bad_flag ↦ record { code = 2; calls = [] }
          ])
      cases (flags_set flags) true = set_up-ExitsAfter flags w
      cases (flags_set flags) false = (refl, refl)
      cases help_asked found = (refl, refl)
      cases bad_flag found = (refl, refl)

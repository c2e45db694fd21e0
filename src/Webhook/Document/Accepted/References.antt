-- ===== src/Webhook/Document/Accepted/References.antt =====
-- The references of a document that are there, and the checks of one of them.
use verify_directory_operato.Base.{
  ◌≡◌, refl, Bool, true, ◌||◌, Option, none, some, String, ◌==◌, eq_refl, eq_refl, Bool-cases, inl,
  inr, arith,
}
use verify_directory_operato.Base.Dict.{has}
use verify_directory_operato.Api.{Directory, ConfigMapEntry, EnvFromSource, SourceRef}
use verify_directory_operato.Kube.{
  M, Env, granted, ConfigMap, Request, Reply, get_pvc, get_config_map, get_secret,
}
use verify_directory_operato.Kube.Completes.{
  Completes, Any, Completes-bind, Completes-pure, Completes-settled, Completes-granted,
  Completes-ask,
}
use verify_directory_operato.Webhook.Document.{
  is_required, check_unique, or_missing, validate_pvc, check_key, validate_config_map,
  validate_secret, check_map_ref, check_secret_ref, check_env_from,
}
use verify_directory_operato.Webhook.Document.Unique.{has_distinct_pvcs, check_unique_iff}

-- A request that is granted whenever it is made.
abbrev pub Grants : {W : Type 0} → Env W → Request → Type 0
Grants {W} E q = (w : W) → (a : Reply q) × ((E.answer q w).0 ≡ granted a)

abbrev has_entry : ConfigMapEntry → ConfigMap → Bool
has_entry entry config = entry.key == "" || has entry.key config.entries

-- A config map that is there with the key of the entry, if that has one.
abbrev pub HoldsKey : {W : Type 0} → Env W → String → ConfigMapEntry → Type 0
HoldsKey {W} E ns entry =
    (w : W)
    → (config : ConfigMap) × ((E.answer (get_config_map ns entry.name) w).0 ≡ granted config)
      × (has_entry entry config ≡ true)

-- A source of the environment whose config map and secret are there, where they are required.
abbrev pub IsThere : {W : Type 0} → Env W → String → EnvFromSource → Type 0
IsThere E ns source =
    ((ref : SourceRef)
      → source.config_map_ref ≡ some ref
      → is_required ref ≡ true
      → Grants E (get_config_map ns ref.name))
    × ((ref : SourceRef)
        → source.secret_ref ≡ some ref
        → is_required ref ≡ true
        → Grants E (get_secret ns ref.name))

module _ {W : Type 0} (E : Env W) where
  or_missing-Completes :
      {A : Type 0} (Q : A → Type 0) (message : String) (m : M W A)
      → Completes Q m
      → Completes Q (or_missing E message m)
  unfolding or_missing
  or_missing-Completes Q message m h = Completes-settled Q Q m _ _ h (λ a q. Completes-pure Q a q)

  pub validate_pvc-Completes :
      (d : Directory) (name : String)
      → Grants E (get_pvc d.namespace name)
      → Completes Any (validate_pvc E d name)
  unfolding validate_pvc
  validate_pvc-Completes d name there =
      or_missing-Completes Any _ _ (Completes-ask E (get_pvc d.namespace name) there)

  check_key-Completes :
      (entry : ConfigMapEntry) (config : ConfigMap)
      → has_entry entry config ≡ true
      → Completes Any (check_key E entry config)
  unfolding check_key
  check_key-Completes entry config e = elim (Bool-cases (entry.key == "")) [
    | inl p ↦ rw (p, check_key) (Completes-pure Any tt tt)
    | inr p ↦
        let q : has entry.key config.entries ≡ true = ground (arith, e, p) in
        rw (p, q, check_key) (Completes-pure Any tt tt)
  ]

  pub validate_config_map-Completes :
      (d : Directory) (entry : ConfigMapEntry)
      → HoldsKey E d.namespace entry
      → Completes Any (validate_config_map E d entry)
  unfolding validate_config_map
  validate_config_map-Completes d entry held =
      Completes-bind (λ config. has_entry entry config ≡ true) Any _ _
        (or_missing-Completes _ _ _
          (Completes-granted E (get_config_map d.namespace entry.name) _ held))
        (check_key-Completes entry)

  validate_secret-Completes :
      (d : Directory) (name : String)
      → Grants E (get_secret d.namespace name)
      → Completes Any (validate_secret E d name)
  unfolding validate_secret
  validate_secret-Completes d name there =
      Completes-bind Any Any _ _
        (or_missing-Completes Any _ _ (Completes-ask E (get_secret d.namespace name) there))
        (λ _ _. Completes-pure Any tt tt)

  check_map_ref-Completes :
      (d : Directory) (held : Option SourceRef)
      → ((ref : SourceRef)
          → held ≡ some ref
          → is_required ref ≡ true
          → Grants E (get_config_map d.namespace ref.name))
      → Completes Any (check_map_ref E d held)
  unfolding check_map_ref
  check_map_ref-Completes d none there = Completes-pure Any tt tt
  check_map_ref-Completes d (some ref) there = elim (Bool-cases (is_required ref)) [
    | inl p ↦
        rw (p, check_map_ref)
          (validate_config_map-Completes d (record { name = ref.name; key = "" })
            λ w. let (config, e) = there ref refl p w in (config, e, ground (arith, eq_refl "")))
    | inr p ↦ rw (p, check_map_ref) (Completes-pure Any tt tt)
  ]

  check_secret_ref-Completes :
      (d : Directory) (held : Option SourceRef)
      → ((ref : SourceRef)
          → held ≡ some ref
          → is_required ref ≡ true
          → Grants E (get_secret d.namespace ref.name))
      → Completes Any (check_secret_ref E d held)
  unfolding check_secret_ref
  check_secret_ref-Completes d none there = Completes-pure Any tt tt
  check_secret_ref-Completes d (some ref) there = elim (Bool-cases (is_required ref)) [
    | inl p ↦ rw (p, check_secret_ref) (validate_secret-Completes d ref.name (there ref refl p))
    | inr p ↦ rw (p, check_secret_ref) (Completes-pure Any tt tt)
  ]

  pub check_env_from-Completes :
      (d : Directory) (source : EnvFromSource)
      → IsThere E d.namespace source
      → Completes Any (check_env_from E d source)
  unfolding check_env_from
  check_env_from-Completes d source there =
      Completes-bind Any Any _ _ (check_map_ref-Completes d source.config_map_ref there.0)
        (λ _ _. check_secret_ref-Completes d source.secret_ref there.1)

  pub check_unique-Completes :
      (d : Directory) → has_distinct_pvcs d ≡ true → Completes {W = W} Any (check_unique d)
  check_unique-Completes d distinct = record {
    at = λ w. (tt, (check_unique_iff d w).1 distinct, tt);
  }

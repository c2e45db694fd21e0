-- ===== src/Webhook/Document/Accepted.antt =====
-- Which documents validateDocument lets pass: those whose references are there.
pub mod References
use verify_directory_operato.Base.{
  ◌≡◌, refl, ap, ◌∙◌, Bool, true, false, ◌||◌, Option, none, some, String, [], ◌∷◌, ◌==◌, eq_refl,
  eq_refl, Bool-cases, inl, inr, arith,
}
use verify_directory_operato.Base.Lists.{All}
use verify_directory_operato.Base.Dict.{has}
use verify_directory_operato.Api.{Directory, elements, ConfigMapEntry, EnvFromSource, SourceRef}
use verify_directory_operato.Yaml.{Value, null, convert_yaml}
use verify_directory_operato.Yaml.Lookup.{path_value}
use verify_directory_operato.Kube.{
  M, Env, Answer, granted, ConfigMap, Request, Reply, get_pvc, get_config_map, get_secret,
}
use verify_directory_operato.Kube.Completes.{
  Completes, Any, Completes-bind, Completes-pure, Completes-settled, Completes-granted,
  Completes-ask, Completes-each-All,
}
use verify_directory_operato.Controller.Configured.{
  Holds, from_answer-Completes, or_panic-Completes, value-Completes,
}
use verify_directory_operato.Webhook.Document.{
  is_required, check_unique, or_missing, validate_pvc, check_key, validate_config_map,
  validate_secret, check_map_ref, check_secret_ref, check_env_from, check_absent,
  validate_proxy_config_map, check_proxy_pvc, validate_document,
}
use verify_directory_operato.Controller.ServerConfig.{entry_of}
use verify_directory_operato.Webhook.Document.Unique.{has_distinct_pvcs, check_unique_iff}
use References.{
  Grants, HoldsKey, IsThere, validate_pvc-Completes, validate_config_map-Completes,
  check_env_from-Completes, check_unique-Completes,
}

-- The base configuration of the proxy can be decoded, and lacks what the operator generates.
abbrev pub LacksGenerated : (String → Answer Value) → String → Type 0
LacksGenerated decode s =
    (raw body : Value) × (decode s ≡ granted raw)
    × (convert_yaml raw ≡ some body)
    × (path_value body ("proxy" ∷ "server-groups" ∷ []) ≡ null)
    × (path_value body ("proxy" ∷ "suffixes" ∷ []) ≡ null)

-- What a document refers to is there.
pub record Resolves {W : Type 0} (E : Env W) (decode : String → Answer Value) (d : Directory)
    : Type 0 where
  pub pvcs : All (λ pvc. Grants E (get_pvc d.namespace pvc)) d.spec.pvcs
  pub proxy_pvc :
      (d.spec.pods.proxy.pvc == "") ≡ false → Grants E (get_pvc d.namespace d.spec.pods.proxy.pvc)
  pub proxy : HoldsKey E d.namespace d.spec.pods.config_map.proxy
  pub server : HoldsKey E d.namespace d.spec.pods.config_map.server
  pub env_from : All (IsThere E d.namespace) (elements d.spec.pods.env_from)
  pub base :
      Holds E d.namespace d.spec.pods.config_map.proxy.name d.spec.pods.config_map.proxy.key
        (LacksGenerated decode)

module _ {W : Type 0} (E : Env W) (decode : String → Answer Value) where
  check_proxy_pvc-Completes :
      (d : Directory)
      → ((d.spec.pods.proxy.pvc == "") ≡ false
          → Grants E (get_pvc d.namespace d.spec.pods.proxy.pvc))
      → Completes Any (check_proxy_pvc E decode d)
  unfolding check_proxy_pvc
  check_proxy_pvc-Completes d there = elim (Bool-cases (d.spec.pods.proxy.pvc == "")) [
    | inl p ↦ rw (p, check_proxy_pvc) (Completes-pure Any tt tt)
    | inr p ↦ rw (p, check_proxy_pvc) (validate_pvc-Completes E d _ (there p))
  ]

  check_absent-Completes :
      (d : Directory) (body : Value) (entry : String)
      → path_value body ("proxy" ∷ entry ∷ []) ≡ null
      → Completes Any (check_absent E decode d body entry)
  unfolding check_absent
  check_absent-Completes d body entry absent =
      Completes-bind (λ v. v ≡ null) Any _ _
        (value-Completes E (λ v. v ≡ null) body "proxy" (entry ∷ []) d.namespace absent)
        λ v e. rw (e) (Completes-pure Any tt tt)

  validate_proxy_config_map-Completes :
      (d : Directory)
      → Holds E d.namespace d.spec.pods.config_map.proxy.name d.spec.pods.config_map.proxy.key
          (LacksGenerated decode)
      → Completes Any (validate_proxy_config_map E decode d)
  unfolding validate_proxy_config_map
  validate_proxy_config_map-Completes d held =
      let proxy = d.spec.pods.config_map.proxy in
      Completes-bind (λ config. LacksGenerated decode (entry_of proxy.key config.entries)) Any _ _
        (Completes-granted E (get_config_map d.namespace proxy.name) _ held)
        λ config lacks.
          let (raw, body, e, converted, groups, suffixes) = lacks in
          Completes-bind (λ v. v ≡ raw) Any _ _ (from_answer-Completes _ _ raw e refl)
            λ v same.
              Completes-bind (λ v. v ≡ body) Any _ _
                (or_panic-Completes _ _ body (ap convert_yaml same ∙ converted) refl)
                λ v same'.
                  Completes-each-All (λ entry. path_value v ("proxy" ∷ entry ∷ []) ≡ null) _
                    (check_absent-Completes d v) ("server-groups" ∷ "suffixes" ∷ [])
                    (rw (same') (groups, (suffixes, tt)))

  -- A document with distinct PVCs passes where everything that it refers to is there.
  pub validate_document-Completes :
      (d : Directory)
      → has_distinct_pvcs d ≡ true
      → Resolves E decode d
      → Completes Any (validate_document E decode d)
  unfolding validate_document
  validate_document-Completes d distinct there =
      Completes-bind Any Any _ _
        (Completes-each-All _ _ (validate_pvc-Completes E d) d.spec.pvcs there.pvcs)
        λ _ _. Completes-bind Any Any _ _ (check_proxy_pvc-Completes d there.proxy_pvc) λ _ _.
          Completes-bind Any Any _ _ (check_unique-Completes E d distinct) λ _ _.
            Completes-bind Any Any _ _
              (Completes-each-All (HoldsKey E d.namespace) _ (validate_config_map-Completes E d) _
                (there.proxy, (there.server, tt)))
              λ _ _.
                Completes-bind Any Any _ _
                  (Completes-each-All _ _ (check_env_from-Completes E d)
                    (elements d.spec.pods.env_from) there.env_from)
                  (λ _ _. validate_proxy_config_map-Completes d there.base)

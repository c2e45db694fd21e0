-- ===== src/Webhook/Document/Requests.antt =====
-- The requests of validateDocument.
use verify_directory_operato.Base.{
  ◌≡◌, refl, true, false, Option, none, some, String, [], ◌==◌, if◌then◌else◌,
}
use verify_directory_operato.Base.Dict.{contains}
use verify_directory_operato.Api.{Directory, ConfigMapEntry, EnvFromSource, SourceRef}
use verify_directory_operato.Yaml.{Value, convert_yaml}
use verify_directory_operato.Yaml.Requests.{Emits-get_yaml_value}
use verify_directory_operato.Kube.{
  M, Env, Answer, Request, ConfigMap, get_pvc, get_config_map, get_secret, pure, raise,
}
use verify_directory_operato.Kube.Rules.{
  Emits, Emits-pure, Emits-raise, Emits-if, Emits-bind, Emits-ask, Emits-each, Emits-or_panic,
}
use verify_directory_operato.Controller.Pods.Requests.{is_read, emits_rules}
use verify_directory_operato.Controller.ServerConfig.Requests.{Emits-from_answer}
use verify_directory_operato.Webhook.Document.{
  first_repeated, repeated_error, check_unique, or_missing, validate_pvc, check_key,
  validate_config_map, validate_secret, check_map_ref, check_secret_ref, check_env_from,
  check_absent, validate_proxy_config_map, check_proxy_pvc, validate_document,
}

module _ {W : Type 0} (E : Env W) (P : Request → Type 0)
    (reads : (q : Request) → is_read q ≡ true → P q) where
  Emits-check_unique : (d : Directory) → Emits {W = W} P (check_unique d)
  unfolding check_unique
  Emits-check_unique d = verdict (first_repeated [] d.spec.pvcs)
    where
      verdict :
          (o : Option String)
          → Emits {W = W} P (elim o [
            | some pvc ↦ raise (repeated_error pvc)
            | none ↦
                if d.spec.pods.proxy.pvc == ""
                then pure tt
                else if contains d.spec.pods.proxy.pvc d.spec.pvcs
                then raise (repeated_error d.spec.pods.proxy.pvc)
                else pure tt
          ])
      verdict none = search emits_rules
      verdict (some pvc) = Emits-raise P (repeated_error pvc)

  Emits-or_missing :
      {A : Type 0} (message : String) (m : M W A) → Emits P m → Emits P (or_missing E message m)
  unfolding or_missing
  Emits-or_missing message m hm = search emits_rules depth 9

  Emits-validate_pvc : (d : Directory) (name : String) → Emits P (validate_pvc E d name)
  unfolding validate_pvc
  Emits-validate_pvc d name =
      Emits-or_missing _ _ (Emits-ask E P _ (reads (get_pvc d.namespace name) refl))

  Emits-check_key :
      (entry : ConfigMapEntry) (config : ConfigMap) → Emits P (check_key E entry config)
  unfolding check_key
  Emits-check_key entry config = search emits_rules

  Emits-validate_config_map :
      (d : Directory) (entry : ConfigMapEntry) → Emits P (validate_config_map E d entry)
  unfolding validate_config_map
  Emits-validate_config_map d entry =
      Emits-bind P _ _
        (Emits-or_missing _ _
          (Emits-ask E P _ (reads (get_config_map d.namespace entry.name) refl)))
        (λ config. Emits-check_key entry config)

  Emits-validate_secret : (d : Directory) (name : String) → Emits P (validate_secret E d name)
  unfolding validate_secret
  Emits-validate_secret d name =
      Emits-bind P _ _
        (Emits-or_missing _ _ (Emits-ask E P _ (reads (get_secret d.namespace name) refl)))
        (λ _. Emits-pure P tt)

  Emits-check_map_ref : (d : Directory) (o : Option SourceRef) → Emits P (check_map_ref E d o)
  unfolding check_map_ref
  Emits-check_map_ref d none = Emits-pure P tt
  Emits-check_map_ref d (some ref) =
      Emits-if P _ _ _ (Emits-validate_config_map d _) (Emits-pure P tt)

  Emits-check_secret_ref : (d : Directory) (o : Option SourceRef) → Emits P (check_secret_ref E d o)
  unfolding check_secret_ref
  Emits-check_secret_ref d none = Emits-pure P tt
  Emits-check_secret_ref d (some ref) =
      Emits-if P _ _ _ (Emits-validate_secret d ref.name) (Emits-pure P tt)

  Emits-check_env_from :
      (d : Directory) (source : EnvFromSource) → Emits P (check_env_from E d source)
  unfolding check_env_from
  Emits-check_env_from d source =
      Emits-bind P _ _ (Emits-check_map_ref d source.config_map_ref)
        (λ _. Emits-check_secret_ref d source.secret_ref)

  module _ (decode : String → Answer Value) where
    Emits-check_absent :
        (d : Directory) (body : Value) (entry : String)
        → Emits P (check_absent E decode d body entry)
    unfolding check_absent
    Emits-check_absent d body entry =
        Emits-bind P _ _
          (Emits-get_yaml_value E P (λ ns name. reads (get_secret ns name) refl) body _ _ false _)
          (λ found. Emits-if P _ _ _ (Emits-pure P tt) (Emits-raise P _))

    Emits-validate_proxy_config_map :
        (d : Directory) → Emits P (validate_proxy_config_map E decode d)
    unfolding validate_proxy_config_map
    Emits-validate_proxy_config_map d =
        Emits-bind P _ _
          (Emits-ask E P (get_config_map d.namespace d.spec.pods.config_map.proxy.name)
            (reads (get_config_map d.namespace d.spec.pods.config_map.proxy.name) refl))
          λ config. Emits-bind P _ _ (Emits-from_answer P _) λ body.
            Emits-bind P _ _ (Emits-or_panic P (convert_yaml body))
              λ converted. Emits-each P _ (Emits-check_absent d converted) _

    pub Emits-validate_document : (d : Directory) → Emits P (validate_document E decode d)
    unfolding validate_document check_proxy_pvc
    Emits-validate_document d = Emits-bind P _ _ (Emits-each P _ (Emits-validate_pvc d) _) λ _.
        Emits-bind P _ _ (Emits-if P _ _ _ (Emits-pure P tt) (Emits-validate_pvc d _)) λ _.
          Emits-bind P _ _ (Emits-check_unique d) λ _.
            Emits-bind P _ _ (Emits-each P _ (Emits-validate_config_map d) _) λ _.
              Emits-bind P _ _ (Emits-each P _ (Emits-check_env_from d) _)
                λ _. Emits-validate_proxy_config_map d

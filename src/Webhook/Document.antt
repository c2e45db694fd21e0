-- ===== src/Webhook/Document.antt =====
-- validateDocument and the checks that it makes.
pub mod Unique
pub mod Requests
pub mod Accepted
use verify_directory_operato.Base.{
  Bool, true, false, Option, none, some, String, ◌<>◌, List, [], ◌∷◌, if◌then◌else◌, ◌==◌,
}
use verify_directory_operato.Base.Dict.{has, contains}
use verify_directory_operato.Api.{Directory, elements, ConfigMapEntry, EnvFromSource, SourceRef}
use verify_directory_operato.Yaml.{Value, null, convert_yaml, get_yaml_value, is_nil}
use verify_directory_operato.Kube.{
  M, Env, on_answer, Error, Answer, granted, refused, ConfigMap, get_pvc, get_config_map,
  get_secret, pure, raise, or_panic, ask, settle, each, ◌>>=◌, ◌>>◌,
}
use verify_directory_operato.Controller.Handle.{new_error}
use verify_directory_operato.Controller.Objects.{is_not_found}
use verify_directory_operato.Controller.ServerConfig.{entry_of, from_answer}

-- The first PVC that stands in the list of those before it or in the given ones.
unfoldable pub first_repeated : List String → List String → Option String
first_repeated seen [] = none
first_repeated seen (pvc ∷ pvcs) =
    let rest = first_repeated (pvc ∷ seen) pvcs in if contains pvc seen then some pvc else rest

repeated_error : String → Error
repeated_error pvc = new_error (
    "The document contains a PVC which is referenced more than once: "
    <> (pvc <> ".  Each PVC in the document must be unique."))

-- The two loops over allPVCs.
unfoldable pub check_unique : {W : Type 0} → Directory → M W (Unit {0})
unfolding repeated_error
check_unique d = elim (first_repeated [] d.spec.pvcs) [
  | some pvc ↦ raise (repeated_error pvc)
  | none ↦
      if d.spec.pods.proxy.pvc == ""
      then pure tt
      else if contains d.spec.pods.proxy.pvc d.spec.pvcs
      then raise (repeated_error d.spec.pods.proxy.pvc)
      else pure tt
]

-- `optional == nil || *optional == false`
abbrev pub is_required : SourceRef → Bool
is_required ref = elim ref.optional [ some true ↦ false | _ ↦ true ]

module _ {W : Type 0} (E : Env W) where
  -- `k8serrors.IsNotFound(err)`, and the message that then takes the error's place.
  or_missing : {A : Type 0} → String → M W A → M W A
  or_missing message m = do
    found ← settle m
    on_answer found (λ a. pure a)
        (λ e. if is_not_found e then raise (new_error message) else raise e)

  -- validatePVC
  unfoldable pub validate_pvc : Directory → String → M W (Unit {0})
  unfolding or_missing
  validate_pvc d name =
      or_missing ("The PVC, " <> (name <> ", doesn't exist!")) (ask E (get_pvc d.namespace name))

  check_key : ConfigMapEntry → ConfigMap → M W (Unit {0})
  check_key entry config =
      if entry.key == ""
      then pure tt
      else if has entry.key config.entries
      then pure tt
      else raise (
          new_error (
            "The ConfigMap, "
            <> (entry.name <> (", does not contain the " <> (entry.key <> " key!")))))

  -- validateConfigMap
  unfoldable pub validate_config_map : Directory → ConfigMapEntry → M W (Unit {0})
  unfolding or_missing check_key
  validate_config_map d entry = do
    config ←
        or_missing ("The ConfigMap, " <> (entry.name <> ", doesn't exist!"))
          (ask E (get_config_map d.namespace entry.name))
    check_key entry config

  -- validateSecret
  unfoldable pub validate_secret : Directory → String → M W (Unit {0})
  unfolding or_missing
  validate_secret d name = do
    or_missing ("The secret, " <> (name <> ", doesn't exist!"))
        (ask E (get_secret d.namespace name))
    pure tt

  check_map_ref : Directory → Option SourceRef → M W (Unit {0})
  check_map_ref d none = pure tt
  check_map_ref d (some ref) =
      if is_required ref
      then validate_config_map d (record { name = ref.name; key = "" })
      else pure tt

  check_secret_ref : Directory → Option SourceRef → M W (Unit {0})
  check_secret_ref d none = pure tt
  check_secret_ref d (some ref) = if is_required ref then validate_secret d ref.name else pure tt

  -- The body of the loop over EnvFrom.
  unfoldable pub check_env_from : Directory → EnvFromSource → M W (Unit {0})
  unfolding check_map_ref check_secret_ref
  check_env_from d source = do
    check_map_ref d source.config_map_ref
    check_secret_ref d source.secret_ref

module _ {W : Type 0} (E : Env W) (decode : String → Answer Value) where
  -- The body of the loop over the entries that the operator generates itself.
  check_absent : Directory → Value → String → M W (Unit {0})
  check_absent d body entry = do
    found ← get_yaml_value E body ("proxy" ∷ entry ∷ []) false d.namespace
    if is_nil found
        then pure tt
        else raise (
            new_error (
              "The proxy ConfigMap key, "
              <> (d.spec.pods.config_map.proxy.name
                  <> (":"
                      <> (d.spec.pods.config_map.proxy.key
                          <> (", includes the proxy."
                              <> (entry
                                  <> " configuration entry. This is not allowed as this entry will be generated by the operator.")))))))

  -- validateProxyConfigMap
  unfoldable pub validate_proxy_config_map : Directory → M W (Unit {0})
  unfolding check_absent
  validate_proxy_config_map d = do
    let proxy = d.spec.pods.config_map.proxy
    config ← ask E (get_config_map d.namespace proxy.name)
    body ← from_answer (decode (entry_of proxy.key config.entries))
    converted ← or_panic (convert_yaml body)
    each (check_absent d converted) ("server-groups" ∷ "suffixes" ∷ [])

  check_proxy_pvc : Directory → M W (Unit {0})
  check_proxy_pvc d =
      if d.spec.pods.proxy.pvc == "" then pure tt else validate_pvc E d d.spec.pods.proxy.pvc

  -- validateDocument
  unfoldable pub validate_document : Directory → M W (Unit {0})
  unfolding check_proxy_pvc
  validate_document d = do
    each (validate_pvc E d) d.spec.pvcs
    check_proxy_pvc d
    check_unique d
    each (validate_config_map E d)
        (d.spec.pods.config_map.proxy ∷ d.spec.pods.config_map.server ∷ [])
    each (check_env_from E d) (elements d.spec.pods.env_from)
    validate_proxy_config_map d

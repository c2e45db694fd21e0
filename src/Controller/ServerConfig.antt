-- ===== src/Controller/ServerConfig.antt =====
-- src/controllers/ibmsecurityverifydirectory_config.go: the server's configuration, read from a
-- config map. The decoder yaml.Unmarshal is the parameter `decode`.
pub mod Port
pub mod Requests
use verify_directory_operato.Base.{
  Bool, true, false, Option, none, some, String, List, [], ◌∷◌, ◌++◌, if◌then◌else◌,
}
use verify_directory_operato.Base.Int.{ℤ, pos, to_int32, is_zero}
use verify_directory_operato.Base.Dict
use verify_directory_operato.Kube.{
  M, Env, Error, Answer, granted, refused, get_config_map, pure, raise, panics, or_panic, ask,
  ◌>>=◌, ◌>>◌,
}
use verify_directory_operato.Yaml.{
  Value, null, text, int, seq, dict, Items, nil, cons, convert_yaml, get_yaml_value, as_text,
}
use verify_directory_operato.Controller.Handle.{ServerConfig, Handle, new_error}

-- config.Data[key]
abbrev pub entry_of : String → Dict.Dict String → String
entry_of key m = elim (Dict.lookup key m) [ none ↦ "" | some s ↦ s ]

abbrev pub from_answer : {W A : Type 0} → Answer A → M W A
from_answer (granted a) = pure a
from_answer (refused e) = raise e

-- body.(map[string]interface{}), and the error of the callers where it is no map.
abbrev pub as_dict : {W : Type 0} → String → Value → M W Value
as_dict message (dict fs) = pure (dict fs)
as_dict message _ = raise (new_error message)

-- `v != nil` with v.(int) and int32(v); `none` is nil.
abbrev pub as_port : {W : Type 0} → String → Value → M W (Option ℤ)
as_port message null = pure none
as_port message (int i) = pure (some (to_int32 i))
as_port message _ = raise (new_error message)

-- v.(string) of a value that must be there, and of one with a default.
abbrev pub required : {W : Type 0} → String → Value → M W String
required message null = raise (new_error message)
required message v = or_panic (as_text v)

abbrev pub or_default : {W : Type 0} → String → Value → M W String
or_default d null = pure d
or_default d v = or_panic (as_text v)

module _ {W : Type 0} (E : Env W) (decode : String → Answer Value) where
  -- The document under a key of a config map, decoded and converted.
  unfoldable pub read_document : String → String → String → M W Value
  read_document namespace name key = do
    config ← ask E (get_config_map namespace name)
    body ← from_answer (decode (entry_of key config.entries))
    converted ← or_panic (convert_yaml body)
    as_dict "The server configuration cannot be parsed." converted

  -- The port of a server or proxy and whether it is the secure one: general.ports.ldap, and
  -- general.ports.ldaps where the former is 0.
  unfoldable pub secure_port : Value → String → M W (ℤ × Bool)
  secure_port body namespace = do
    ldaps ← get_yaml_value E body ("general" ∷ "ports" ∷ "ldaps" ∷ []) true namespace
    port ← as_port "The general.ports.ldaps configuration is incorrect." ldaps
    elim port [ none ↦ pure (pos 9636, true) | some p ↦ pure (p, true) ]

  unfoldable pub ldap_port : Value → String → M W (ℤ × Bool)
  unfolding secure_port
  ldap_port body namespace = do
    ldap ← get_yaml_value E body ("general" ∷ "ports" ∷ "ldap" ∷ []) true namespace
    port ← as_port "The general.ports.ldap configuration is incorrect." ldap
    elim port [
      | none ↦ pure (pos 9389, false)
      | some p ↦ if is_zero p then secure_port body namespace else pure (p, false)
    ]

  -- One entry of server.suffixes: its dn. A dn that is missing or no text panics.
  unfoldable pub suffix_dn : String → Value → M W String
  suffix_dn namespace (dict fs) = do
    dn ← get_yaml_value E (dict fs) ("dn" ∷ []) false namespace
    or_panic (as_text dn)
  suffix_dn namespace _ = raise (new_error "The server.suffixes configuration is incorrect.")

  unfoldable pub suffix_dns : String → Items → M W (List String)
  suffix_dns namespace nil = pure []
  suffix_dns namespace (cons entry entries) = do
    dn ← suffix_dn namespace entry
    dns ← suffix_dns namespace entries
    pure (dn ∷ dns)

  unfoldable pub suffixes_of : String → Value → M W (List String)
  suffixes_of namespace null = raise (new_error "The server.suffixes configuration is missing.")
  suffixes_of namespace (seq entries) = suffix_dns namespace entries
  suffixes_of namespace _ = raise (new_error "The server.suffixes configuration is incorrect.")

  -- getConfigSuffixes
  unfoldable pub get_config_suffixes : Value → String → M W (List String)
  unfolding suffix_dn suffix_dns suffixes_of
  get_config_suffixes body namespace = do
    entries ← get_yaml_value E body ("server" ∷ "suffixes" ∷ []) false namespace
    suffixes_of namespace entries

  -- The part of getServerConfig after the decoding.
  unfoldable pub config_of : Value → String → M W ServerConfig
  config_of body namespace = do
    port ← ldap_port body namespace
    license ← get_yaml_value E body ("general" ∷ "license" ∷ "key" ∷ []) false namespace
    license_key ← required "The general.license.key configuration is missing." license
    dn ← get_yaml_value E body ("general" ∷ "admin" ∷ "dn" ∷ []) false namespace
    admin_dn ← or_default "cn=root" dn
    pwd ← get_yaml_value E body ("general" ∷ "admin" ∷ "pwd" ∷ []) false namespace
    admin_pwd ← required "The general.admin.pwd configuration is missing." pwd
    suffixes ← get_config_suffixes body namespace
    pure (record {
      port = port.0;
      secure = port.1;
      license_key = license_key;
      admin_dn = admin_dn;
      admin_pwd = admin_pwd;
      suffixes = suffixes;
    })

  -- getServerConfig: the handle with its configuration.
  unfoldable pub get_server_config : Handle → M W Handle
  get_server_config h = do
    let server = h.directory.spec.pods.config_map.server
    body ← read_document h.directory.namespace server.name server.key
    config ← config_of body h.directory.namespace
    pure (record h { config = config })

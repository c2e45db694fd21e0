-- ===== src/Webhook/Master.antt =====
-- getPrimaryWriteMasters: which PVC the LDAP proxy currently writes to.
pub mod Requests
pub mod Contact
pub mod Named
use Prim.Native.Char.{Char, code}
use Prim.Native.String.{[] as empty_text, ◌∷◌ as ◌◂◌}
use verify_directory_operato.Base.{
  Bool, true, false, ◌&&◌, ◌||◌, Option, none, some, String, ◌<>◌, List, [], ◌∷◌, if◌then◌else◌,
  ◌==◌, nat_eq,
}
use verify_directory_operato.Base.Int.{is_zero, itoa}
use verify_directory_operato.Base.Text.{to_lower}
use verify_directory_operato.Api.{Directory}
use verify_directory_operato.Names.{
  get_proxy_deployment_name, get_proxy_config_map_name, proxy_cm_key,
}
use verify_directory_operato.Yaml.{Value, null, int, convert_yaml, get_yaml_value, as_text}
use verify_directory_operato.Yaml.Secret.{strip}
use verify_directory_operato.Kube.{
  M, Env, Answer, LdapEntry, LdapAttribute, Service, get_service, get_config_map, ldap_dial,
  ldap_bind, ldap_search, ldap_close, pure, raise, or_panic, ask, settle, ◌>>=◌, ◌>>◌,
}
use verify_directory_operato.Controller.Handle.{new_error}
use verify_directory_operato.Controller.ServerConfig.{entry_of, from_answer, as_dict}

newline : Char → Bool
newline c = nat_eq (code c) 10

-- The expression that a name stands for: a dot is any character but a newline, and every other
-- character of a Kubernetes name is itself.
strip_pattern : String → String → Option String
unfolding newline
strip_pattern String.[] s = some s
strip_pattern (String.◌∷◌ p ps) String.[] = none
strip_pattern (String.◌∷◌ p ps) (String.◌∷◌ c s) =
    let rest = strip_pattern ps s in
    if nat_eq (code p) b'.'
    then if newline c then none else rest
    else if nat_eq (code p) (code c)
    then rest
    else none

-- `[^+,]*`
until_separator : String → String
until_separator String.[] = empty_text
until_separator (String.◌∷◌ c s) =
    let rest = until_separator s in
    if nat_eq (code c) b'+' || nat_eq (code c) b',' then empty_text else c ◂ rest

-- `(.[^+,]*)`
group : String → Option String
unfolding newline
group String.[] = none
group (String.◌∷◌ c s) = if newline c then none else some (c ◂ until_separator s)

-- The expression behind its `.*`, at the start of a text.
match_here : String → String → Option String
unfolding strip strip_pattern group until_separator
match_here name s = elim (strip "ibm-slapdProxyBackendServerName=" s) [
  | none ↦ none
  | some t ↦ elim (strip_pattern name t) [
    | none ↦ none
    | some u ↦ elim (strip "-" u) [ none ↦ none | some v ↦ group v ]
  ]
]

-- The last match on the first line.
in_line : String → String → Option String
unfolding match_here
in_line name String.[] = none
in_line name (String.◌∷◌ c s) =
    let later = in_line name s in
    if newline c
    then none
    else elim later [ some found ↦ some found | none ↦ match_here name (c ◂ s) ]

-- re.FindStringSubmatch(dn): the group of the leftmost match, whose `.*` is as long as it can be.
unfoldable pub find_master : String → String → Option String
unfolding in_line
find_master name String.[] = none
find_master name (String.◌∷◌ c s) =
    let below = find_master name s in
    elim (in_line name (c ◂ s)) [ some found ↦ some found | none ↦ below ]

unfoldable pub is_master : LdapAttribute → Bool
is_master attr = attr.name == "ibm-slapdProxyCurrentServerRole" && elim attr.values [
  | [] ↦ false
  | value ∷ more ↦ elim more [ [] ↦ value == "primarywriteserver" | other ∷ others ↦ false ]
]

-- The primaries that one entry adds, one for each attribute that names it the master.
attribute_masters : String → String → List LdapAttribute → List String → List String
unfolding is_master
attribute_masters name dn [] found = found
attribute_masters name dn (attr ∷ attrs) found = attribute_masters name dn attrs (
    if is_master attr
    then elim (find_master name dn) [ none ↦ found | some pvc ↦ pvc ∷ found ]
    else found)

-- The two loops over the search result.
unfoldable pub masters : String → List LdapEntry → List String → List String
unfolding attribute_masters
masters name [] found = found
masters name (entry ∷ entries) found =
    masters name entries (attribute_masters name entry.dn entry.attributes found)

abbrev proxy_port_is_zero : {W : Type 0} → Value → M W Bool
proxy_port_is_zero null = pure false
proxy_port_is_zero (int i) = pure (is_zero i)
proxy_port_is_zero _ = raise (new_error "The general.ports.ldap configuration is incorrect.")

abbrev admin_name : {W : Type 0} → Value → M W String
admin_name null = pure "cn=root"
admin_name v = or_panic (as_text v)

abbrev admin_password : {W : Type 0} → Value → M W String
admin_password null = raise (new_error "The general.admin.pwd configuration is missing.")
admin_password v = or_panic (as_text v)

module _ {W : Type 0} (E : Env W) (decode : String → Answer Value) where
  -- `defer l.Close()` around the bind and the search.
  closing : {A : Type 0} → M W A → M W A
  closing m = do done ← settle m; settle (ask E ldap_close); from_answer done

  -- The bind and the search, on an open connection.
  search_masters : Directory → String → String → M W (List String)
  search_masters d admin_dn admin_pwd = do
    ask E (ldap_bind admin_dn admin_pwd)
    found ← ask E (ldap_search "cn=partitions,cn=proxy,cn=monitor")
    elim found [
      | [] ↦ raise (new_error "The split information does not exist in the LDAP proxy.")
      | entry ∷ entries ↦ pure (masters (to_lower d.name) (entry ∷ entries) [])
    ]

  -- From the read of the port on.
  ask_proxy : Directory → Service → Value → M W (List String)
  unfolding closing search_masters
  ask_proxy d service document = do
    ldap ← get_yaml_value E document ("general" ∷ "ports" ∷ "ldap" ∷ []) true d.namespace
    secure ← proxy_port_is_zero ldap
    dn ← get_yaml_value E document ("general" ∷ "admin" ∷ "dn" ∷ []) true d.namespace
    admin_dn ← admin_name dn
    pwd ← get_yaml_value E document ("general" ∷ "admin" ∷ "pwd" ∷ []) true d.namespace
    admin_pwd ← admin_password pwd
    ask E (
        ldap_dial (
          (if secure then "ldaps://" else "ldap://")
          <> (service.cluster_ip <> (":" <> itoa service.port))))
    closing (search_masters d admin_dn admin_pwd)

  -- getPrimaryWriteMasters
  unfoldable pub get_primary_write_masters : Directory → M W (List String)
  unfolding ask_proxy
  get_primary_write_masters d = do
    service ← ask E (get_service d.namespace (get_proxy_deployment_name d.name))
    config ← ask E (get_config_map d.namespace (get_proxy_config_map_name d.name))
    body ← from_answer (decode (entry_of proxy_cm_key config.entries))
    converted ← or_panic (convert_yaml body)
    document ← as_dict "Failed to decode the ConfigMap for the proxy." converted
    ask_proxy d service document

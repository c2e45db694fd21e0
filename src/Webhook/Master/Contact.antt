-- ===== src/Webhook/Master/Contact.antt =====
-- How the proxy is reached, and what it has to answer for getPrimaryWriteMasters to return.
use verify_directory_operato.Base.{
  ◌≡◌, Bool, false, some, String, ◌<>◌, List, [], ◌∷◌, if◌then◌else◌,
}
use verify_directory_operato.Base.Int.{is_zero, itoa}
use verify_directory_operato.Base.Text.{to_lower}
use verify_directory_operato.Api.{Directory}
use verify_directory_operato.Names.{
  get_proxy_deployment_name, get_proxy_config_map_name, proxy_cm_key,
}
use verify_directory_operato.Yaml.{Value, null, int, dict, Fields, convert_yaml}
use verify_directory_operato.Yaml.Lookup.{path_value}
use verify_directory_operato.Yaml.Resolved.{ResolvesTo}
use verify_directory_operato.Kube.{
  Env, Answer, granted, LdapEntry, Service, get_service, ldap_dial, ldap_bind, ldap_search,
}
use verify_directory_operato.Controller.Configured.{Holds}
use verify_directory_operato.Webhook.Master.{masters}

-- LDAPS is used exactly when the LDAP port is there and is 0.
abbrev pub IsSecure : Value → Bool → Type 0
IsSecure null secure = secure ≡ false
IsSecure (int i) secure = secure ≡ is_zero i
IsSecure _ secure = ⊥

-- The administrator's name, where none is there the default one.
abbrev pub IsAdmin : {W : Type 0} → Env W → String → Value → String → Type 0
IsAdmin E ns null dn = dn ≡ "cn=root"
IsAdmin E ns v dn = ResolvesTo E ns v dn

-- The proxy's service and the parts of its configuration that name its port and its administrator.
pub record Contact : Type 0 where
  pub service : Service
  pub body : Fields
  pub secure : Bool
  pub dn : String
  pub pwd : String

-- Where the proxy is dialled.
abbrev pub url_of : Contact → String
url_of c =
    (if c.secure then "ldaps://" else "ldap://")
    <> (c.service.cluster_ip <> (":" <> itoa c.service.port))

-- The service and the configuration are there, and the proxy grants at its address the bind as its
-- administrator and the search, with a result of which P holds.
pub record Answers {W : Type 0} (E : Env W) (decode : String → Answer Value) (d : Directory)
    (P : List String → Type 0) : Type 0 where
  pub contact : Contact
  pub serviced :
      (w : W)
      → (E.answer (get_service d.namespace (get_proxy_deployment_name d.name)) w).0
        ≡ granted contact.service
  pub config :
      Holds E d.namespace (get_proxy_config_map_name d.name) proxy_cm_key λ s.
        (raw : Value) × (decode s ≡ granted raw) × (convert_yaml raw ≡ some (dict contact.body))
  pub ldap :
      IsSecure (path_value (dict contact.body) ("general" ∷ "ports" ∷ "ldap" ∷ [])) contact.secure
  pub dn :
      IsAdmin E d.namespace
        (path_value (dict contact.body) ("general" ∷ "admin" ∷ "dn" ∷ []))
        contact.dn
  pub pwd :
      ResolvesTo E d.namespace
        (path_value (dict contact.body) ("general" ∷ "admin" ∷ "pwd" ∷ []))
        contact.pwd
  pub dials : (w : W) → (E.answer (ldap_dial (url_of contact)) w).0 ≡ granted tt
  pub binds : (w : W) → (E.answer (ldap_bind contact.dn contact.pwd) w).0 ≡ granted tt
  pub finds :
      (w : W)
      → (entry : LdapEntry) × (entries : List LdapEntry) × ((E.answer
            (ldap_search "cn=partitions,cn=proxy,cn=monitor")
            w).0
          ≡ granted (entry ∷ entries))
        × P (masters (to_lower d.name) (entry ∷ entries) [])

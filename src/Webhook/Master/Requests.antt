-- ===== src/Webhook/Master/Requests.antt =====
-- The requests of getPrimaryWriteMasters.
use verify_directory_operato.Base.{◌≡◌, refl, Bool, true, String, List, [], ◌∷◌}
use verify_directory_operato.Base.Text.{to_lower}
use verify_directory_operato.Api.{Directory}
use verify_directory_operato.Names.{get_proxy_deployment_name, get_proxy_config_map_name}
use verify_directory_operato.Yaml.{Value, null, int, convert_yaml, as_text, get_yaml_value}
use verify_directory_operato.Yaml.Requests.{Emits-get_yaml_value}
use verify_directory_operato.Kube.{
  M, Env, Answer, Request, LdapEntry, get_service, get_config_map, ldap_dial, ldap_bind,
  ldap_search, ldap_close, pure, raise,
}
use verify_directory_operato.Kube.Rules.{
  Emits, Emits-pure, Emits-raise, Emits-bind, Emits-ask, Emits-settle, Emits-or_panic,
}
use verify_directory_operato.Controller.Pods.Requests.{is_read}
use verify_directory_operato.Controller.Handle.{new_error}
use verify_directory_operato.Controller.ServerConfig.Requests.{Emits-from_answer, Emits-as_dict}
use verify_directory_operato.Webhook.Master.{
  masters, proxy_port_is_zero, admin_name, admin_password, closing, search_masters,
  get_primary_write_masters,
}

-- A request that changes nothing: a read, or one of the LDAP requests.
abbrev pub observes : Request → Bool
observes (ldap_dial url) = true
observes (ldap_bind dn pwd) = true
observes (ldap_search base) = true
observes ldap_close = true
observes q = is_read q

abbrev pub Observes : Request → Type 0
Observes q = observes q ≡ true

pub Observes-is_read : (q : Request) → is_read q ≡ true → Observes q
Observes-is_read (ldap_dial url) e = refl
Observes-is_read (ldap_bind dn pwd) e = refl
Observes-is_read (ldap_search base) e = refl
Observes-is_read ldap_close e = refl
Observes-is_read _ e = e

module _ {W : Type 0} where
  Emits-proxy_port_is_zero : (v : Value) → Emits {W = W} Observes (proxy_port_is_zero v)
  Emits-proxy_port_is_zero null = Emits-pure Observes _
  Emits-proxy_port_is_zero (int i) = Emits-pure Observes _
  Emits-proxy_port_is_zero _ = Emits-raise Observes _

  Emits-admin_name : (v : Value) → Emits {W = W} Observes (admin_name v)
  Emits-admin_name null = Emits-pure Observes _
  Emits-admin_name v = Emits-or_panic Observes (as_text v)

  Emits-admin_password : (v : Value) → Emits {W = W} Observes (admin_password v)
  Emits-admin_password null = Emits-raise Observes _
  Emits-admin_password v = Emits-or_panic Observes (as_text v)

module _ {W : Type 0} (E : Env W) (decode : String → Answer Value) where
  Emits-closing : {A : Type 0} (m : M W A) → Emits Observes m → Emits Observes (closing E decode m)
  unfolding closing
  Emits-closing m hm = Emits-bind Observes _ _ (Emits-settle Observes m hm) λ done.
      Emits-bind Observes _ _ (Emits-settle Observes _ (Emits-ask E Observes ldap_close refl))
        λ _. Emits-from_answer Observes done

  Emits-search_masters :
      (d : Directory) (dn pwd : String) → Emits Observes (search_masters E decode d dn pwd)
  unfolding search_masters
  Emits-search_masters d dn pwd =
      Emits-bind Observes _ _ (Emits-ask E Observes (ldap_bind dn pwd) refl) λ _.
        Emits-bind Observes _ _
          (Emits-ask E Observes (ldap_search "cn=partitions,cn=proxy,cn=monitor") refl) entries
    where
      entries :
          (found : List LdapEntry)
          → Emits {W = W} {A = List String} Observes (elim found [
            | [] ↦ raise (new_error "The split information does not exist in the LDAP proxy.")
            | entry ∷ more ↦ pure (masters (to_lower d.name) (entry ∷ more) [])
          ])
      entries [] = Emits-raise Observes _
      entries (entry ∷ more) = Emits-pure Observes _

  pub Emits-get_primary_write_masters :
      (d : Directory) → Emits Observes (get_primary_write_masters E decode d)
  unfolding get_primary_write_masters
  Emits-get_primary_write_masters d =
      Emits-bind Observes _ _
        (Emits-ask E Observes (get_service d.namespace (get_proxy_deployment_name d.name)) refl)
        λ service.
          Emits-bind Observes _ _
            (Emits-ask E Observes (get_config_map d.namespace (get_proxy_config_map_name d.name))
              refl)
            λ config. Emits-bind Observes _ _ (Emits-from_answer Observes _) λ body.
              Emits-bind Observes _ _ (Emits-or_panic Observes (convert_yaml body)) λ converted.
                Emits-bind Observes _ _ (Emits-as_dict Observes _ converted) λ document.
                  Emits-bind Observes _ _ (value document _ _) λ ldap.
                    Emits-bind Observes _ _ (Emits-proxy_port_is_zero ldap) λ secure.
                      Emits-bind Observes _ _ (value document _ _) λ dn.
                        Emits-bind Observes _ _ (Emits-admin_name dn) λ admin_dn.
                          Emits-bind Observes _ _ (value document _ _) λ pwd.
                            Emits-bind Observes _ _ (Emits-admin_password pwd) λ admin_pwd.
                              Emits-bind Observes _ _ (Emits-ask E Observes (ldap_dial _) refl)
                                λ _. Emits-closing _ (Emits-search_masters d admin_dn admin_pwd)
    where
      value :
          (v : Value) (k : String) (ks : List String)
          → Emits Observes (get_yaml_value E v (k ∷ ks) true d.namespace)
      value v k ks = Emits-get_yaml_value E Observes (λ ns name. refl) v k ks true d.namespace

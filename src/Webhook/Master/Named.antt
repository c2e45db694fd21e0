-- ===== src/Webhook/Master/Named.antt =====
-- When getPrimaryWriteMasters returns: the proxy's configuration can be read, and the proxy answers.
use verify_directory_operato.Base.{
  ◌≡◌, ◌⊎◌, inl, inr, refl, sym, ap, ◌∙◌, subst, Bool, true, false, some, String, List, [], ◌∷◌,
}
use verify_directory_operato.Base.Int.{is_zero}
use verify_directory_operato.Base.Text.{to_lower}
use verify_directory_operato.Api.{Directory}
use verify_directory_operato.Names.{
  get_proxy_deployment_name, get_proxy_config_map_name, proxy_cm_key,
}
use verify_directory_operato.Yaml.{
  Value, null, text, int, dict, convert_yaml, get_yaml_value, resolve_entry,
}
use verify_directory_operato.Yaml.Lookup.{path_value, get_yaml_value-path_value}
use verify_directory_operato.Yaml.Resolved.{resolve_entry-Completes}
use verify_directory_operato.Kube.{
  M, Env, ok, Answer, granted, refused, LdapEntry, get_service, get_config_map, ldap_dial,
  ldap_bind, ldap_search, ldap_close, ask, settle,
}
use verify_directory_operato.Kube.Completes.{
  Completes, Any, Completes-bind, Completes-pure, Completes-settle, Completes-granted,
  Completes-ask,
}
use verify_directory_operato.Controller.Configured.{
  from_answer-Completes, or_panic-Completes, as_dict-Completes,
}
use verify_directory_operato.Controller.ServerConfig.{entry_of}
use verify_directory_operato.Webhook.Master.Contact.{IsSecure, IsAdmin, url_of, Answers}
use verify_directory_operato.Webhook.Master.{
  proxy_port_is_zero, admin_name, admin_password, masters, closing, search_masters, ask_proxy,
  get_primary_write_masters,
}

module _ {W : Type 0} (E : Env W) where
  resolved-Completes :
      (Q : Value → Type 0) (body : Value) (k : String) (ks : List String) (ns : String)
      → Completes Q (resolve_entry E (path_value body (k ∷ ks)) ns)
      → Completes Q (get_yaml_value E body (k ∷ ks) true ns)
  resolved-Completes Q body k ks ns h =
      subst (Completes Q) (sym (get_yaml_value-path_value E body k ks true ns)) h

  resolve_port-Completes :
      (ns : String) (v : Value) (secure : Bool)
      → IsSecure v secure
      → Completes (λ v'. IsSecure v' secure) (resolve_entry E v ns)
  unfolding resolve_entry
  resolve_port-Completes ns null secure e = Completes-pure (λ v'. IsSecure v' secure) null e
  resolve_port-Completes ns (int i) secure e = Completes-pure (λ v'. IsSecure v' secure) (int i) e
  resolve_port-Completes ns _ secure e = absurd e

  -- A name that is not there, or is a text.
  IsName : Value → String → Type 0
  IsName v dn = ((v ≡ null) × (dn ≡ "cn=root")) ⊎ (v ≡ text dn)

  resolve_admin-Completes :
      (ns : String) (v : Value) (dn : String)
      → IsAdmin E ns v dn
      → Completes (λ v'. IsName v' dn) (resolve_entry E v ns)
  unfolding resolve_entry IsName
  resolve_admin-Completes ns null dn e = Completes-pure (λ v'. IsName v' dn) null (inl (refl, e))
  resolve_admin-Completes ns (text s) dn e = record {
    at = λ w.
        let (v, returned, same) = (resolve_entry-Completes E ns (text s) dn e).at w in
        (v, returned, inr same);
  }
  resolve_admin-Completes ns _ dn e = absurd e

  admin_name-Completes :
      (v : Value) (dn : String) → IsName v dn → Completes {W = W} (λ a. a ≡ dn) (admin_name v)
  unfolding IsName
  admin_name-Completes v dn (inl (missing, e)) = rw (missing) (Completes-pure _ "cn=root" (sym e))
  admin_name-Completes v dn (inr e) = rw (e) (Completes-pure _ dn refl)

  -- Whatever becomes of the closing, the code goes on.
  close-Completes : Completes Any (settle (ask E ldap_close))
  unfolding settle ask
  close-Completes = record { at = λ w. closed w (E.answer ldap_close w).0 refl }
    where
      closed :
          (w : W) (r : Answer (Unit {0}))
          → (E.answer ldap_close w).0 ≡ r
          → (a : Answer (Unit {0})) × ((settle (ask E ldap_close) w).outcome ≡ ok a) × (Unit {0})
      closed w (granted a) e = (granted a, rw (e, settle, ask) refl, tt)
      closed w (refused x) e = (refused x, rw (e, settle, ask) refl, tt)

module _ {W : Type 0} where
  proxy_port_is_zero-Completes :
      (v : Value) (secure : Bool)
      → IsSecure v secure
      → Completes {W = W} (λ s. s ≡ secure) (proxy_port_is_zero v)
  proxy_port_is_zero-Completes null secure e = Completes-pure _ false (sym e)
  proxy_port_is_zero-Completes (int i) secure e = Completes-pure _ (is_zero i) (sym e)
  proxy_port_is_zero-Completes _ secure e = absurd e

  admin_password-Completes :
      (v : Value) (pwd : String)
      → v ≡ text pwd
      → Completes {W = W} (λ a. a ≡ pwd) (admin_password v)
  admin_password-Completes v pwd e = rw (e) (Completes-pure _ pwd refl)

module _ {W : Type 0} (E : Env W) (decode : String → Answer Value) (d : Directory)
    (P : List String → Type 0) (fine : Answers E decode d P) where
  search_masters-Completes :
      (dn pwd : String)
      → dn ≡ fine.contact.dn
      → pwd ≡ fine.contact.pwd
      → Completes P (search_masters E decode d dn pwd)
  unfolding search_masters
  search_masters-Completes dn pwd named known =
      Completes-bind Any P _ _
        (rw (named, known)
          (Completes-ask E (ldap_bind fine.contact.dn fine.contact.pwd) (λ w. (tt, fine.binds w))))
        λ _ _.
          Completes-bind
            (λ found.
              (entry : LdapEntry) × (entries : List LdapEntry) × (found ≡ (entry ∷ entries))
              × P (masters (to_lower d.name) (entry ∷ entries) []))
            P _ _
            (Completes-granted E (ldap_search "cn=partitions,cn=proxy,cn=monitor") _ λ w.
              let (entry, entries, e, p) = fine.finds w in
              (entry ∷ entries, e, (entry, entries, refl, p)))
            λ found seen. let (entry, entries, e, p) = seen in rw (e) (Completes-pure P _ p)

  closing-Completes : (m : M W (List String)) → Completes P m → Completes P (closing E decode m)
  unfolding closing
  closing-Completes m h =
      Completes-bind (λ r. (a : List String) × (r ≡ granted a) × P a) P _ _
        (Completes-settle P _ m (λ a p. (a, refl, p)) h)
        λ r done.
          Completes-bind Any P _ _ (close-Completes E)
            λ _ _. let (a, e, p) = done in from_answer-Completes P r a e p

  -- Everything behind the decoding of the configuration.
  asking-Completes :
      Completes P (ask_proxy E decode d fine.contact.service (dict fine.contact.body))
  unfolding ask_proxy
  asking-Completes =
      let c = fine.contact in
      let body : Value = dict c.body in
      Completes-bind (λ v. IsSecure v c.secure) P _ _
        (resolved-Completes E _ body "general" ("ports" ∷ "ldap" ∷ []) d.namespace
          (resolve_port-Completes E d.namespace _ c.secure fine.ldap))
        λ ldap p.
          Completes-bind (λ s. s ≡ c.secure) P _ _ (proxy_port_is_zero-Completes ldap c.secure p)
            λ secure is_secure.
              Completes-bind (λ v. IsName E v c.dn) P _ _
                (resolved-Completes E _ body "general" ("admin" ∷ "dn" ∷ []) d.namespace
                  (resolve_admin-Completes E d.namespace _ c.dn fine.dn))
                λ dn q.
                  Completes-bind (λ a. a ≡ c.dn) P _ _ (admin_name-Completes E dn c.dn q)
                    λ admin_dn named.
                      Completes-bind (λ v. v ≡ text c.pwd) P _ _
                        (resolved-Completes E _ body "general" ("admin" ∷ "pwd" ∷ []) d.namespace
                          (resolve_entry-Completes E d.namespace _ c.pwd fine.pwd))
                        λ pwd r.
                          Completes-bind (λ a. a ≡ c.pwd) P _ _
                            (admin_password-Completes pwd c.pwd r)
                            λ admin_pwd known.
                              Completes-bind Any P _ _
                                (rw (is_secure) (
                                  Completes-ask E (ldap_dial (url_of c)) (λ w. (tt, fine.dials w))))
                                (λ _ _.
                                  closing-Completes _
                                    (search_masters-Completes admin_dn admin_pwd named known))

  -- The primary write masters are found.
  pub get_primary_write_masters-Completes : Completes P (get_primary_write_masters E decode d)
  unfolding get_primary_write_masters
  get_primary_write_masters-Completes =
      let c = fine.contact in
      Completes-bind (λ s. s ≡ c.service) P _ _
        (Completes-granted E (get_service d.namespace (get_proxy_deployment_name d.name)) _
          (λ w. (c.service, fine.serviced w, refl)))
        λ service same.
          Completes-bind
            (λ config.
              (raw : Value) × (decode (entry_of proxy_cm_key config.entries) ≡ granted raw)
              × (convert_yaml raw ≡ some (dict c.body)))
            P _ _
            (Completes-granted E (get_config_map d.namespace (get_proxy_config_map_name d.name)) _
              fine.config)
            λ config decoded.
              let (raw, e, converted) = decoded in
              Completes-bind (λ v. v ≡ raw) P _ _ (from_answer-Completes _ _ raw e refl)
                λ v is_raw.
                  Completes-bind (λ v. v ≡ dict c.body) P _ _
                    (or_panic-Completes _ _ (dict c.body) (ap convert_yaml is_raw ∙ converted) refl)
                    λ v is_dict.
                      Completes-bind (λ v. v ≡ dict c.body) P _ _
                        (as_dict-Completes (λ v. v ≡ dict c.body) _ v c.body is_dict refl)
                        (λ body is_body. rw (is_body, same) asking-Completes)

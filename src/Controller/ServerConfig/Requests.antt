-- ===== src/Controller/ServerConfig/Requests.antt =====
-- The requests of getServerConfig.
use verify_directory_operato.Base.{
  ◌≡◌, refl, true, false, if◌then◌else◌, Bool, Option, none, some, String, List, [], ◌∷◌,
}
use verify_directory_operato.Base.Int.{ℤ, is_zero, pos}
use verify_directory_operato.Kube.{
  Env, Answer, granted, refused, Request, get_config_map, get_secret, pure,
}
use verify_directory_operato.Kube.Rules.{
  Emits, Emits-pure, Emits-raise, Emits-bind, Emits-ask, Emits-or_panic, Emits-if, Returns,
  Returns-then, Returns-pure,
}
use verify_directory_operato.Yaml.{
  Value, null, int, seq, dict, Items, nil, cons, convert_yaml, as_text, get_yaml_value,
}
use verify_directory_operato.Yaml.Requests.{Emits-get_yaml_value}
use verify_directory_operato.Controller.Handle.{Handle}
use verify_directory_operato.Controller.Pods.Requests.{is_read}
use verify_directory_operato.Controller.ServerConfig.{
  from_answer, as_dict, as_port, required, or_default, read_document, secure_port, ldap_port,
  suffix_dn, suffix_dns, suffixes_of, get_config_suffixes, config_of, get_server_config,
}

module _ {W : Type 0} (P : Request → Type 0) where
  pub Emits-from_answer : {A : Type 0} (r : Answer A) → Emits {W = W} P (from_answer r)
  Emits-from_answer (granted a) = Emits-pure P a
  Emits-from_answer (refused e) = Emits-raise P e

  pub Emits-as_dict : (message : String) (v : Value) → Emits {W = W} P (as_dict message v)
  Emits-as_dict message (dict fs) = Emits-pure P _
  Emits-as_dict message _ = Emits-raise P _

  Emits-as_port : (message : String) (v : Value) → Emits {W = W} P (as_port message v)
  Emits-as_port message null = Emits-pure P _
  Emits-as_port message (int i) = Emits-pure P _
  Emits-as_port message _ = Emits-raise P _

  Emits-required : (message : String) (v : Value) → Emits {W = W} P (required message v)
  Emits-required message null = Emits-raise P _
  Emits-required message v = Emits-or_panic P (as_text v)

  Emits-or_default : (d : String) (v : Value) → Emits {W = W} P (or_default d v)
  Emits-or_default d null = Emits-pure P d
  Emits-or_default d v = Emits-or_panic P (as_text v)

module _ {W : Type 0} (E : Env W) (decode : String → Answer Value) (P : Request → Type 0)
    (reads : (q : Request) → is_read q ≡ true → P q) where
  value_at :
      (v : Value) (k : String) (ks : List String) (resolve : Bool) (namespace : String)
      → Emits P (get_yaml_value E v (k ∷ ks) resolve namespace)
  value_at v k ks resolve namespace =
      Emits-get_yaml_value E P (λ ns name. reads (get_secret ns name) refl) v k ks resolve namespace

  pub Emits-read_document :
      (namespace name key : String) → Emits P (read_document E decode namespace name key)
  unfolding read_document
  Emits-read_document namespace name key =
      Emits-bind P _ _ (Emits-ask E P _ (reads (get_config_map namespace name) refl)) λ config.
        Emits-bind P _ _ (Emits-from_answer P _)
          λ body. Emits-bind P _ _ (Emits-or_panic P (convert_yaml body)) λ v. Emits-as_dict P _ v

  Emits-secure_port : (body : Value) (ns : String) → Emits P (secure_port E decode body ns)
  unfolding secure_port
  Emits-secure_port body ns =
      Emits-bind P _ _ (value_at body _ _ true ns)
        λ ldaps. Emits-bind P _ _ (Emits-as_port P _ ldaps) chosen
    where
      chosen :
          (port : Option ℤ)
          → Emits {W = W} {A = ℤ × Bool} P
              (elim port [ none ↦ pure (pos 9636, true) | some p ↦ pure (p, true) ])
      chosen none = Emits-pure P _
      chosen (some p) = Emits-pure P _

  pub Emits-ldap_port : (body : Value) (ns : String) → Emits P (ldap_port E decode body ns)
  unfolding ldap_port
  Emits-ldap_port body ns =
      Emits-bind P _ _ (value_at body _ _ true ns)
        λ ldap. Emits-bind P _ _ (Emits-as_port P _ ldap) chosen
    where
      chosen :
          (port : Option ℤ)
          → Emits {W = W} {A = ℤ × Bool} P (elim port [
            | none ↦ pure (pos 9389, false)
            | some p ↦ if is_zero p then secure_port E decode body ns else pure (p, false)
          ])
      chosen none = Emits-pure P _
      chosen (some p) = Emits-if P _ _ _ (Emits-secure_port body ns) (Emits-pure P _)

  Emits-suffix_dn : (ns : String) (entry : Value) → Emits P (suffix_dn E decode ns entry)
  unfolding suffix_dn
  Emits-suffix_dn ns (dict fs) =
      Emits-bind P _ _ (value_at (dict fs) _ _ false ns) (λ dn. Emits-or_panic P (as_text dn))
  Emits-suffix_dn ns _ = Emits-raise P _

  Emits-suffix_dns : (ns : String) (entries : Items) → Emits P (suffix_dns E decode ns entries)
  unfolding suffix_dns
  Emits-suffix_dns ns nil = Emits-pure P []
  Emits-suffix_dns ns (cons entry entries) =
      Emits-bind P _ _ (Emits-suffix_dn ns entry)
        λ dn. Emits-bind P _ _ (Emits-suffix_dns ns entries) λ dns. Emits-pure P _

  Emits-suffixes_of : (ns : String) (v : Value) → Emits P (suffixes_of E decode ns v)
  unfolding suffixes_of
  Emits-suffixes_of ns null = Emits-raise P _
  Emits-suffixes_of ns (seq entries) = Emits-suffix_dns ns entries
  Emits-suffixes_of ns _ = Emits-raise P _

  Emits-config_of : (body : Value) (ns : String) → Emits P (config_of E decode body ns)
  unfolding config_of get_config_suffixes
  Emits-config_of body ns = Emits-bind P _ _ (Emits-ldap_port body ns) λ port.
      Emits-bind P _ _ (value_at body _ _ false ns) λ license.
        Emits-bind P _ _ (Emits-required P _ license) λ license_key.
          Emits-bind P _ _ (value_at body _ _ false ns) λ dn.
            Emits-bind P _ _ (Emits-or_default P _ dn) λ admin_dn.
              Emits-bind P _ _ (value_at body _ _ false ns) λ pwd.
                Emits-bind P _ _ (Emits-required P _ pwd) λ admin_pwd.
                  Emits-bind P _ _
                    (Emits-bind P _ _ (value_at body _ _ false ns)
                      (λ entries. Emits-suffixes_of ns entries))
                    λ suffixes. Emits-pure P _

  pub Emits-get_server_config : (h : Handle) → Emits P (get_server_config E decode h)
  unfolding get_server_config
  Emits-get_server_config h =
      Emits-bind P _ _ (Emits-read_document _ _ _)
        λ body. Emits-bind P _ _ (Emits-config_of body _) λ config. Emits-pure P _

-- The handle that getServerConfig returns has the document that it was given.
pub get_server_config-Returns :
    {W : Type 0} (E : Env W) (decode : String → Answer Value) (h : Handle)
    → Returns (λ h'. h'.directory ≡ h.directory) (get_server_config E decode h)
unfolding get_server_config
get_server_config-Returns E decode h =
    Returns-then _ _ _ λ body. Returns-then _ _ _ λ config. Returns-pure _ _ refl

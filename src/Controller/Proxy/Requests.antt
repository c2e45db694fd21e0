-- ===== src/Controller/Proxy/Requests.antt =====
-- The requests of deployProxy.
use verify_directory_operato.Base.{◌≡◌, refl, Bool, true, false, Option, none, some, String}
use verify_directory_operato.Base.Int.{ℤ}
use verify_directory_operato.Base.Text.{before_last}
use verify_directory_operato.Names.{get_proxy_config_map_name, proxy_cm_key}
use verify_directory_operato.Yaml.{convert_yaml}
use verify_directory_operato.Kube.{
  Env, Request, ReplicaSet, config_map, deployment, service, create, update, update_deployment,
  patch, get_config_map, get_deployment, pure, ◌>>=◌,
}
use verify_directory_operato.Kube.Rules.{
  Emits, Emits-pure, Emits-raise, Emits-bind, Emits-ask, Emits-or_panic, Emits-if, Emits-settle,
  Emits-answer, Emits-clock,
}
use verify_directory_operato.Controller.Handle.{Handle}
use verify_directory_operato.Controller.Pods.Requests.{is_read}
use verify_directory_operato.Controller.Objects.{create_config_map}
use verify_directory_operato.Controller.ServerConfig.{from_answer}
use verify_directory_operato.Controller.ServerConfig.Requests.{
  Emits-from_answer, Emits-as_dict, Emits-ldap_port,
}
use verify_directory_operato.Controller.Proxy.{
  Codec, proxy_document, get_proxy_json, construct_proxy_yaml, save_proxy_config, update_if_changed,
  restart_if, create_proxy, create_proxy_deployment, deploy_proxy,
}

-- A read, or a change of a config map, a deployment or a service that deletes nothing.
abbrev pub is_proxied : Request → Bool
is_proxied (create (config_map c)) = true
is_proxied (create (deployment d)) = true
is_proxied (create (service s)) = true
is_proxied (update o) = true
is_proxied (update_deployment d) = true
is_proxied (patch o) = true
is_proxied q = is_read q

is_proxied-is_read : (q : Request) → is_read q ≡ true → is_proxied q ≡ true
is_proxied-is_read (create o) e = absurd (cc)
is_proxied-is_read (update o) e = refl
is_proxied-is_read (update_deployment d) e = refl
is_proxied-is_read (patch o) e = refl
is_proxied-is_read _ e = e

module _ {W : Type 0} (E : Env W) (codec : Codec) (same_spec : ReplicaSet → ReplicaSet → Bool)
    (P : Request → Type 0) (allows : (q : Request) → is_proxied q ≡ true → P q) where
  reads : (q : Request) → is_read q ≡ true → P q
  reads q e = allows q (is_proxied-is_read q e)

  Emits-get_proxy_json : (h : Handle) → Emits P (get_proxy_json E codec same_spec h)
  unfolding get_proxy_json
  Emits-get_proxy_json h =
      Emits-bind P _ _ (Emits-ask E P _ (reads (get_config_map _ _) refl)) λ config.
        Emits-bind P _ _ (Emits-from_answer P _) λ json.
          Emits-bind P _ _ (Emits-from_answer P _) λ body.
            Emits-bind P _ _ (Emits-or_panic P (convert_yaml body)) λ v.
              Emits-bind P _ _ (Emits-as_dict P _ v) λ document.
                Emits-bind P _ _ (Emits-ldap_port E codec.decode P reads document _)
                  λ port. Emits-pure P _

  Emits-construct_proxy_yaml :
      (h : Handle) (json : String) → Emits P (construct_proxy_yaml E codec same_spec h json)
  unfolding construct_proxy_yaml
  Emits-construct_proxy_yaml h json = front_of (before_last b'}' json)
    where
      front_of :
          (front : Option String)
          → Emits {W = W} {A = String} P (elim front [
            | none ↦ pure ""
            | some t ↦ from_answer (codec.json_to_yaml (proxy_document h t))
          ])
      front_of none = Emits-pure P ""
      front_of (some t) = Emits-from_answer P _

  Emits-create_config_map :
      (h : Handle) (name key value : String) → Emits P (create_config_map E h name key value)
  unfolding create_config_map
  Emits-create_config_map h name key value =
      Emits-bind P _ _ (Emits-settle P _ (Emits-ask E P _ (allows (create (config_map _)) refl)))
        λ made.
          Emits-answer P made _ _ (λ _. Emits-pure P tt)
            (λ e.
              Emits-if P _ _ _ (Emits-ask E P _ (allows (update (config_map _)) refl))
                (Emits-raise P e))

  Emits-save_proxy_config :
      (h : Handle) (yaml : String) → Emits P (save_proxy_config E codec same_spec h yaml)
  unfolding save_proxy_config
  Emits-save_proxy_config h yaml =
      Emits-bind P _ _ (Emits-settle P _ (Emits-ask E P _ (reads (get_config_map _ _) refl)))
        λ found.
          Emits-answer P found _ _ (λ config. Emits-if P _ _ _ (Emits-pure P false) saved)
            (λ e. Emits-if P _ _ _ saved (Emits-raise P e))
    where
      saved : Emits P (
          create_config_map E h (get_proxy_config_map_name h.directory.name) proxy_cm_key yaml
          >>= λ _. pure true)
      saved = Emits-bind P _ _ (Emits-create_config_map h _ _ _) (λ _. Emits-pure P true)

  Emits-create_proxy_deployment :
      (h : Handle) (port : ℤ) (updated : Bool)
      → Emits P (create_proxy_deployment E codec same_spec h port updated)
  unfolding create_proxy_deployment update_if_changed create_proxy
  Emits-create_proxy_deployment h port updated =
      Emits-bind P _ _ (Emits-settle P _ (Emits-ask E P _ (reads (get_deployment _ _) refl)))
        λ found.
          Emits-answer P found _ _
            (λ old.
              Emits-bind P _ _
                (Emits-if P _ _ _ (Emits-pure P _)
                  (Emits-ask E P _ (allows (update_deployment _) refl)))
                (restarts updated))
            (λ e.
              Emits-if P _ _ _
                (Emits-bind P _ _ (Emits-ask E P _ (allows (create (deployment _)) refl))
                  (λ _. Emits-ask E P _ (allows (create (service _)) refl)))
                (Emits-raise P e))
    where
      restarts :
          (changed : Bool) (dep : ReplicaSet) → Emits P (restart_if E codec same_spec changed dep)
      restarts false dep = unfold restart_if in Emits-pure P tt
      restarts true dep =
          unfold restart_if in
          Emits-bind P _ _ (Emits-clock E P)
            λ time. Emits-ask E P _ (allows (patch (deployment _)) refl)

  pub Emits-deploy_proxy : (h : Handle) → Emits P (deploy_proxy E codec same_spec h)
  unfolding deploy_proxy
  Emits-deploy_proxy h = Emits-bind P _ _ (Emits-get_proxy_json h) λ base.
      Emits-bind P _ _ (Emits-construct_proxy_yaml h base.0) λ yaml.
        Emits-bind P _ _ (Emits-save_proxy_config h yaml)
          λ updated. Emits-create_proxy_deployment h base.1 updated

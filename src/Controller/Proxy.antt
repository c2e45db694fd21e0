-- ===== src/Controller/Proxy.antt =====
-- src/controllers/ibmsecurityverifydirectory_proxy.go: the configuration and the deployment of the
-- front-end proxy. `codec` holds the calls of the YAML libraries, and `same_spec` is
-- reflect.DeepEqual of two deployment specs, one of them with the server's defaults.
mod Text
pub mod Build
pub mod Requests
unfoldable pub use Text.{proxy_document, replica_names}
use verify_directory_operato.Base.{
  Bool, true, false, Option, none, some, String, ◌<>◌, List, [], ◌∷◌, if◌then◌else◌, ◌==◌, not,
}
use verify_directory_operato.Base.Int.{ℤ}
use verify_directory_operato.Base.Text.{before_last}
use verify_directory_operato.Base.Dict.{Dict, insert}
use verify_directory_operato.Names.{
  get_proxy_config_map_name, get_proxy_deployment_name, proxy_cm_key,
}
use verify_directory_operato.Yaml.{Value, convert_yaml}
use verify_directory_operato.Kube.{
  M, Env, on_answer, Error, Answer, granted, refused, ReplicaSet, ConfigMap, deployment, service,
  get_config_map, get_deployment, create, update_deployment, patch, pure, raise, or_panic, ask,
  settle, clock, ◌>>=◌, ◌>>◌,
}
use verify_directory_operato.Controller.Handle.{Handle}
use verify_directory_operato.Controller.Objects.{create_config_map, is_not_found}
use verify_directory_operato.Controller.ServerConfig.{entry_of, from_answer, as_dict, ldap_port}
use Build.{proxy_deployment, proxy_service, owned, restarted}

-- yaml.Unmarshal, YAMLToJSON and JSONToYAML.
pub record Codec : Type 0 where
  pub decode : String → Answer Value
  pub yaml_to_json : String → Answer String
  pub json_to_yaml : String → Answer String

module _ {W : Type 0} (E : Env W) (codec : Codec) (same_spec : ReplicaSet → ReplicaSet → Bool) where
  -- getProxyJson: the base configuration as JSON, and the port.
  unfoldable pub get_proxy_json : Handle → M W (String × ℤ)
  get_proxy_json h = do
    let proxy = h.directory.spec.pods.config_map.proxy
    config ← ask E (get_config_map h.directory.namespace proxy.name)
    json ← from_answer (codec.yaml_to_json (entry_of proxy.key config.entries))
    body ← from_answer (codec.decode (entry_of proxy.key config.entries))
    converted ← or_panic (convert_yaml body)
    document ← as_dict "The server configuration cannot be parsed." converted
    port ← ldap_port E codec.decode document h.directory.namespace
    pure (json, port.0)

  -- constructProxyYaml. Where the JSON has no closing brace, it returns the empty text, and no
  -- error.
  unfoldable pub construct_proxy_yaml : Handle → String → M W String
  construct_proxy_yaml h json = elim (before_last b'}' json) [
    | none ↦ pure ""
    | some front ↦ from_answer (codec.json_to_yaml (proxy_document h front))
  ]

  -- saveProxyConfig: whether the config map has changed.
  unfoldable pub save_proxy_config : Handle → String → M W Bool
  save_proxy_config h yaml = do
    let name = get_proxy_config_map_name h.directory.name
    found ← settle (ask E (get_config_map h.directory.namespace name))
    on_answer found
        (λ config.
          if yaml == entry_of proxy_cm_key config.entries
          then pure false
          else (create_config_map E h name proxy_cm_key yaml >>= λ _. pure true))
        (λ e.
          if is_not_found e
          then (create_config_map E h name proxy_cm_key yaml >>= λ _. pure true)
          else raise e)

  -- `if ! reflect.DeepEqual(olddep.Spec, dep.Spec)`
  unfoldable pub update_if_changed : Handle → ReplicaSet → ReplicaSet → M W ReplicaSet
  update_if_changed h old dep =
      if same_spec old dep then pure dep else ask E (update_deployment (owned E h dep))

  -- `if updated`
  unfoldable pub restart_if : Bool → ReplicaSet → M W (Unit {0})
  restart_if false dep = pure tt
  restart_if true dep = do time ← clock E; ask E (patch (deployment (restarted time dep)))

  -- The branch that creates the deployment and then its service.
  unfoldable pub create_proxy : Handle → ℤ → M W (Unit {0})
  create_proxy h port = do
    ask E (create (deployment (owned E h (proxy_deployment h port))))
    ask E (create (service (proxy_service E h port)))

  -- createProxyDeployment
  unfoldable pub create_proxy_deployment : Handle → ℤ → Bool → M W (Unit {0})
  unfolding update_if_changed restart_if create_proxy
  create_proxy_deployment h port updated = do
    let name = get_proxy_deployment_name h.directory.name
    found ← settle (ask E (get_deployment h.directory.namespace name))
    on_answer found
        (λ old. do dep ← update_if_changed h old (proxy_deployment h port); restart_if updated dep)
        (λ e. if is_not_found e then create_proxy h port else raise e)

  -- deployProxy
  unfoldable pub deploy_proxy : Handle → M W (Unit {0})
  deploy_proxy h = do
    base ← get_proxy_json h
    yaml ← construct_proxy_yaml h base.0
    updated ← save_proxy_config h yaml
    create_proxy_deployment h base.1 updated

-- ===== src/Controller/Proxy/Build.antt =====
-- The deployment and the service of createProxyDeployment.
use verify_directory_operato.Base.{
  false, none, some, String, ◌<>◌, List, [], ◌∷◌, ◌++◌, if◌then◌else◌, ◌==◌,
}
use verify_directory_operato.Base.Int.{ℤ, pos, is_positive}
use verify_directory_operato.Base.Dict.{insert}
use verify_directory_operato.Api.{Labels, elements}
use verify_directory_operato.Names.{
  get_proxy_deployment_name, get_proxy_config_map_name, labels_for_app, proxy_cm_key,
}
use verify_directory_operato.Kube.{
  Env, Volume, config_map_source, claim_source, VolumeMount, Probe, ReplicaSet, Service,
}
use verify_directory_operato.Controller.Handle.{Handle, owned_meta}

unfoldable pub proxy_volumes : Handle → List Volume
proxy_volumes h =
    (record {
      name = "isvd-proxy-config";
      source = config_map_source (get_proxy_config_map_name h.directory.name) proxy_cm_key;
    })
    ∷ (if h.directory.spec.pods.proxy.pvc == ""
        then []
        else (record {
          name = "isvd-proxy-data";
          source = claim_source h.directory.spec.pods.proxy.pvc false;
        })
          ∷ [])

unfoldable pub proxy_mounts : Handle → List VolumeMount
proxy_mounts h =
    (record { name = "isvd-proxy-config"; mount_path = "/var/isvd/config" })
    ∷ (if h.directory.spec.pods.proxy.pvc == ""
        then []
        else (record { name = "isvd-proxy-data"; mount_path = "/var/isvd/data" }) ∷ [])

abbrev liveness_probe : Probe
liveness_probe = record {
  initial_delay = 2;
  period = 10;
  command = "/sbin/health_check.sh" ∷ "livenessProbe" ∷ [];
}

abbrev readiness_probe : Probe
readiness_probe = record { initial_delay = 4; period = 5; command = "/sbin/health_check.sh" ∷ [] }

unfoldable pub proxy_labels : String → Labels
proxy_labels name =
    ("app.kubernetes.io/kind", "IBMSecurityVerifyDirectory")
    ∷ ("app.kubernetes.io/cr-name", name)
    ∷ []

unfoldable pub proxy_replicas : Handle → ℤ
proxy_replicas h =
    if is_positive h.directory.spec.pods.proxy.replicas
    then h.directory.spec.pods.proxy.replicas
    else pos 1

-- The deployment, before it has an owner.
unfoldable pub proxy_deployment : Handle → ℤ → ReplicaSet
unfolding proxy_volumes proxy_mounts proxy_labels proxy_replicas
proxy_deployment h port =
    let d = h.directory in
    let pods = d.spec.pods in
    let name = get_proxy_deployment_name d.name in
    record {
      meta = record {
        name = name;
        namespace = d.namespace;
        labels = labels_for_app d.name name;
        owners = [];
      };
      replicas = proxy_replicas h;
      selector = proxy_labels name;
      template = record {
        name = "";
        labels = proxy_labels name;
        annotations = [];
        spec = record {
          volumes = proxy_volumes h;
          pull_secrets = pods.image.pull_secrets;
          service_account_name = pods.service_account_name;
          security_context = pods.security_context;
          hostname = name;
          never_restart = false;
          containers =
              (record {
                name = name;
                image = pods.image.repo <> ("/verify-directory-proxy:" <> pods.image.label);
                pull_policy = pods.image.pull_policy;
                env =
                    elements pods.env
                    ++ (record {
                      name = "YAML_CONFIG_FILE";
                      value = "/var/isvd/config/" <> proxy_cm_key;
                      value_from = none;
                    })
                      ∷ [];
                env_from = pods.env_from;
                ports = port ∷ [];
                liveness = some liveness_probe;
                readiness = some readiness_probe;
                resources = pods.resources;
                mounts = proxy_mounts h;
              })
              ∷ [];
        };
      };
    }

-- The deployment with the annotation of a rolling restart.
unfoldable pub restarted : String → ReplicaSet → ReplicaSet
restarted time dep =
    let template = dep.template in
    record dep {
      template = record template {
        annotations = insert "kubectl.kubernetes.io/restartedAt" time template.annotations;
      };
    }

module _ {W : Type 0} (E : Env W) where
  -- ctrl.SetControllerReference(h.directory, dep, r.Scheme)
  unfoldable pub owned : Handle → ReplicaSet → ReplicaSet
  owned h dep =
      let meta = dep.meta in record dep { meta = record meta { owners = E.owner_refs h.directory } }

  unfoldable pub proxy_service : Handle → ℤ → Service
  unfolding proxy_labels
  proxy_service h port =
      let name = get_proxy_deployment_name h.directory.name in
      record {
        meta = owned_meta E h.directory name (proxy_labels name);
        cluster_ip = "";
        selector = proxy_labels name;
        port_name = name;
        port = port;
        target_port = port;
      }

-- ===== src/Controller/Replica/Build.antt =====
-- The replica set of deployReplica and the job of seedReplica, from
-- src/controllers/ibmsecurityverifydirectory_create.go.
use verify_directory_operato.Base.{true, false, some, none, String, ◌<>◌, List, [], ◌∷◌, ◌++◌}
use verify_directory_operato.Base.Int.{pos}
use verify_directory_operato.Api.{EnvVar, elements}
use verify_directory_operato.Names.{
  get_replica_pod_name, get_seed_job_name, get_seed_config_map_name, labels_for_app, labels_for_pod,
}
use verify_directory_operato.Kube.{
  Env, Object, job, replica_set, Volume, config_map_source, claim_source, VolumeMount, Probe,
}
use verify_directory_operato.Controller.Handle.{Handle, owned_meta}

-- ConfigMapKey
abbrev pub config_map_key : String
config_map_key = "config.yaml"

abbrev config_volume : String → String → Volume
config_volume name key = record { name = "isvd-server-config"; source = config_map_source name key }

abbrev data_volume : String → Volume
data_volume pvc = record { name = "isvd-data"; source = claim_source pvc false }

abbrev liveness_probe : Probe
liveness_probe = record {
  initial_delay = 2;
  period = 10;
  command = "/sbin/health_check.sh" ∷ "livenessProbe" ∷ [];
}

abbrev readiness_probe : Probe
readiness_probe = record { initial_delay = 4; period = 5; command = "/sbin/health_check.sh" ∷ [] }

abbrev config_mount : VolumeMount
config_mount = record { name = "isvd-server-config"; mount_path = "/var/isvd/config" }

abbrev data_mount : VolumeMount
data_mount = record { name = "isvd-data"; mount_path = "/var/isvd/data" }

abbrev principal_mount : VolumeMount
principal_mount = record { name = "isvd-principal"; mount_path = "/var/isvd/source" }

-- The environment of a server: the document's, the configuration file and the server's id.
unfoldable pub server_env : Handle → String → List EnvVar
server_env h pod =
    elements h.directory.spec.pods.env
    ++ ((record {
      name = "YAML_CONFIG_FILE";
      value = "/var/isvd/config/" <> h.directory.spec.pods.config_map.server.key;
      value_from = none;
    })
        ∷ (record { name = "general.id"; value = pod; value_from = none })
        ∷ [])

-- The environment of a seed job: the document's, the licence and the configuration file.
unfoldable pub seed_env : Handle → List EnvVar
seed_env h =
    elements h.directory.spec.pods.env
    ++ ((record { name = "general.license.accept"; value = "limited"; value_from = none })
        ∷ (record { name = "general.license.key"; value = h.config.license_key; value_from = none })
        ∷ (record {
          name = "YAML_CONFIG_FILE";
          value = "/var/isvd/config/" <> config_map_key;
          value_from = none;
        })
        ∷ [])

module _ {W : Type 0} (E : Env W) where
  -- The replica set that deployReplica creates for a PVC.
  unfoldable pub replica_object : Handle → String → Object
  unfolding server_env
  replica_object h pvc =
      let d = h.directory in
      let pods = d.spec.pods in
      let pod = get_replica_pod_name d pvc in
      replica_set (record {
        meta = owned_meta E d pod (labels_for_app d.name pvc);
        replicas = pos 1;
        selector = labels_for_pod d.name pod pvc;
        template = record {
          name = pod;
          labels = labels_for_pod d.name pod pvc;
          annotations = [];
          spec = record {
            volumes =
                config_volume pods.config_map.server.name pods.config_map.server.key
                ∷ data_volume pvc
                ∷ [];
            pull_secrets = pods.image.pull_secrets;
            service_account_name = pods.service_account_name;
            security_context = pods.security_context;
            hostname = pod;
            never_restart = false;
            containers =
                (record {
                  name = pod;
                  image = pods.image.repo <> ("/verify-directory-server:" <> pods.image.label);
                  pull_policy = pods.image.pull_policy;
                  env = server_env h pod;
                  env_from = pods.env_from;
                  ports = h.config.port ∷ [];
                  liveness = some liveness_probe;
                  readiness = some readiness_probe;
                  resources = pods.resources;
                  mounts = config_mount ∷ data_mount ∷ [];
                })
                ∷ [];
          };
        };
      })

  -- The job that seedReplica creates: it reads the principal's volume and writes the replica's.
  unfoldable pub seed_job : Handle → String → String → Object
  unfolding seed_env
  seed_job h principal pvc =
      let d = h.directory in
      let pods = d.spec.pods in
      let name = get_seed_job_name d pvc in
      job (record {
        meta = owned_meta E d name (labels_for_app d.name pvc);
        completions = 1;
        ttl = 60;
        backoff_limit = 1;
        template = record {
          name = "";
          labels = [];
          annotations = [];
          spec = record {
            volumes =
                config_volume (get_seed_config_map_name d) config_map_key
                ∷ data_volume pvc
                ∷ (record { name = "isvd-principal"; source = claim_source principal true })
                ∷ [];
            pull_secrets = pods.image.pull_secrets;
            service_account_name = pods.service_account_name;
            security_context = pods.security_context;
            hostname = "";
            never_restart = true;
            containers =
                (record {
                  name = name;
                  image = pods.image.repo <> ("/verify-directory-seed:" <> pods.image.label);
                  pull_policy = pods.image.pull_policy;
                  env = seed_env h;
                  env_from = none;
                  ports = [];
                  liveness = none;
                  readiness = none;
                  resources = "";
                  mounts = config_mount ∷ data_mount ∷ principal_mount ∷ [];
                })
                ∷ [];
          };
        };
      })

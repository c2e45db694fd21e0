-- ===== src/Names.antt =====
-- src/utils/names.go and the name functions of
-- src/controllers/ibmsecurityverifydirectory_utils.go.
pub mod Selection
pub mod Injective
use verify_directory_operato.Base.{◌≡◌, refl, Option, String, ◌<>◌, [], ◌∷◌, if◌then◌else◌, ◌==◌}
use verify_directory_operato.Base.Text.{to_lower, before_last}
use verify_directory_operato.Base.Dict.{insert}
use verify_directory_operato.Api.{Labels, Directory}

abbrev pub pvc_label : String
pvc_label = "app.kubernetes.io/pvc-name"

abbrev pub proxy_cm_key : String
proxy_cm_key = "config.yaml"

-- GetProxyDeploymentName
unfoldable pub get_proxy_deployment_name : String → String
get_proxy_deployment_name name = to_lower (name <> "-proxy")

-- GetProxyConfigMapName
unfoldable pub get_proxy_config_map_name : String → String
get_proxy_config_map_name name = to_lower (name <> "-proxy")

with_pvc : String → Labels → Labels
with_pvc pvc labels = if pvc == "" then labels else insert pvc_label pvc labels

-- LabelsForApp
unfoldable pub labels_for_app : String → String → Labels
unfolding with_pvc insert
labels_for_app name pvc = with_pvc pvc (
    ("app.kubernetes.io/created-by", "verify-directory-operator")
    ∷ ("app.kubernetes.io/part-of", "verify-directory")
    ∷ ("app.kubernetes.io/cr-name", name)
    ∷ [])

-- LabelsForPod
unfoldable pub labels_for_pod : String → String → String → Labels
unfolding with_pvc insert
labels_for_pod name pod pvc = with_pvc pvc (
    ("app.kubernetes.io/kind", "IBMSecurityVerifyDirectory")
    ∷ ("app.kubernetes.io/app", name)
    ∷ ("app.kubernetes.io/cr-name", pod)
    ∷ [])

-- LabelsForReplica
unfoldable pub labels_for_replica : String → String → Labels
unfolding with_pvc insert
labels_for_replica name pvc = with_pvc pvc (
    ("app.kubernetes.io/kind", "IBMSecurityVerifyDirectory") ∷ ("app.kubernetes.io/app", name) ∷ [])

-- getReplicaPodName
unfoldable pub get_replica_pod_name : Directory → String → String
get_replica_pod_name d pvc = to_lower (d.name <> ("-" <> pvc))

-- getReplicaDeploymentName; `none` is the panic of a slice up to -1, where the name has no dash.
unfoldable pub get_replica_deployment_name : String → Option String
get_replica_deployment_name podname = before_last b'-' podname

-- getSeedConfigMapName
unfoldable pub get_seed_config_map_name : Directory → String
get_seed_config_map_name d = to_lower (d.name <> "-seed")

-- getSeedJobName
unfoldable pub get_seed_job_name : Directory → String → String
get_seed_job_name d pvc = get_replica_pod_name d pvc <> "-seed"

-- ===== src/Tests/Admission.antt =====
-- The theorems on the admission of documents at concrete documents.
use verify_directory_operato.Base.{◌≡◌, ◌↔◌, refl, true, none, some, String, [], ◌∷◌}
use verify_directory_operato.Base.Dict.{has, contains, lookup, insert}
use verify_directory_operato.Api.{Directory}
use verify_directory_operato.Yaml.{Value, raw_map, raw_end, convert_yaml, get_yaml_value, field_of}
use verify_directory_operato.Kube.{
  Answer, granted, ok, pure, raise, settle, ask, each, shuffled, ◌>>=◌,
}
use verify_directory_operato.Controller.Reconcile.{obsolete, missing}
use verify_directory_operato.Webhook.{
  validate_document_state, validate_idle_update, validate_update,
}
use verify_directory_operato.Webhook.Document.{
  first_repeated, check_unique, validate_pvc, validate_config_map, check_env_from,
  validate_proxy_config_map, validate_document,
}
use verify_directory_operato.Webhook.Document.Unique.{has_distinct_pvcs, check_unique_iff}
use verify_directory_operato.Webhook.Equality.{
  deep_equal-same, ImageSpec-discrete, ConfigMapSpec-discrete, String-discrete, EnvFrom-discrete,
  Env-discrete,
}
use verify_directory_operato.Webhook.Updates.{
  compare_elements, validate_document_updates, SamePods, validate_document_updates_iff,
}
use verify_directory_operato.Webhook.Pods.{validate_pods, pods_by_label, left_alone}
use verify_directory_operato.Kube.Rules.{Emits}
use verify_directory_operato.Webhook.Master.{find_master}
use verify_directory_operato.Webhook.Master.Requests.{Observes}
use verify_directory_operato.Webhook.Requests.{validate_update-Observes}
use verify_directory_operato.Webhook.Order.{Acceptable, validate_update-Acceptable}
use verify_directory_operato.Tests.World.{world, document, pods_spec, conditions_api}

abbrev pub decode : String → Answer Value
decode s = granted (raw_map raw_end)

abbrev pub one_replica : Directory
one_replica = record document { spec = record { pvcs = "pvc1" ∷ []; pods = pods_spec } }

accepted :
    (validate_update world conditions_api decode one_replica (some one_replica) true).outcome
    ≡ ok tt
unfolding validate_update validate_idle_update validate_document validate_pvc check_unique
    first_repeated validate_config_map check_env_from validate_proxy_config_map
    validate_document_state validate_document_updates compare_elements validate_pods pods_by_label
    left_alone obsolete missing has contains lookup insert convert_yaml get_yaml_value field_of
    settle ask each shuffled pure raise ◌>>=◌
accepted =
    rw
      (
        deep_equal-same ImageSpec-discrete pods_spec.image,
        deep_equal-same ConfigMapSpec-discrete pods_spec.config_map,
        deep_equal-same String-discrete "",
        deep_equal-same EnvFrom-discrete none,
        deep_equal-same Env-discrete none,
      )
      refl

validate_update-Acceptable_example : Acceptable conditions_api one_replica (some one_replica)
validate_update-Acceptable_example =
    validate_update-Acceptable world conditions_api decode one_replica (some one_replica) true
      accepted

validate_document_updates_iff_example :
    ((validate_document_updates one_replica document true).outcome ≡ ok tt)
    ↔ SamePods pods_spec pods_spec
validate_document_updates_iff_example = validate_document_updates_iff one_replica document true

check_unique_iff_example :
    ((check_unique document true).outcome ≡ ok tt) ↔ (has_distinct_pvcs document ≡ true)
check_unique_iff_example = check_unique_iff document true

validate_update-Observes_example :
    Emits Observes (validate_update world conditions_api decode one_replica (some document))
validate_update-Observes_example =
    validate_update-Observes world conditions_api decode one_replica (some document)

-- The PVC of a proxied server's entry.
find_master_entry :
    find_master "isvd"
      "ibm-slapdProxyBackendServerName=isvd-pvc1+ibm-slapdProxyBackendDN=,cn=split_0"
    ≡ some "pvc1"
unfolding find_master
find_master_entry = refl

-- ===== src/Webhook/Updates.antt =====
-- compareElements and validateDocumentUpdates.
use verify_directory_operato.Base.{◌≡◌, ◌↔◌, Bool, String, ◌<>◌, arith, if◌then◌else◌}
use verify_directory_operato.Api.{Directory, PodsSpec}
use verify_directory_operato.Kube.{M, ok, pure, raise, ◌>>=◌, ◌>>◌}
use verify_directory_operato.Controller.Handle.{new_error}
use verify_directory_operato.Webhook.Equality.{
  deep_equal, deep_equal_iff, String-discrete, ImageSpec-discrete, ConfigMapSpec-discrete,
  EnvFrom-discrete, Env-discrete,
}

-- compareElements, from the verdict of reflect.DeepEqual.
unfoldable pub compare_elements : {W : Type 0} → Bool → String → M W (Unit {0})
compare_elements same name =
    if same
    then pure tt
    else raise (
        new_error (
          "The spec.pods."
          <> (name
              <> (" entry has been changed.  If you need to modify spec.pods."
                  <> (name <> " you must first delete the document and then recreate it.")))))

-- validateDocumentUpdates
unfoldable pub validate_document_updates : {W : Type 0} → Directory → Directory → M W (Unit {0})
validate_document_updates d old = do
  let new_pods = d.spec.pods
  let old_pods = old.spec.pods
  compare_elements (deep_equal ImageSpec-discrete new_pods.image old_pods.image) "Image"
  compare_elements (deep_equal ConfigMapSpec-discrete new_pods.config_map old_pods.config_map)
      "ConfigMap"
  compare_elements (deep_equal String-discrete new_pods.resources old_pods.resources) "Resources"
  compare_elements (deep_equal EnvFrom-discrete new_pods.env_from old_pods.env_from) "EnvFrom"
  compare_elements (deep_equal Env-discrete new_pods.env old_pods.env) "Env"
  compare_elements
      (deep_equal String-discrete new_pods.service_account_name old_pods.service_account_name)
      "ServiceAccountName"

-- The parts of a document that an update may not change.
pub record SamePods (p q : PodsSpec) : Type 0 where
  pub image : p.image ≡ q.image
  pub config_map : p.config_map ≡ q.config_map
  pub resources : p.resources ≡ q.resources
  pub env_from : p.env_from ≡ q.env_from
  pub env : p.env ≡ q.env
  pub service_account_name : p.service_account_name ≡ q.service_account_name

-- An update is accepted exactly when the image, the config maps, the resources, EnvFrom, Env and
-- the service account of the pods are those of the old document.
pub validate_document_updates_iff :
    {W : Type 0} (d old : Directory) (w : W)
    → ((validate_document_updates d old w).outcome ≡ ok tt) ↔ SamePods d.spec.pods old.spec.pods
unfolding validate_document_updates compare_elements ◌>>=◌
validate_document_updates_iff d old w =
    let p = d.spec.pods in
    let q = old.spec.pods in
    ground (
      arith,
      deep_equal_iff ImageSpec-discrete p.image q.image,
      deep_equal_iff ConfigMapSpec-discrete p.config_map q.config_map,
      deep_equal_iff String-discrete p.resources q.resources,
      deep_equal_iff EnvFrom-discrete p.env_from q.env_from,
      deep_equal_iff Env-discrete p.env q.env,
      deep_equal_iff String-discrete p.service_account_name q.service_account_name,
    )

-- ===== src/Webhook.antt =====
-- src/api/v1/ibmsecurityverifydirectory_webhook.go: the admission checks. `Document` validates the
-- document, `Updates` compares it with the old one, `Pods` looks at the running pods and at the
-- proxy's write master, and this file has the entry points.
pub mod Equality
pub mod Document
pub mod Updates
pub mod Master
pub mod Pods
pub mod Requests
pub mod Order
pub mod Accepted
use verify_directory_operato.Base.{Bool, true, false, Option, none, some, String, if◌then◌else◌}
use verify_directory_operato.Api.{Directory}
use verify_directory_operato.Yaml.{Value}
use verify_directory_operato.Kube.{M, Env, Answer, pure, raise, ◌>>=◌, ◌>>◌}
use verify_directory_operato.Controller.Handle.{new_error}
use verify_directory_operato.Controller.Status.{ConditionApi}
use Document.{validate_document}
use Updates.{validate_document_updates}
use Pods.{validate_pods}

module _ (api : ConditionApi) where
  -- validateDocumentState
  unfoldable pub validate_document_state : {W : Type 0} → Directory → M W (Unit {0})
  validate_document_state d =
      if api.is_false d.conditions "Available"
      then raise (
          new_error
            "The deployment is in a failing state which means that it cannot be updated and instead must be deleted and then recreated.")
      else pure tt

  -- ValidateDelete
  unfoldable pub validate_delete : {W : Type 0} → Directory → M W (Unit {0})
  validate_delete d =
      if api.is_true d.conditions "InProgress"
      then raise (
          new_error
            "The last update to this document is still being processed by the operator.  Wait until the existing document has been fully processed before attempting to delete the document.")
      else pure tt

-- `old.(*IBMSecurityVerifyDirectory)`
abbrev pub old_directory : {W : Type 0} → Option Directory → M W Directory
old_directory none =
    raise (new_error "An internal error occurred while trying to access the original document.")
old_directory (some d) = pure d

module _ {W : Type 0} (E : Env W) (api : ConditionApi) (decode : String → Answer Value) where
  -- ValidateCreate
  unfoldable pub validate_create : Directory → M W (Unit {0})
  validate_create d = validate_document E decode d

  -- The checks of ValidateUpdate behind the first.
  unfoldable pub validate_idle_update : Directory → Option Directory → M W (Unit {0})
  validate_idle_update d old = do
    validate_document E decode d
    validate_document_state api d
    before ← old_directory old
    validate_document_updates d before
    validate_pods E decode d

  -- ValidateUpdate
  unfoldable pub validate_update : Directory → Option Directory → M W (Unit {0})
  validate_update d old =
      if api.is_true d.conditions "InProgress"
      then raise (
          new_error
            "The last update to this document is still being processed by the operator.  Wait until the existing document has been fully processed before attempting to update the document.")
      else validate_idle_update d old

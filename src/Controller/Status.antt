-- ===== src/Controller/Status.antt =====
-- setCondition of src/controllers/ibmsecurityverifydirectory_controller.go. The functions of
-- k8s.io/apimachinery/pkg/api/meta on conditions are the parameter `ConditionApi`, and
-- `IsLawful` is what they document.
use verify_directory_operato.Base.{
  ℕ, ◌≡◌, ◌≢◌, Bool, true, false, Option, none, some, String, List, if◌then◌else◌, nat_eq,
}
use verify_directory_operato.Api.{Condition, ConditionStatus, status_true, status_false, Directory}
use verify_directory_operato.Kube.{M, Env, Error, update_status, pure, ask, ◌>>◌}
use verify_directory_operato.Controller.Handle.{Handle}

-- meta.SetStatusCondition, IsStatusConditionTrue and IsStatusConditionFalse.
pub record ConditionApi : Type 0 where
  pub set : List Condition → Condition → List Condition
  pub is_true : List Condition → String → Bool
  pub is_false : List Condition → String → Bool

abbrev pub says_true : ConditionStatus → Bool
says_true status_true = true
says_true _ = false

abbrev pub says_false : ConditionStatus → Bool
says_false status_false = true
says_false _ = false

-- A condition that has been set is the one that is found under its type; other types keep theirs.
pub record IsLawful (api : ConditionApi) : Type 0 where
  pub is_true-set :
      (cs : List Condition) (c : Condition) → api.is_true (api.set cs c) c.kind ≡ says_true c.status
  pub is_false-set :
      (cs : List Condition) (c : Condition)
      → api.is_false (api.set cs c) c.kind ≡ says_false c.status
  pub is_true-set_ne :
      (cs : List Condition) (c : Condition) (kind : String)
      → c.kind ≢ kind
      → api.is_true (api.set cs c) kind ≡ api.is_true cs kind
  pub is_false-set_ne :
      (cs : List Condition) (c : Condition) (kind : String)
      → c.kind ≢ kind
      → api.is_false (api.set cs c) kind ≡ api.is_false cs kind

-- The condition that Reconcile sets before it changes anything.
abbrev pub in_progress : Condition
in_progress = record {
  kind = "InProgress";
  status = status_true;
  reason = "DeploymentProgress";
  message = "The deployment is being processed.";
}

abbrev pub processed : Condition
processed = record {
  kind = "InProgress";
  status = status_false;
  reason = "DeploymentProgress";
  message = "The deployment has been processed.";
}

available_reason : ℕ → String
available_reason generation =
    if nat_eq generation 1 then "DeploymentCreated" else "DeploymentUpdated"

available_message : ℕ → Option Error → String
available_message generation none =
    if nat_eq generation 1
    then "The deployment has been created."
    else "The deployment has been updated."
available_message generation (some e) = e.message

available_status : Option Error → ConditionStatus
available_status none = status_true
available_status (some e) = status_false

-- The condition `Available` after an error, or after none.
unfoldable pub available : ℕ → Option Error → Condition
unfolding available_reason available_message available_status
available generation err = record {
  kind = "Available";
  status = available_status err;
  reason = available_reason generation;
  message = available_message generation err;
}

module _ (api : ConditionApi) where
  -- The document with the conditions that setCondition gives it.
  unfoldable pub with_outcome : Directory → Option Error → Directory
  unfolding available
  with_outcome d err = record d {
    conditions = api.set (api.set d.conditions processed) (available d.generation err);
  }

  -- setCondition; its last argument is only logged.
  unfoldable pub set_condition : {W : Type 0} → Env W → Handle → Option Error → M W (Unit {0})
  unfolding with_outcome
  set_condition E h err = do ask E (update_status (with_outcome h.directory err)); pure tt

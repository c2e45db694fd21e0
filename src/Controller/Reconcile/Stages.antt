-- ===== src/Controller/Reconcile/Stages.antt =====
-- The stages of a run of Reconcile, as a state machine over its requests.
use verify_directory_operato.Base.{◌≡◌, Bool, true, false}
use verify_directory_operato.Base.Dict.{Dict}
use verify_directory_operato.Api.{Directory}
use verify_directory_operato.Kube.{Request, update_status}
use verify_directory_operato.Kube.Follows.{Follows}
use verify_directory_operato.Controller.Handle.{Handle}
use verify_directory_operato.Controller.Pods.Requests.{is_read}
use verify_directory_operato.Controller.Status.{ConditionApi}
use verify_directory_operato.Controller.Reconcile.Outcome.{Reports}
use verify_directory_operato.Controller.Reconcile.Requests.{is_status}

-- Before the first update of the status, between the two updates, and after the last.
pub data Stage : Type 0 where
  surveying changing concluded : Stage

-- What Reconcile may ask for in each stage, and the stage after it.
pub data Step (api : ConditionApi) : Stage → Request → Stage → Type 0 where
  reads : {q : Request} → is_read q ≡ true → Step api surveying q surveying
  begins :
      (d : Directory)
      → api.is_true d.conditions "InProgress" ≡ true
      → Step api surveying (update_status d) changing
  works : {q : Request} → is_status q ≡ false → Step api changing q changing
  reports : {q : Request} (good : Bool) → Reports api good q → Step api changing q concluded
  refuses : {q : Request} → Reports api false q → Step api surveying q concluded

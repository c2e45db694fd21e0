-- ===== src/Controller/Pods.antt =====
-- The pods of a replica set and the conditions that the controller waits for, from
-- src/controllers/ibmsecurityverifydirectory_utils.go.
pub mod Requests
pub mod Waits
pub mod Errors
pub mod Bound
use verify_directory_operato.Base.{
  ℕ, zero, suc, Bool, true, false, String, ◌<>◌, List, [], ◌∷◌, ltb, leb, if◌then◌else◌,
}
use verify_directory_operato.Kube.{
  M, Env, on_answer, Error, Answer, granted, refused, Pod, Phase, pending, running, succeeded,
  failed, unknown, ContainerStatus, ReplicaSetState, get_pod, get_job, get_replica_set,
  list_selected, pure, raise, panics, ask, ask_anyway, settle, paused, ◌>>=◌, ◌>>◌, JobStatus,
}
use verify_directory_operato.Controller.Handle.{Handle, new_error}

-- `pod.Status.ContainerStatuses[0]` and the cases of the switch on the phase.
unfoldable pub pod_started : {W : Type 0} → Phase → List ContainerStatus → M W Bool
pod_started running [] = panics
pod_started running (s ∷ rest) =
    if s.ready
    then pure true
    else if ltb 3 s.restart_count
    then raise (new_error "The pod has been restarted too many times.")
    else pure false
pod_started failed statuses = raise (new_error "The pod is no longer running")
pod_started succeeded statuses = raise (new_error "The pod is no longer running")
pod_started pending statuses = pure false
pod_started unknown statuses = pure false

unfoldable pub job_done : {W : Type 0} → JobStatus → M W Bool
job_done j =
    if ltb 0 j.failures
    then raise (new_error "The job failed!")
    else if ltb 0 j.successes
    then pure true
    else pure false

unfoldable pub first_name : {W : Type 0} → List Pod → M W String
first_name [] = panics
first_name (pod ∷ rest) = pure pod.name

module _ {W : Type 0} (E : Env W) where
  -- The condition function of isJobComplete
  unfoldable pub is_job_complete : Handle → String → M W Bool
  unfolding job_done
  is_job_complete h name = do
    found ← settle (ask E (get_job h.directory.namespace name))
    on_answer found (λ status. job_done status) (λ e. pure false)

  -- The condition function of isPodOpComplete
  unfoldable pub is_pod_op_complete : Handle → String → Bool → M W Bool
  unfolding pod_started
  is_pod_op_complete h name wait_for_start = do
    found ← settle (ask E (get_pod h.directory.namespace name))
    on_answer found
        (λ pod. if wait_for_start then pod_started pod.phase pod.statuses else pure false)
        (λ e. if wait_for_start then pure false else pure true)

  -- waitForPod
  unfoldable pub wait_for_pod : Handle → String → M W (Unit {0})
  wait_for_pod h name = do
    done ← settle (E.poll_immediate 1 600 (is_pod_op_complete h name true))
    on_answer done (λ _. pure tt)
        (λ e. raise (
          new_error
            ("The pod, " <> (name <> ", failed to become ready within the allocated time."))))

  -- waitForJob
  unfoldable pub wait_for_job : Handle → String → M W (Unit {0})
  wait_for_job h name = E.poll_immediate 1 600 (is_job_complete h name)

  -- The loop of getReplicaSetPodName, with the rounds that are left.
  unfoldable pub await_labeled : ℕ → Handle → String → ReplicaSetState → M W ReplicaSetState
  await_labeled zero h name rs = pure rs
  await_labeled (suc rounds) h name rs = if leb 1 rs.fully_labeled then pure rs else do
    paused E 2
    again ← ask_anyway E (get_replica_set h.directory.namespace name)
    await_labeled rounds h name again

  -- getReplicaSetPodName; it panics where no pod is listed.
  unfoldable pub get_replica_set_pod_name : Handle → String → M W String
  unfolding await_labeled first_name
  get_replica_set_pod_name h name = do
    found ← ask_anyway E (get_replica_set h.directory.namespace name)
    rs ← await_labeled 60 h name found
    pods ← ask_anyway E (list_selected h.directory.namespace (E.selector_text rs.selector))
    first_name pods

-- ===== src/Controller/Pods/Requests.antt =====
-- The requests of the functions that look for pods and wait for them.
use verify_directory_operato.Base.{
  ℕ, zero, suc, ◌≡◌, refl, Bool, true, false, String, List, [], ◌∷◌,
}
use verify_directory_operato.Kube.{
  Env, Request, get_directory, list_pods, get_config_map, get_secret, get_pvc, get_pod, get_job,
  get_replica_set, list_selected, get_service, get_deployment, ReplicaSetState, JobStatus, Phase,
  pending, running, succeeded, failed, unknown, ContainerStatus, Pod,
}
use verify_directory_operato.Kube.Rules.{
  Emits, Emits-pure, Emits-raise, Emits-panics, Emits-if, Emits-settle, Emits-bind, Emits-answer,
  Emits-each, Emits-ask, Emits-ask_anyway, Emits-shuffled, Emits-paused, PollsFairly,
}
use verify_directory_operato.Controller.Handle.{Handle}
use verify_directory_operato.Controller.Pods.{
  get_replica_set_pod_name, is_pod_op_complete, is_job_complete, await_labeled, pod_started,
  job_done, first_name, wait_for_pod, wait_for_job,
}

-- A request that changes nothing on the API server.
abbrev pub is_read : Request → Bool
is_read (get_directory ns name) = true
is_read (list_pods ns labels) = true
is_read (get_config_map ns name) = true
is_read (get_secret ns name) = true
is_read (get_pvc ns name) = true
is_read (get_pod ns name) = true
is_read (get_job ns name) = true
is_read (get_replica_set ns name) = true
is_read (list_selected ns selector) = true
is_read (get_service ns name) = true
is_read (get_deployment ns name) = true
is_read _ = false

pub ruleset emits_rules = (
  Emits-pure, Emits-raise, Emits-panics, Emits-if, Emits-settle, Emits-bind, Emits-answer,
  Emits-ask, Emits-ask_anyway, Emits-shuffled, Emits-paused, Emits-each,
)

module _ {W : Type 0} (P : Request → Type 0) where
  Emits-pod_started : (p : Phase) (ss : List ContainerStatus) → Emits {W = W} P (pod_started p ss)
  unfolding pod_started
  Emits-pod_started running [] = search emits_rules
  Emits-pod_started running (s ∷ ss) = search emits_rules
  Emits-pod_started pending ss = search emits_rules
  Emits-pod_started succeeded ss = search emits_rules
  Emits-pod_started failed ss = search emits_rules
  Emits-pod_started unknown ss = search emits_rules

  Emits-job_done : (j : JobStatus) → Emits {W = W} P (job_done j)
  unfolding job_done
  Emits-job_done j = search emits_rules

  Emits-first_name : (pods : List Pod) → Emits {W = W} P (first_name pods)
  unfolding first_name
  Emits-first_name [] = search emits_rules
  Emits-first_name (p ∷ ps) = search emits_rules

module _ {W : Type 0} (E : Env W) (P : Request → Type 0)
    (reads : (q : Request) → is_read q ≡ true → P q) where
  Emits-await_labeled :
      (n : ℕ) (h : Handle) (name : String) (rs : ReplicaSetState)
      → Emits P (await_labeled E n h name rs)
  unfolding await_labeled
  Emits-await_labeled zero h name rs = Emits-pure P rs
  Emits-await_labeled (suc n) h name rs =
      let ih : (again : ReplicaSetState) → Emits P (await_labeled E n h name again) =
        λ again. Emits-await_labeled n h name again in
      search (emits_rules, ih, reads (get_replica_set h.directory.namespace name) refl) depth 9

  pub Emits-get_replica_set_pod_name :
      (h : Handle) (name : String) → Emits P (get_replica_set_pod_name E h name)
  unfolding get_replica_set_pod_name
  Emits-get_replica_set_pod_name h name =
      search
        (
          emits_rules,
          Emits-await_labeled,
          Emits-first_name,
          reads (get_replica_set h.directory.namespace name) refl,
        )
        depth 12

  pub Emits-is_pod_op_complete :
      (h : Handle) (name : String) (start : Bool) → Emits P (is_pod_op_complete E h name start)
  unfolding is_pod_op_complete
  Emits-is_pod_op_complete h name start =
      search (emits_rules, Emits-pod_started, reads (get_pod h.directory.namespace name) refl) depth
        9

  pub Emits-is_job_complete : (h : Handle) (name : String) → Emits P (is_job_complete E h name)
  unfolding is_job_complete
  Emits-is_job_complete h name =
      search (emits_rules, Emits-job_done, reads (get_job h.directory.namespace name) refl) depth 9

  module _ (polls : PollsFairly E) where
    pub Emits-wait_for_pod : (h : Handle) (name : String) → Emits P (wait_for_pod E h name)
    unfolding wait_for_pod
    Emits-wait_for_pod h name = search (emits_rules, polls.emits, Emits-is_pod_op_complete) depth 9

    pub Emits-wait_for_job : (h : Handle) (name : String) → Emits P (wait_for_job E h name)
    unfolding wait_for_job
    Emits-wait_for_job h name = polls.emits P 1 600 _ (Emits-is_job_complete h name)

-- ===== src/Controller/Pods/Waits.antt =====
-- waitForPod: what the API server has answered when it returns.
use verify_directory_operato.Base.{◌≡◌, refl, Bool, true, false, String, ◌<>◌, List, [], ◌∷◌, arith}
use verify_directory_operato.Kube.{
  Env, ok, Answer, granted, refused, Pod, Phase, pending, running, succeeded, failed, unknown,
  ContainerStatus, get_pod, pure, raise, panics, ask, settle, on_answer, ◌>>=◌,
}
use verify_directory_operato.Kube.Rules.{PollsFairly, bind-returned, settle-granted}
use verify_directory_operato.Controller.Handle.{Handle, new_error}
use verify_directory_operato.Controller.Pods.{is_pod_op_complete, pod_started, wait_for_pod}

-- The pod is running, and its first container is ready.
abbrev pub first_is_ready : List ContainerStatus → Bool
first_is_ready [] = false
first_is_ready (s ∷ rest) = s.ready

pub record IsServing (pod : Pod) : Type 0 where
  pub is_running : pod.phase ≡ running
  pub is_ready : first_is_ready pod.statuses ≡ true

pod_started-IsServing :
    {W : Type 0} (phase : Phase) (statuses : List ContainerStatus) (w : W)
    → (pod_started phase statuses w).outcome ≡ ok true
    → (phase ≡ running) × (first_is_ready statuses ≡ true)
unfolding pod_started pure raise panics
pod_started-IsServing running [] w e = absurd (cc)
pod_started-IsServing running (s ∷ rest) w e = (refl, ground arith)
pod_started-IsServing pending statuses w e = absurd (cc)
pod_started-IsServing succeeded statuses w e = absurd (cc)
pod_started-IsServing failed statuses w e = absurd (cc)
pod_started-IsServing unknown statuses w e = absurd (cc)

module _ {W : Type 0} (E : Env W) where
  is_pod_op_complete-IsServing :
      (h : Handle) (name : String) (w : W)
      → (is_pod_op_complete E h name true w).outcome ≡ ok true
      → (pod : Pod) × ((E.answer (get_pod h.directory.namespace name) w).0 ≡ granted pod)
        × IsServing pod
  unfolding is_pod_op_complete settle ask ◌>>=◌ pure
  is_pod_op_complete-IsServing h name w =
      cases (E.answer (get_pod h.directory.namespace name) w).0 refl
    where
      cases :
          (a : Answer Pod)
          → (E.answer (get_pod h.directory.namespace name) w).0 ≡ a
          → (is_pod_op_complete E h name true w).outcome ≡ ok true
          → (pod : Pod) × ((E.answer (get_pod h.directory.namespace name) w).0 ≡ granted pod)
            × IsServing pod
      cases (granted pod) e =
          rw (e, is_pod_op_complete, settle, ask, ◌>>=◌)
            (λ p.
              let (is_running, is_ready) = pod_started-IsServing pod.phase pod.statuses _ p in
              (pod, refl, record { is_running = is_running; is_ready = is_ready }))
      cases (refused x) e = rw (e, is_pod_op_complete, settle, ask, ◌>>=◌) (λ p. absurd (cc))

  -- The wait for a pod ends without an error only after the API server has answered that the pod
  -- is running and that its first container is ready.
  pub wait_for_pod-IsServing :
      PollsFairly E
      → (h : Handle) (name : String) (w : W) → (wait_for_pod E h name w).outcome ≡ ok tt
      → (w' : W) × (pod : Pod) × ((E.answer (get_pod h.directory.namespace name) w').0
          ≡ granted pod)
        × IsServing pod
  unfolding wait_for_pod pure raise
  wait_for_pod-IsServing polls h name w e =
      let (done, settled, rest) = bind-returned _ _ w tt e in
      let (w', is_done) = polls.seen 1 600 _ w (polled done settled rest) in
      let (pod, answered, serving) = is_pod_op_complete-IsServing h name w' is_done in
      (w', pod, answered, serving)
    where
      polled :
          (done : Answer (Unit {0}))
          → (settle (E.poll_immediate 1 600 (is_pod_op_complete E h name true)) w).outcome ≡ ok done
          → (on_answer done
              (λ _. pure tt)
              (λ x. raise (
                new_error
                  ("The pod, " <> (name <> ", failed to become ready within the allocated time."))))
              (settle (E.poll_immediate 1 600 (is_pod_op_complete E h name true)) w).after).outcome
            ≡ ok tt
          → (E.poll_immediate 1 600 (is_pod_op_complete E h name true) w).outcome ≡ ok tt
      polled (granted _) settled rest = settle-granted _ w tt settled
      polled (refused x) settled rest = absurd (cc)

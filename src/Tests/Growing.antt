-- ===== src/Tests/Growing.antt =====
-- The theorems on the creation of replicas at a concrete cluster.
use verify_directory_operato.Base.{◌≡◌, eq_iff, refl, Bool, true, false, [], ◌∷◌}
use verify_directory_operato.Kube.{
  Env, Request, Reply, Answer, granted, get_job, ask_anyway, pure, raise, settle, ask, each, ◌>>=◌,
}
use verify_directory_operato.Kube.Rules.{PollsFairly, NoError, Returns}
use verify_directory_operato.Kube.Endings.{EndsWith}
use verify_directory_operato.Kube.Monitor.{Safe}
use verify_directory_operato.Controller.Pods.{
  get_replica_set_pod_name, await_labeled, is_pod_op_complete, wait_for_job, is_job_complete,
  job_done,
}
use verify_directory_operato.Controller.Objects.{
  create_config_map, delete_config_map, execute_command,
}
use verify_directory_operato.Controller.Replica.{
  deploy_replica, seed_replica, delete_replica, unless_missing, create_replication_agreement,
}
use verify_directory_operato.Controller.Replica.Errors.{deploy_replica-NoError}
use verify_directory_operato.Controller.Grow.{grow, seed_replicas, or_clean_up, create_replicas}
use verify_directory_operato.Controller.Grow.Members.{Extends, create_replicas-Extends}
use verify_directory_operato.Controller.Grow.Seeding.{Cleans, seed_replicas-Cleans}
use verify_directory_operato.Controller.Grow.Order.{watched, grow-Safe}
use verify_directory_operato.Base.Dict.{has, contains}
use verify_directory_operato.Kube.Makes.{Makes}
use verify_directory_operato.Controller.Grow.Links.{Agrees, grow-Makes}
use verify_directory_operato.Controller.Grow.Failure.{
  FailsWith, StartsNone, create_replicas-StartsNone,
}
use verify_directory_operato.Controller.Handle.{new_error}
use verify_directory_operato.Tests.World.{
  world, handle, answers, world-PollsFairly, world-RangesOverKeys,
}

grow-Safe_example :
    Safe
      (watched handle "pvc1")
      false
      (grow world handle "pvc1" ("pvc2" ∷ []) (("pvc1", "isvd-pvc1") ∷ []))
grow-Safe_example =
    grow-Safe world world-PollsFairly handle "pvc1" ("pvc2" ∷ []) (("pvc1", "isvd-pvc1") ∷ [])

seed_replicas-Cleans_example :
    EndsWith (Cleans world handle) (seed_replicas world handle "pvc1" ("pvc2" ∷ []) false).trace
unfolding create_config_map seed_replicas or_clean_up seed_replica wait_for_job is_job_complete
    job_done delete_config_map settle ask each pure raise ◌>>=◌
seed_replicas-Cleans_example =
    seed_replicas-Cleans world handle "pvc1" ("pvc2" ∷ []) false refl (λ p. cc)

create_replicas-Extends_example :
    Returns
      (Extends (("pvc1", "isvd-pvc1") ∷ []) ("pvc2" ∷ []))
      (create_replicas world handle (("pvc1", "isvd-pvc1") ∷ []) ("pvc2" ∷ []))
create_replicas-Extends_example =
    create_replicas-Extends world handle (("pvc1", "isvd-pvc1") ∷ []) ("pvc2" ∷ [])

deploy_replica-NoError_example : NoError (deploy_replica world handle "pvc2")
deploy_replica-NoError_example = deploy_replica-NoError world handle "pvc2"

-- The cluster where every job fails.
abbrev failing_jobs : (q : Request) → Bool → Answer (Reply q) × Bool
failing_jobs (get_job ns name) up = (granted (record { failures = 1; successes = 0 }), up)
failing_jobs q up = answers q up

abbrev jobless_world : Env Bool
jobless_world = record world { answer = failing_jobs }

jobless_world-PollsFairly : PollsFairly jobless_world
jobless_world-PollsFairly = record {
  emits = world-PollsFairly.emits;
  seen = world-PollsFairly.seen;
}

create_replicas-StartsNone_example :
    FailsWith StartsNone
      (new_error "The job failed!")
      (create_replicas jobless_world handle (("pvc1", "isvd-pvc1") ∷ []) ("pvc2" ∷ []))
      true
unfolding create_replication_agreement execute_command get_replica_set_pod_name await_labeled
    delete_replica unless_missing is_pod_op_complete create_config_map seed_replicas or_clean_up
    seed_replica wait_for_job is_job_complete job_done delete_config_map settle ask ask_anyway each
    pure raise ◌>>=◌
create_replicas-StartsNone_example =
    create_replicas-StartsNone jobless_world jobless_world-PollsFairly handle ("pvc1", "isvd-pvc1")
      [] "pvc2" [] true (new_error "The job failed!") refl refl refl

grow-Makes_example :
    Makes
      (Agrees world handle "pvc1" "pvc3" "pvc2")
      (grow world handle "pvc1" ("pvc2" ∷ "pvc3" ∷ []) (("pvc1", "isvd-pvc1") ∷ []))
unfolding has contains
grow-Makes_example =
    grow-Makes world handle "pvc1" world-RangesOverKeys "pvc3" "pvc2" ("pvc2" ∷ "pvc3" ∷ [])
      (("pvc1", "isvd-pvc1") ∷ []) (λ e. apart ((eq_iff "pvc3" "pvc2").1 e)) refl refl
  where
    apart : false ≡ true → ⊥
    apart e = cc

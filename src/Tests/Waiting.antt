-- ===== src/Tests/Waiting.antt =====
-- The theorems on waiting for a pod and on config maps at a concrete cluster.
use verify_directory_operato.Base.{◌≡◌, ◌↔◌, refl, Bool, true}
use verify_directory_operato.Kube.{
  Pod, granted, get_pod, create, ok, pure, raise, settle, ask, ◌>>=◌,
}
use verify_directory_operato.Controller.Pods.{wait_for_pod, is_pod_op_complete, pod_started}
use verify_directory_operato.Controller.Pods.{get_replica_set_pod_name}
use verify_directory_operato.Controller.Pods.Bound.{
  IsWait, reading, reread, get_replica_set_pod_name-repeat,
}
use verify_directory_operato.Base.{ℕ, [], ◌∷◌, ◌++◌}
use verify_directory_operato.Base.Lists.{repeat}
use verify_directory_operato.Kube.{get_replica_set, list_selected}
use verify_directory_operato.Controller.Pods.Waits.{IsServing, wait_for_pod-IsServing}
use verify_directory_operato.Controller.Objects.{create_config_map, config_map_object}
use verify_directory_operato.Controller.Objects.Saved.{IsSaved, create_config_map_iff}
use verify_directory_operato.Tests.World.{world, handle, world-PollsFairly}

wait_for_pod-IsServing_example :
    (w' : Bool) × (pod : Pod) × ((world.answer (get_pod "ns" "isvd-pvc1-x7k2p") w').0 ≡ granted pod)
    × IsServing pod
unfolding wait_for_pod is_pod_op_complete pod_started settle ask pure raise ◌>>=◌
wait_for_pod-IsServing_example =
    wait_for_pod-IsServing world world-PollsFairly handle "isvd-pvc1-x7k2p" true refl

create_config_map_iff_example :
    ((create_config_map world handle "isvd-seed" "config.yaml" "seed:" true).outcome ≡ ok tt)
    ↔ IsSaved world handle "isvd-seed" "config.yaml" "seed:"
        (world.answer
          (create (config_map_object world handle "isvd-seed" "config.yaml" "seed:"))
          true).0
        (world.answer
          (create (config_map_object world handle "isvd-seed" "config.yaml" "seed:"))
          true).1
create_config_map_iff_example =
    create_config_map_iff world handle "isvd-seed" "config.yaml" "seed:" true

get_replica_set_pod_name-repeat_example :
    (n : ℕ) × IsWait world handle "isvd-pvc1" 60 (reading world handle "isvd-pvc1" true) n
    × ((get_replica_set_pod_name world handle "isvd-pvc1" true).trace
        ≡ get_replica_set "ns" "isvd-pvc1" ∷ repeat n (get_replica_set "ns" "isvd-pvc1")
          ++ (list_selected "ns" (
                world.selector_text
                  (reread world handle "isvd-pvc1"
                    (reading world handle "isvd-pvc1" true)
                    n).0.selector)
              ∷ []))
get_replica_set_pod_name-repeat_example =
    get_replica_set_pod_name-repeat world handle "isvd-pvc1" true

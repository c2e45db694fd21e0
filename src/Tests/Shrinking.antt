-- ===== src/Tests/Shrinking.antt =====
-- The theorems on the deletion of replicas at a concrete cluster.
use verify_directory_operato.Base.{◌≡◌, refl, true, Bool, String, [], ◌∷◌, ◌++◌}
use verify_directory_operato.Base.Lists.{repeat}
use verify_directory_operato.Base.Dict.{Dict}
use verify_directory_operato.Base.Text.{to_lower}
use verify_directory_operato.Names.{get_replica_pod_name}
use verify_directory_operato.Controller.Pods.{get_replica_set_pod_name, await_labeled, first_name}
use verify_directory_operato.Controller.Replica.{delete_replica}
use verify_directory_operato.Kube.{ask_anyway, ◌>>=◌, pure}
use verify_directory_operato.Kube.Rules.{Emits}
use verify_directory_operato.Controller.Shrink.{remove_replica, delete_replicas}
use verify_directory_operato.Controller.Shrink.Targets.{Removes, delete_replicas-Removes}
use verify_directory_operato.Controller.Shrink.Unlinks.{staying, removal, remove_replica-repeat}
use verify_directory_operato.Tests.World.{world, handle, world-PollsFairly}

delete_replicas-Removes_example : Emits (Removes handle ("pvc3" ∷ [])) (
    delete_replicas world handle (("pvc1", "isvd-pvc1") ∷ ("pvc3", "isvd-pvc3") ∷ []) ("pvc3" ∷ []))
delete_replicas-Removes_example =
    delete_replicas-Removes world world-PollsFairly handle
      (("pvc1", "isvd-pvc1") ∷ ("pvc3", "isvd-pvc3") ∷ []) ("pvc3" ∷ [])

remove_replica-repeat_example :
    let existing : Dict String = ("pvc1", "isvd-pvc1") ∷ ("pvc3", "isvd-pvc3") ∷ [] in
    let lookup = get_replica_set_pod_name world handle "isvd-pvc3" true in
    (after : Bool) × ((remove_replica world handle existing ("pvc3" ∷ []) "pvc3" true).trace
      ≡ lookup.trace
        ++ (repeat
              (staying ("pvc3" ∷ []) (world.shuffle existing lookup.after).0)
              (removal handle "isvd-pvc1-x7k2p" "isvd-pvc3")
            ++ (delete_replica world handle "pvc3" after).trace))
unfolding get_replica_set_pod_name await_labeled first_name ask_anyway ◌>>=◌ pure
    get_replica_pod_name to_lower
remove_replica-repeat_example =
    remove_replica-repeat world handle (("pvc1", "isvd-pvc1") ∷ ("pvc3", "isvd-pvc3") ∷ [])
      ("pvc3" ∷ []) "pvc3" "isvd-pvc1-x7k2p" true refl

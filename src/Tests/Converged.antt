-- ===== src/Tests/Converged.antt =====
-- A whole reconciliation that adds a replica.
use verify_directory_operato.Base.{◌≡◌, ◌⊎◌, refl, true, String, [], ◌∷◌}
use verify_directory_operato.Base.Dict.{Dict, insert, lookup}
use verify_directory_operato.Base.Text.{to_lower}
use verify_directory_operato.Names.{labels_for_replica}
use verify_directory_operato.Kube.{panic, get_directory, list_pods}
use verify_directory_operato.Controller.Reconcile.{reconcile, pods_by_pvc, no_config}
use verify_directory_operato.Controller.Converged.{Echoes, Settled, reconcile-standing}
use verify_directory_operato.Tests.World.{
  world, handle, document, pod, conditions_api, conditions_api-IsLawful, world-PollsFairly,
  world-RangesOverKeys,
}
use verify_directory_operato.Tests.Cluster.{codec, same_spec}

world-Echoes : Echoes world
world-Echoes d d' w e = cc

abbrev listed : Dict String
listed = ("pvc1", "isvd-pvc1") ∷ []

-- A replica of pvc1 runs, and the document names pvc1 and pvc2.
reconcile-standing_example :
    let run = reconcile world conditions_api codec same_spec "ns" "isvd" true in
    (run.outcome ≡ panic)
    ⊎ Settled world world-Echoes world-PollsFairly world-RangesOverKeys conditions_api
        conditions_api-IsLawful codec same_spec
        (record handle { config = no_config })
        listed
        "pvc2"
        (get_directory "ns" "isvd" ∷ list_pods "ns" (labels_for_replica "isvd" "") ∷ [])
        run.trace
unfolding to_lower pods_by_pvc insert lookup
reconcile-standing_example =
    reconcile-standing world world-Echoes world-PollsFairly world-RangesOverKeys conditions_api
      conditions_api-IsLawful codec same_spec "ns" "isvd" "pvc2" document (pod ∷ []) listed true
      refl refl refl refl refl (refl, tt) (refl, (refl, tt))

-- ===== src/Tests/Naming.antt =====
-- The theorems on names and labels at concrete names.
use verify_directory_operato.Base.{◌≡◌, ◌↔◌, refl, some, String, ◌<>◌}
use verify_directory_operato.Base.Dict.{lookup}
use verify_directory_operato.Base.Text.{before_last, to_lower}
use verify_directory_operato.Names.{
  labels_for_app, labels_for_pod, labels_for_replica, pvc_label, get_replica_pod_name,
  get_replica_deployment_name, get_proxy_deployment_name,
}
use verify_directory_operato.Names.Selection.{
  Selects, labels_for_replica-Selects, not-labels_for_app-Selects, labels_for_pod-Selects_iff,
}
use verify_directory_operato.Names.Injective.{
  get_replica_deployment_name-pod, get_replica_pod_name_iff,
}
use verify_directory_operato.Tests.World.{document}

labels_for_replica-Selects_example :
    Selects (labels_for_replica "isvd" "") (labels_for_pod "isvd" "isvd-pvc1" "pvc1")
    × (lookup pvc_label (labels_for_pod "isvd" "isvd-pvc1" "pvc1") ≡ some "pvc1")
labels_for_replica-Selects_example = labels_for_replica-Selects "isvd" "isvd-pvc1" "pvc1" (λ p. cc)

not-labels_for_app-Selects_example :
    ¬ Selects (labels_for_app "isvd" "") (labels_for_pod "isvd" "isvd-pvc1" "pvc1")
not-labels_for_app-Selects_example = not-labels_for_app-Selects "isvd" "isvd" "isvd-pvc1" "pvc1"

labels_for_pod-Selects_iff_example :
    Selects (labels_for_pod "isvd" "isvd-pvc1" "pvc1") (labels_for_pod "isvd" "isvd-pvc2" "pvc2")
    ↔ ((◌≡◌ {A = String} "isvd" "isvd")
        × (◌≡◌ {A = String} "isvd-pvc1" "isvd-pvc2")
        × (◌≡◌ {A = String} "pvc1" "pvc2"))
labels_for_pod-Selects_iff_example =
    labels_for_pod-Selects_iff "isvd" "isvd-pvc1" "pvc1" "isvd" "isvd-pvc2" "pvc2" (λ p. cc)

get_replica_deployment_name-pod_example :
    get_replica_deployment_name (get_replica_pod_name document "pvc1" <> ("-" <> "x7k2p"))
    ≡ some (get_replica_pod_name document "pvc1")
unfolding before_last
get_replica_deployment_name-pod_example =
    get_replica_deployment_name-pod document "pvc1" "x7k2p" refl

get_replica_pod_name_iff_example :
    (get_replica_pod_name document "Proxy" ≡ get_proxy_deployment_name "isvd")
    ↔ (to_lower "Proxy" ≡ "proxy")
get_replica_pod_name_iff_example = get_replica_pod_name_iff document "Proxy"

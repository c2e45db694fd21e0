-- ===== src/Tests/Reconciling.antt =====
-- The theorems on Reconcile at a concrete cluster whose server configuration cannot be decoded.
use verify_directory_operato.Base.{◌≡◌, refl, not, ◌&&◌, ◌||◌, Bool, true, false, String, [], ◌∷◌}
use verify_directory_operato.Base.Dict.{Dict, has, contains, insert, lookup}
use verify_directory_operato.Api.{Directory}
use verify_directory_operato.Kube.{refused, ReplicaSet, pure, raise, settle, ask, ◌>>=◌}
use verify_directory_operato.Kube.Rules.{NoError, Returns}
use verify_directory_operato.Kube.Endings.{EndsWith}
use verify_directory_operato.Controller.Handle.{new_error}
use verify_directory_operato.Controller.Proxy.{Codec}
use verify_directory_operato.Controller.Status.{set_condition, in_progress}
use verify_directory_operato.Controller.ServerConfig.{get_server_config, read_document}
use verify_directory_operato.Controller.Reconcile.{
  pods_by_pvc, add_replicas, analyse_existing_pods, apply_changes, conclude, progress, reconcile,
}
use verify_directory_operato.Controller.Reconcile.Analysis.{analyse_existing_pods-Returns}
use verify_directory_operato.Controller.Reconcile.Existing.{is_labeled, pods_by_pvc-has}
use verify_directory_operato.Controller.Reconcile.Convergence.{Converges, replicas-Converge}
use verify_directory_operato.Controller.Reconcile.Outcome.{
  Reports, progress-Reports, reconcile-NoError,
}
use verify_directory_operato.Tests.World.{
  world, handle, pod, document, conditions_api, conditions_api-IsLawful, world-RangesOverKeys,
}

abbrev codec : Codec
codec = record {
  decode = λ s. refused (new_error "yaml");
  yaml_to_json = λ s. refused (new_error "yaml");
  json_to_yaml = λ s. refused (new_error "yaml");
}

abbrev same_spec : ReplicaSet → ReplicaSet → Bool
same_spec old new = true

abbrev started : Directory
started = record document { conditions = in_progress ∷ [] }

progress-Reports_example :
    EndsWith
      (Reports conditions_api false)
      (progress world conditions_api codec same_spec handle [] ([], "pvc1" ∷ []) false).trace
unfolding progress apply_changes get_server_config read_document conclude set_condition settle ask
    pure raise ◌>>=◌
progress-Reports_example =
    progress-Reports world conditions_api codec same_spec conditions_api-IsLawful handle []
      ([], "pvc1" ∷ []) false started refl (λ p. cc)

reconcile-NoError_example : NoError (reconcile world conditions_api codec same_spec "ns" "isvd")
reconcile-NoError_example = reconcile-NoError world conditions_api codec same_spec "ns" "isvd"

abbrev existing : Dict String
existing = ("pvc1", "isvd-pvc1") ∷ []

analyse_existing_pods-Returns_example :
    Returns
      (λ changes.
        (contains "pvc2" changes.0
          ≡ (has "pvc2" existing && not (contains "pvc2" handle.directory.spec.pvcs)))
        × (contains "pvc2" changes.1
            ≡ (contains "pvc2" handle.directory.spec.pvcs && not (has "pvc2" existing)))
        × (((has "pvc2" existing && not (contains "pvc2" changes.0)) || contains "pvc2" changes.1)
            ≡ contains "pvc2" handle.directory.spec.pvcs))
      (analyse_existing_pods world handle existing)
analyse_existing_pods-Returns_example =
    analyse_existing_pods-Returns world world-RangesOverKeys handle existing "pvc2"

pods_by_pvc-has_example :
    has "pvc1" existing ≡ (has {V = String} "pvc1" [] || is_labeled "pvc1" (pod ∷ []))
unfolding pods_by_pvc insert lookup
pods_by_pvc-has_example = pods_by_pvc-has (pod ∷ []) [] existing "pvc1" refl

replicas-Converge_example : Returns (Converges handle "pvc2") (
    analyse_existing_pods world handle existing >>= λ changes.
    add_replicas world conditions_api codec same_spec handle existing changes >>= λ after.
    pure (after, changes.0))
replicas-Converge_example =
    replicas-Converge world conditions_api codec same_spec world-RangesOverKeys handle existing
      "pvc2"

-- ===== src/Tests/Cluster.antt =====
-- The theorems on a whole reconciliation, in a cluster whose server configuration can be decoded.
use verify_directory_operato.Base.{◌≡◌, refl, Bool, true, String, [], ◌∷◌}
use verify_directory_operato.Base.Dict.{Dict, has, contains}
use verify_directory_operato.Base.Text.{to_lower}
use verify_directory_operato.Yaml.{Value, dict, text, seq, nil, cons, end, field}
use verify_directory_operato.Kube.{ReplicaSet, granted, ◌>>=◌}
use verify_directory_operato.Kube.Ensures.{Ensures}
use verify_directory_operato.Kube.Follows.{Follows}
use verify_directory_operato.Controller.Proxy.{Codec}
use verify_directory_operato.Controller.Reconcile.{analyse_existing_pods, apply_changes}
use verify_directory_operato.Controller.Standing.{standing}
use verify_directory_operato.Controller.Standing.Whole.{apply_changes-Ensures}
use verify_directory_operato.Tests.World.{
  world, handle, conditions_api, world-PollsFairly, world-RangesOverKeys,
}

abbrev pub configuration : Value
configuration = dict (
    field "general"
      (dict (
        field "license" (dict (field "key" (text "key") end))
          (field "admin" (dict (field "pwd" (text "secret") end)) end)))
      (field "server"
        (dict (field "suffixes" (seq (cons (dict (field "dn" (text "o=sample") end)) nil)) end))
        end))

abbrev pub codec : Codec
codec = record {
  decode = λ s. granted configuration;
  yaml_to_json = λ s. granted "{\"general\":{}}";
  json_to_yaml = λ s. granted s;
}

abbrev pub same_spec : ReplicaSet → ReplicaSet → Bool
same_spec old new = true

-- The document has pvc1 and pvc2, and there are replicas of pvc1 and pvc3.
abbrev pub existing : Dict String
existing = ("pvc1", "isvd-pvc1") ∷ ("pvc3", "isvd-pvc3") ∷ []

apply_changes-Ensures_example :
    Ensures
      (standing handle.directory "pvc3")
      (has "pvc3" existing)
      (λ _ t. t ≡ contains "pvc3" handle.directory.spec.pvcs)
      (analyse_existing_pods world handle existing
        >>= apply_changes world conditions_api codec same_spec handle existing)
unfolding to_lower
apply_changes-Ensures_example =
    apply_changes-Ensures world world-PollsFairly world-RangesOverKeys conditions_api codec
      same_spec handle existing "pvc3" refl (refl, (refl, tt)) (refl, (refl, tt))

-- ===== src/Webhook/Pods/Requests.antt =====
-- The requests of validatePods.
use verify_directory_operato.Base.{refl, true, String, List, [], ◌∷◌}
use verify_directory_operato.Names.{labels_for_app}
use verify_directory_operato.Api.{Directory}
use verify_directory_operato.Yaml.{Value}
use verify_directory_operato.Kube.{
  Env, Answer, Phase, pending, running, succeeded, failed, unknown, ContainerStatus, list_pods,
  get_pod,
}
use verify_directory_operato.Kube.Rules.{
  Emits, Emits-pure, Emits-raise, Emits-panics, Emits-if, Emits-bind, Emits-ask, Emits-each,
  Emits-shuffled,
}
use verify_directory_operato.Webhook.Master.Requests.{Observes, Emits-get_primary_write_masters}
use verify_directory_operato.Webhook.Pods.{
  unready, check_ready, check_not_master, validate_changes, validate_if_changed, validate_pods,
}

module _ {W : Type 0} where
  Emits-unready : (p : Phase) (ss : List ContainerStatus) → Emits {W = W} Observes (unready p ss)
  unfolding unready
  Emits-unready running [] = Emits-panics Observes
  Emits-unready running (s ∷ rest) = Emits-pure Observes _
  Emits-unready pending ss = Emits-pure Observes true
  Emits-unready succeeded ss = Emits-pure Observes true
  Emits-unready failed ss = Emits-pure Observes true
  Emits-unready unknown ss = Emits-pure Observes true

module _ {W : Type 0} (E : Env W) where
  Emits-check_ready : (d : Directory) (name : String) → Emits Observes (check_ready E d name)
  unfolding check_ready
  Emits-check_ready d name =
      Emits-bind Observes _ _ (Emits-ask E Observes (get_pod d.namespace name) refl) λ pod.
        Emits-bind Observes _ _ (Emits-unready pod.phase pod.statuses)
          λ bad. Emits-if Observes bad _ _ (Emits-raise Observes _) (Emits-pure Observes tt)

  Emits-check_not_master :
      (primaries : List String) (pvc : String) → Emits Observes (check_not_master E primaries pvc)
  unfolding check_not_master
  Emits-check_not_master primaries pvc =
      Emits-if Observes _ _ _ (Emits-raise Observes _) (Emits-pure Observes tt)

module _ {W : Type 0} (E : Env W) (decode : String → Answer Value) where
  Emits-validate_changes :
      (d : Directory) (to_be_deleted to_be_left : List String)
      → Emits Observes (validate_changes E decode d to_be_deleted to_be_left)
  unfolding validate_changes
  Emits-validate_changes d to_be_deleted to_be_left =
      Emits-bind Observes _ _ (Emits-each Observes _ (Emits-check_ready E d) to_be_left) λ _.
        Emits-bind Observes _ _ (Emits-get_primary_write_masters E decode d)
          λ primaries. Emits-each Observes _ (Emits-check_not_master E primaries) to_be_deleted

  Emits-validate_if_changed :
      (d : Directory) (to_be_deleted to_be_added to_be_left : List String)
      → Emits Observes (validate_if_changed E decode d to_be_deleted to_be_added to_be_left)
  unfolding validate_if_changed
  Emits-validate_if_changed d [] [] left = Emits-pure Observes tt
  Emits-validate_if_changed d [] (a ∷ as') left = Emits-validate_changes d _ left
  Emits-validate_if_changed d (x ∷ xs) [] left = Emits-validate_changes d _ left
  Emits-validate_if_changed d (x ∷ xs) (a ∷ as') left = Emits-validate_changes d _ left

  pub Emits-validate_pods : (d : Directory) → Emits Observes (validate_pods E decode d)
  unfolding validate_pods
  Emits-validate_pods d =
      Emits-bind Observes _ _
        (Emits-ask E Observes (list_pods d.namespace (labels_for_app d.name "")) refl)
        λ listed.
          Emits-bind Observes _ _ (Emits-shuffled E Observes _)
            λ order. Emits-validate_if_changed d _ _ _

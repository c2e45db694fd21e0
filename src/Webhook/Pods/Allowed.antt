-- ===== src/Webhook/Pods/Allowed.antt =====
-- Which updates validatePods lets pass.
use verify_directory_operato.Base.{
  ◌≡◌, inl, inr, refl, Bool-cases, true, false, String, List, [], ◌∷◌, arith,
}
use verify_directory_operato.Base.Dict.{Dict, contains}
use verify_directory_operato.Names.{labels_for_app}
use verify_directory_operato.Api.{Directory}
use verify_directory_operato.Yaml.{Value}
use verify_directory_operato.Kube.{
  Env, Answer, granted, Pod, Phase, running, ContainerStatus, get_pod, list_pods, shuffled,
}
use verify_directory_operato.Kube.Rules.{RangesOverEntries}
use verify_directory_operato.Kube.Completes.{
  Completes, Any, Completes-bind, Completes-pure, Completes-granted, Completes-each-All,
}
use verify_directory_operato.Controller.Reconcile.{obsolete}
use verify_directory_operato.Base.Lists.{All}
use verify_directory_operato.Controller.Pods.Waits.{IsServing, first_is_ready}
use verify_directory_operato.Webhook.Master.Contact.{Answers}
use verify_directory_operato.Webhook.Master.Named.{get_primary_write_masters-Completes}
use verify_directory_operato.Webhook.Pods.Entries.{pods_by_label-All, left_alone-All}
use verify_directory_operato.Webhook.Pods.{
  unready, check_ready, check_not_master, validate_changes, validate_if_changed, validate_pods,
}

-- A pod of that name is running, and its first container is ready, whenever it is read.
abbrev pub Serves : {W : Type 0} → Env W → Directory → String → Type 0
Serves {W} E d name =
    (w : W)
    → (pod : Pod) × ((E.answer (get_pod d.namespace name) w).0 ≡ granted pod) × IsServing pod

-- The PVCs that the proxy names are PVCs of the document.
abbrev pub Belongs : Directory → List String → Type 0
Belongs d primaries =
    (pvc : String) → contains pvc primaries ≡ true → contains pvc d.spec.pvcs ≡ true

-- The listed pods serve, and the proxy answers and writes to PVCs of the document only.
pub record Allows {W : Type 0} (E : Env W) (decode : String → Answer Value) (d : Directory)
    : Type 0 where
  pub pods : List Pod
  pub lists :
      (w : W) → (E.answer (list_pods d.namespace (labels_for_app d.name "")) w).0 ≡ granted pods
  pub serves : All (λ pod. Serves E d pod.name) pods
  pub answers : Answers E decode d (Belongs d)

module _ {W : Type 0} (E : Env W) (decode : String → Answer Value) where
  shuffled-All :
      RangesOverEntries E
      → (R : String × String → Type 0) (m : Dict String) → All R m
      → Completes (All R) (shuffled E m)
  unfolding shuffled
  shuffled-All entries R m h = record { at = λ w. (_, refl, entries.entries R m w h) }

  unready-Completes :
      (phase : Phase) (statuses : List ContainerStatus)
      → phase ≡ running
      → first_is_ready statuses ≡ true
      → Completes {W = W} (λ bad. bad ≡ false) (unready phase statuses)
  unfolding unready
  unready-Completes running [] e ready = absurd (cc)
  unready-Completes running (s ∷ rest) e ready = Completes-pure _ _ (rw (ready) refl)
  unready-Completes _ statuses e ready = absurd (cc)

  check_ready-Completes :
      (d : Directory) (name : String) → Serves E d name → Completes Any (check_ready E d name)
  unfolding check_ready
  check_ready-Completes d name serves =
      Completes-bind IsServing Any _ _
        (Completes-granted E (get_pod d.namespace name) IsServing serves)
        λ pod ready.
          Completes-bind (λ bad. bad ≡ false) Any _ _
            (unready-Completes pod.phase pod.statuses ready.is_running ready.is_ready)
            λ bad e. rw (e) (Completes-pure Any tt tt)

  check_not_master-Completes :
      (d : Directory) (primaries : List String)
      → Belongs d primaries
      → (pvc : String) → contains pvc d.spec.pvcs ≡ false
      → Completes Any (check_not_master E primaries pvc)
  unfolding check_not_master
  check_not_master-Completes d primaries belongs pvc gone =
      let other : contains pvc primaries ≡ false = ground (arith, gone, belongs pvc) in
      rw (other, check_not_master) (Completes-pure Any tt tt)

  -- The pods and the proxy have nothing against any change.
  validate_changes-Completes :
      (d : Directory)
      → Answers E decode d (Belongs d)
      → (gone left : List String) → All (λ pvc. contains pvc d.spec.pvcs ≡ false) gone
      → All (Serves E d) left
      → Completes Any (validate_changes E decode d gone left)
  unfolding validate_changes
  validate_changes-Completes d answers gone left away serves =
      Completes-bind Any Any _ _
        (Completes-each-All (Serves E d) _ (check_ready-Completes d) left serves)
        λ _ _.
          Completes-bind (Belongs d) Any _ _
            (get_primary_write_masters-Completes E decode d (Belongs d) answers)
            λ primaries belongs.
              Completes-each-All _ _ (check_not_master-Completes d primaries belongs) gone away

  obsolete-away :
      (pvcs : List String) (pods : Dict String)
      → All (λ pvc. contains pvc pvcs ≡ false) (obsolete pvcs pods)
  unfolding obsolete
  obsolete-away pvcs [] = tt
  obsolete-away pvcs ((pvc, name) ∷ pods) = elim (Bool-cases (contains pvc pvcs)) [
    | inl p ↦ rw (p, obsolete) (obsolete-away pvcs pods)
    | inr p ↦ rw (p, obsolete) (p, obsolete-away pvcs pods)
  ]

  validate_if_changed-Completes :
      (d : Directory)
      → Allows E decode d
      → (gone fresh left : List String) → All (λ pvc. contains pvc d.spec.pvcs ≡ false) gone
      → All (Serves E d) left
      → Completes Any (validate_if_changed E decode d gone fresh left)
  unfolding validate_if_changed
  validate_if_changed-Completes d allows [] [] left away serves = Completes-pure Any tt tt
  validate_if_changed-Completes d allows [] (x ∷ xs) left away serves =
      validate_changes-Completes d allows.answers [] left away serves
  validate_if_changed-Completes d allows (x ∷ xs) fresh left away serves =
      validate_changes-Completes d allows.answers (x ∷ xs) left away serves

  -- The check of the pods passes.
  pub validate_pods-Completes :
      RangesOverEntries E
      → (d : Directory) → Allows E decode d
      → Completes Any (validate_pods E decode d)
  unfolding validate_pods
  validate_pods-Completes entries d allows =
      Completes-bind (λ pods. pods ≡ allows.pods) Any _ _
        (Completes-granted E (list_pods d.namespace (labels_for_app d.name "")) _
          (λ w. (allows.pods, allows.lists w, refl)))
        λ pods same.
          Completes-bind (All (λ e. Serves E d e.1)) Any _ _
            (shuffled-All entries (λ e. Serves E d e.1) _
              (pods_by_label-All (Serves E d) pods [] (rw (same) allows.serves) tt))
            λ order serves.
              validate_if_changed-Completes d allows _ _ _ (obsolete-away d.spec.pvcs order)
                (left_alone-All (Serves E d) d.spec.pvcs order serves)

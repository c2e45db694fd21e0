-- ===== src/Webhook/Order.antt =====
-- What an update that the webhook accepts satisfies.
use verify_directory_operato.Base.{
  ◌≡◌, true, false, Option, none, some, String, inl, inr, Bool-cases,
}
use verify_directory_operato.Api.{Directory}
use verify_directory_operato.Yaml.{Value}
use verify_directory_operato.Kube.{Env, Answer, ok, pure, raise}
use verify_directory_operato.Kube.Rules.{bind-returned}
use verify_directory_operato.Controller.Status.{ConditionApi}
use verify_directory_operato.Webhook.{
  validate_document_state, old_directory, validate_idle_update, validate_update,
}
use verify_directory_operato.Webhook.Document.{validate_document}
use verify_directory_operato.Webhook.Document.Unique.{has_distinct_pvcs, check_unique_iff}
use verify_directory_operato.Webhook.Updates.{SamePods, validate_document_updates_iff}

-- An update of an idle document that is not failing, from an old document with the same pods, to
-- one with distinct PVCs.
pub record Acceptable (api : ConditionApi) (d : Directory) (old : Option Directory) : Type 0 where
  pub idle : api.is_true d.conditions "InProgress" ≡ false
  pub healthy : api.is_false d.conditions "Available" ≡ false
  pub before : Directory
  pub is_old : old ≡ some before
  pub same : SamePods d.spec.pods before.spec.pods
  pub distinct : has_distinct_pvcs d ≡ true

module _ {W : Type 0} (E : Env W) (api : ConditionApi) (decode : String → Answer Value) where
  validate_document-distinct :
      (d : Directory) (w : W)
      → (validate_document E decode d w).outcome ≡ ok tt
      → has_distinct_pvcs d ≡ true
  unfolding validate_document
  validate_document-distinct d w e =
      let (_, _, e1) = bind-returned _ _ _ tt e in
      let (_, _, e2) = bind-returned _ _ _ tt e1 in
      let (_, u, _) = bind-returned _ _ _ tt e2 in (check_unique_iff d _).0 u

  healthy_of :
      (d : Directory) (w : W)
      → (validate_document_state api d w).outcome ≡ ok tt
      → api.is_false d.conditions "Available" ≡ false
  unfolding validate_document_state raise
  healthy_of d w = elim (Bool-cases (api.is_false d.conditions "Available")) [
    | inl p ↦ rw (p, validate_document_state) (λ e. absurd (cc))
    | inr p ↦ λ e. p
  ]

  old_of :
      (old : Option Directory) (before : Directory) (w : W)
      → (old_directory old w).outcome ≡ ok before
      → old ≡ some before
  unfolding pure raise
  old_of none before w e = absurd (cc)
  old_of (some d) before w e = cc

  idle_update :
      (d : Directory) (old : Option Directory) (w : W)
      → api.is_true d.conditions "InProgress" ≡ false
      → (validate_idle_update E api decode d old w).outcome ≡ ok tt
      → Acceptable api d old
  unfolding validate_idle_update
  idle_update d old w idle e =
      let (_, valid, e1) = bind-returned _ _ w tt e in
      let (_, state, e2) = bind-returned _ _ _ tt e1 in
      let (before, read, e3) = bind-returned _ _ _ tt e2 in
      let (_, same, _) = bind-returned _ _ _ tt e3 in
      record {
        idle = idle;
        healthy = healthy_of d _ state;
        before = before;
        is_old = old_of old before _ read;
        same = (validate_document_updates_iff d before _).0 same;
        distinct = validate_document-distinct d w valid;
      }

  -- An update that is accepted is of a document that is not in progress and not failing, changes
  -- none of the fixed parts of the pods, and names distinct PVCs.
  pub validate_update-Acceptable :
      (d : Directory) (old : Option Directory) (w : W)
      → (validate_update E api decode d old w).outcome ≡ ok tt
      → Acceptable api d old
  unfolding validate_update raise
  validate_update-Acceptable d old w = elim (Bool-cases (api.is_true d.conditions "InProgress")) [
    | inl p ↦ rw (p, validate_update) (λ e. absurd (cc))
    | inr p ↦ rw (p, validate_update) (idle_update d old w p)
  ]

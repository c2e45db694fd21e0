-- ===== src/Webhook/Accepted.antt =====
-- Which updates the webhook lets pass.
use verify_directory_operato.Base.{◌≡◌, refl, sym, subst, Option, String}
use verify_directory_operato.Api.{Directory}
use verify_directory_operato.Yaml.{Value}
use verify_directory_operato.Kube.{Env, Answer, ok}
use verify_directory_operato.Kube.Rules.{RangesOverEntries}
use verify_directory_operato.Kube.Completes.{Completes, Any, Completes-bind, Completes-pure}
use verify_directory_operato.Controller.Status.{ConditionApi}
use verify_directory_operato.Webhook.{
  validate_document_state, old_directory, validate_idle_update, validate_update,
}
use verify_directory_operato.Webhook.Order.{Acceptable}
use verify_directory_operato.Webhook.Document.Accepted.{Resolves, validate_document-Completes}
use verify_directory_operato.Webhook.Updates.{
  validate_document_updates, validate_document_updates_iff,
}
use verify_directory_operato.Webhook.Pods.Allowed.{Allows, validate_pods-Completes}

module _ {W : Type 0} (E : Env W) (api : ConditionApi) (decode : String → Answer Value)
    (d : Directory) (old : Option Directory) (fit : Acceptable api d old) where
  state-Completes : Completes {W = W} Any (validate_document_state api d)
  unfolding validate_document_state
  state-Completes = rw (fit.healthy, validate_document_state) (Completes-pure Any tt tt)

  old-Completes : Completes {W = W} (λ before. before ≡ fit.before) (old_directory old)
  old-Completes =
      subst (λ o. Completes {W = W} (λ before. before ≡ fit.before) (old_directory o))
        (sym fit.is_old) (Completes-pure _ fit.before refl)

  updates-Completes :
      (before : Directory)
      → before ≡ fit.before
      → Completes {W = W} Any (validate_document_updates d before)
  updates-Completes before e =
      subst (λ o. Completes {W = W} Any (validate_document_updates d o)) (sym e)
        (record { at = λ w. (tt, (validate_document_updates_iff d fit.before w).1 fit.same, tt) })

  -- Let the update be of a document that is neither in progress nor failing, with the pods of the old
  -- one and distinct PVCs; let all that the document refers to be there, and the base configuration
  -- of the proxy hold nothing that the operator generates. Let the listed pods be running with their
  -- first container ready, let the proxy's service be there, and its configuration with the LDAP
  -- port, and with the administrator's name and password, each as it is or in a secret; let the
  -- proxy, at the address of its service, with LDAPS where that port is 0, grant the bind as the
  -- administrator and the search for its partitions, and let the primary write masters in the
  -- result be PVCs of the document. Then ValidateUpdate accepts the update.
  pub validate_update-accepts :
      Resolves E decode d
      → RangesOverEntries E
      → Allows E decode d
      → (w : W) → (validate_update E api decode d old w).outcome ≡ ok tt
  unfolding validate_update validate_idle_update
  validate_update-accepts there entries pods w =
      rw (fit.idle, validate_update)
        ((Completes-bind Any Any _ _ (validate_document-Completes E decode d fit.distinct there)
            λ _ _. Completes-bind Any Any _ _ state-Completes λ _ _.
              Completes-bind _ Any _ _ old-Completes λ before e.
                Completes-bind Any Any _ _ (updates-Completes before e)
                  (λ _ _. validate_pods-Completes E decode entries d pods)).at
          w).1

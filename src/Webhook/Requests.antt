-- ===== src/Webhook/Requests.antt =====
-- What the webhook asks of the cluster and of the proxy.
use verify_directory_operato.Base.{Bool, Option, none, some, String}
use verify_directory_operato.Api.{Directory}
use verify_directory_operato.Yaml.{Value}
use verify_directory_operato.Kube.{Env, Answer}
use verify_directory_operato.Kube.Rules.{Emits, Emits-pure, Emits-raise, Emits-if, Emits-bind}
use verify_directory_operato.Controller.Status.{ConditionApi}
use verify_directory_operato.Webhook.Document.Requests.{Emits-validate_document}
use verify_directory_operato.Webhook.Master.Requests.{Observes, Observes-is_read}
use verify_directory_operato.Webhook.Updates.{compare_elements, validate_document_updates}
use verify_directory_operato.Webhook.Pods.Requests.{Emits-validate_pods}
use verify_directory_operato.Webhook.{
  validate_document_state, old_directory, validate_idle_update, validate_update,
}

module _ {W : Type 0} where
  Emits-old_directory : (old : Option Directory) → Emits {W = W} Observes (old_directory old)
  Emits-old_directory none = Emits-raise Observes _
  Emits-old_directory (some d) = Emits-pure Observes d

  Emits-validate_document_state :
      (api : ConditionApi) (d : Directory) → Emits {W = W} Observes (validate_document_state api d)
  unfolding validate_document_state
  Emits-validate_document_state api d =
      Emits-if Observes _ _ _ (Emits-raise Observes _) (Emits-pure Observes tt)

  Emits-compare_elements :
      (same : Bool) (name : String) → Emits {W = W} Observes (compare_elements same name)
  unfolding compare_elements
  Emits-compare_elements same name =
      Emits-if Observes same _ _ (Emits-pure Observes tt) (Emits-raise Observes _)

  Emits-validate_document_updates :
      (d old : Directory) → Emits {W = W} Observes (validate_document_updates d old)
  unfolding validate_document_updates
  Emits-validate_document_updates d old = Emits-bind Observes _ _ (Emits-compare_elements _ _) λ _.
      Emits-bind Observes _ _ (Emits-compare_elements _ _) λ _.
        Emits-bind Observes _ _ (Emits-compare_elements _ _) λ _.
          Emits-bind Observes _ _ (Emits-compare_elements _ _) λ _.
            Emits-bind Observes _ _ (Emits-compare_elements _ _) λ _. Emits-compare_elements _ _

module _ {W : Type 0} (E : Env W) (api : ConditionApi) (decode : String → Answer Value) where
  -- Whatever the answers, the check of an update makes only reads of the API server and LDAP
  -- requests that open a connection, bind, search and close it.
  pub validate_update-Observes :
      (d : Directory) (old : Option Directory) → Emits Observes (validate_update E api decode d old)
  unfolding validate_update validate_idle_update
  validate_update-Observes d old = Emits-if Observes _ _ _ (Emits-raise Observes _) (
      Emits-bind Observes _ _ (Emits-validate_document E Observes Observes-is_read decode d) λ _.
        Emits-bind Observes _ _ (Emits-validate_document_state api d) λ _.
          Emits-bind Observes _ _ (Emits-old_directory old) λ before.
            Emits-bind Observes _ _ (Emits-validate_document_updates d before)
              λ _. Emits-validate_pods E decode d)

-- ===== src/Controller/Replica/Errors.antt =====
-- The errors that the creation of a replica can return.
use verify_directory_operato.Base.{String}
use verify_directory_operato.Kube.{Env}
use verify_directory_operato.Kube.Rules.{NoError, NoError-bind, NoError-settle}
use verify_directory_operato.Controller.Handle.{Handle}
use verify_directory_operato.Controller.Pods.Errors.{get_replica_set_pod_name-NoError}
use verify_directory_operato.Controller.Replica.{deploy_replica}

module _ {W : Type 0} (E : Env W) where
  -- The creation of a replica returns no error, even where the API server refuses it: the run
  -- returns a pod's name or panics.
  pub deploy_replica-NoError : (h : Handle) (pvc : String) → NoError (deploy_replica E h pvc)
  unfolding deploy_replica
  deploy_replica-NoError h pvc =
      NoError-bind _ _ (NoError-settle _) (λ _. get_replica_set_pod_name-NoError E h _)

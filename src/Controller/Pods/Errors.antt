-- ===== src/Controller/Pods/Errors.antt =====
-- getReplicaSetPodName: the errors that it can return.
use verify_directory_operato.Base.{ℕ, zero, suc, String, List, [], ◌∷◌}
use verify_directory_operato.Kube.{Env, Pod, ReplicaSetState, get_replica_set, list_selected}
use verify_directory_operato.Kube.Rules.{
  NoError, NoError-bind, NoError-pure, NoError-panics, NoError-if, NoError-ask_anyway,
  NoError-paused,
}
use verify_directory_operato.Controller.Handle.{Handle}
use verify_directory_operato.Controller.Pods.{await_labeled, first_name, get_replica_set_pod_name}

module _ {W : Type 0} (E : Env W) where
  first_name-NoError : (pods : List Pod) → NoError {W = W} (first_name pods)
  unfolding first_name
  first_name-NoError [] = NoError-panics
  first_name-NoError (pod ∷ rest) = NoError-pure pod.name

  await_labeled-NoError :
      (rounds : ℕ) (h : Handle) (name : String) (rs : ReplicaSetState)
      → NoError (await_labeled E rounds h name rs)
  unfolding await_labeled
  await_labeled-NoError zero h name rs = NoError-pure rs
  await_labeled-NoError (suc rounds) h name rs = NoError-if _ _ _ (NoError-pure rs) (
      NoError-bind _ _ (NoError-paused E 2) λ _.
        NoError-bind _ _ (NoError-ask_anyway E (get_replica_set h.directory.namespace name))
          λ again. await_labeled-NoError rounds h name again)

  pub get_replica_set_pod_name-NoError :
      (h : Handle) (name : String) → NoError (get_replica_set_pod_name E h name)
  unfolding get_replica_set_pod_name
  get_replica_set_pod_name-NoError h name =
      NoError-bind _ _ (NoError-ask_anyway E (get_replica_set h.directory.namespace name)) λ found.
        NoError-bind _ _ (await_labeled-NoError 60 h name found) λ rs.
          NoError-bind _ _ (NoError-ask_anyway E (list_selected _ _))
            (λ pods. first_name-NoError pods)

-- ===== src/Kube.antt =====
-- What the operator asks of Kubernetes and of the Go runtime, and how one of its functions runs:
-- over a world that is not modelled, to an outcome, with the trace of its requests. The API
-- server, the client, the clock and the pods are the parameter `Env`: no law of theirs is built in.
mod Objects
mod Effect
pub mod Rules
pub mod Endings
pub mod Monitor
pub mod Ensures
pub mod Follows
pub mod Completes
pub mod Makes
pub use Objects.*
pub use Effect.{Outcome, ok, fail, panic, Answer, granted, refused, Run, M, Reply, Env}
pub use Effect.{ReplicaSetState, Request}
pub use Effect.{
  get_directory, update_status, list_pods, get_config_map, get_secret, get_pvc, get_pod, get_job,
  get_replica_set, list_selected, get_service, get_deployment, create, update, update_deployment,
  patch, delete, exec, ldap_dial, ldap_bind, ldap_search, ldap_close,
}
pub use Effect.{or_panic, on_answer, ◌>>◌, then_run, continue, outcome_of, value_of}
unfoldable pub use Effect.{
  pure, raise, panics, ◌>>=◌, settle, each, ask, ask_anyway, shuffled, paused, clock,
}

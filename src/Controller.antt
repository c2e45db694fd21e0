-- ===== src/Controller.antt =====
-- src/controllers: the reconciler. `Pods` reads and awaits pods, `Objects` writes config maps,
-- services and commands, `Replica` deploys, seeds and deletes one replica, `Grow` adds replicas and
-- `Shrink` removes them, `ServerConfig` reads the server's configuration, `Status` keeps the
-- conditions, and `Reconcile` runs them.
pub mod Handle
pub mod Pods
pub mod Objects
pub mod Replica
pub mod Standing
pub mod Configured
pub mod Converged
pub mod Grow
pub mod Shrink
pub mod ServerConfig
pub mod Proxy
pub mod Status
pub mod Reconcile

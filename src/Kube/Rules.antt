-- ===== src/Kube/Rules.antt =====
-- Properties of a function's runs, with one rule for each way to build an effect: what its requests
-- are, that it returns no error, and what it returns.
mod Trace
mod Laws
mod Errors
mod Values
mod Runs
pub use Trace.*
pub use Laws.*
pub use Errors.*
pub use Values.*
pub use Runs.*

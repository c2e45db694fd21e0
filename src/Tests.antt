-- ===== src/Tests.antt =====
-- Concrete surroundings and documents, and the theorems at them. The children are named for the
-- parts of the program that they exercise.
mod World
mod Reconciling
mod Growing
mod Shrinking
mod Admission
mod Accepting
mod Naming
mod Starting
mod Waiting
mod Cluster
mod Converged
mod Configuring
mod Decoding

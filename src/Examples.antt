-- ===== src/Examples.antt =====
-- Concrete runs: a cluster, a catalog and an OpenFGA that the theorems are applied to.
pub mod World
pub mod Platform
pub mod Services
pub mod Requests
pub mod Reconciliations
pub mod Parts
pub mod Cluster
pub mod Components
pub mod Settings
pub mod Identities
pub mod Observed
pub mod Engines
pub mod Assembled

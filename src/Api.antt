-- ===== src/Api.antt =====
-- api/v1alpha1: the specification and the status of a data platform.
pub mod Constants
pub mod Defaults
pub mod Identity
pub mod Database
pub mod Access
pub mod Storage
pub mod Engines
pub mod Platform

-- ===== src/Catalog.antt =====
-- internal/controller/catalog.go and authzstore.go: the client of LakeKeeper's management API and
-- of OpenFGA.
pub mod Types
pub mod Http
pub mod Truncated
pub mod Client
pub mod Server
pub mod Roles

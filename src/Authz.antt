-- ===== src/Authz.antt =====
-- internal/controller/authzstore.go and openfga.go: the OpenFGA store behind row filters and
-- column access.
pub mod Model
pub mod Store
pub mod Types

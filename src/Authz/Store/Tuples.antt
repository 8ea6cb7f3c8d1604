-- ===== src/Authz/Store/Tuples.antt =====
-- What `EnsureAuthzTuples` has done when it returns no error.
use data_platform_operator.Base.{String, ◌<>◌}
use data_platform_operator.Base.Exec.Keeps.{Keeps}
use data_platform_operator.Base.Json.{Json}
use data_platform_operator.Catalog.Types.{AuthzTuple}
use data_platform_operator.Catalog.Http.{Http}
use data_platform_operator.Catalog.Server.{Server}
use data_platform_operator.Authz.Store.{tuple_json}

-- the tuple is in the store
abbrev pub TupleDone :
    {W : Type 0} → (W → String → Json → Type 0) → String → W → AuthzTuple → Type 0
TupleDone Done store_id w t = Done w ("stores/" <> store_id <> "/write") (tuple_json t)

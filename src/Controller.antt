-- ===== src/Controller.antt =====
-- internal/controller/dataplatform_controller.go: the reconciliation, over its components.
pub mod Parts
pub mod Conditions
pub mod Promise
pub mod Known
pub mod Ready
use data_platform_operator.Base.{
  ℕ, Bool, true, false, not, ◌&&◌, ◌||◌, Option, none, some, String, if◌then◌else◌,
}
use data_platform_operator.Base.Exec.{
  Error, Result, ok, err, Exec, pure, raise, branch, ◌>>=◌, ◌>>◌,
}
use data_platform_operator.Api.Platform.{DataPlatform, DataPlatformStatus}
use data_platform_operator.Api.Identity.{auth_is_enabled, auth_is_embedded}
use data_platform_operator.Api.Engines.{
  lakekeeper_is_enabled, lakekeeper_namespace_or_default, trino_is_enabled,
  trino_namespace_or_default, superset_is_enabled, superset_namespace_or_default,
}
use data_platform_operator.Reconciler.{Reconciler, State}
use data_platform_operator.Config.{
  OidcConfig, no_oidc, OpenfgaConfig, no_openfga, ObjectStore, no_object_store, PostgresConn,
}
use data_platform_operator.Cluster.{
  set_condition, condition_true, marking, ensure_namespace, patch_status,
}
use Parts.{Components}

-- `ctrl.Result`: nothing, or the seconds after which to come again
abbrev pub Requeue : Type 0
Requeue = Option ℕ

-- requeueWhileProgressing and requeueAccessSync
abbrev pub while_progressing : Requeue
while_progressing = some 15

abbrev pub access_sync : Requeue
access_sync = some 60

-- what the LakeKeeper stack hands on
pub record Stack : Type 0 where
  pub progressing : Bool
  pub store : ObjectStore
  pub oidc : OidcConfig
  pub fga : OpenfgaConfig

module _ {W C : Type 0} (r : Reconciler W C) (k : Components W C) (dp : DataPlatform) where
  unfoldable pub disable_lakekeeper : Exec (State W C) Stack
  disable_lakekeeper = do
    set_condition r dp "MinioReady" true "Disabled" "LakeKeeper is disabled"
    set_condition r dp "PostgresReady" true "Disabled" "LakeKeeper is disabled"
    set_condition r dp "LakekeeperReady" true "Disabled" "LakeKeeper is disabled"
    set_condition r dp "WarehouseReady" true "Disabled" "LakeKeeper is disabled"
    set_condition r dp "OpenFGAReady" true "Disabled" "LakeKeeper is disabled"
    (if auth_is_enabled dp.spec.auth
        then pure tt
        else set_condition r dp "AuthReady" true "Disabled" "LakeKeeper is disabled")
    pure (record { progressing = false; store = no_object_store; oidc = no_oidc; fga = no_openfga })

  -- LakeKeeper is rolled out only when its identity provider and OpenFGA are ready.
  unfoldable pub lakekeeper_or_wait :
      PostgresConn → OidcConfig → Bool → OpenfgaConfig → Bool → Exec (State W C) (Unit {0})
  lakekeeper_or_wait conn oidc auth_ready fga fga_ready =
      if auth_ready && fga_ready
      then k.reconcile_lakekeeper dp conn oidc fga
      else if not auth_ready
      then set_condition r dp "LakekeeperReady" false "NotReady" "Waiting for identity provider"
      else set_condition r dp "LakekeeperReady" false "NotReady" "Waiting for OpenFGA"

  -- The warehouse is provisioned only when everything below it is ready.
  unfoldable pub warehouse_or_wait :
      Bool → ObjectStore → OidcConfig → OpenfgaConfig → Exec (State W C) Stack
  warehouse_or_wait waiting store oidc fga =
      if waiting
      then pure (record { progressing = true; store = store; oidc = oidc; fga = fga })
      else do
        k.reconcile_warehouse dp store oidc fga
        ready ← condition_true r "WarehouseReady"
        pure (record { progressing = not ready; store = store; oidc = oidc; fga = fga })

  unfoldable pub enabled_lakekeeper : Exec (State W C) Stack
  enabled_lakekeeper = do
    ensure_namespace r dp (lakekeeper_namespace_or_default dp.spec.lakekeeper) "lakekeeper"
    conn ← k.reconcile_postgres dp
    store ← k.reconcile_object_store dp
    oidc ← k.reconcile_auth dp
    fga ← k.reconcile_authz dp
    lakekeeper_or_wait conn oidc.0 oidc.1 fga.0 fga.1
    postgres_ready ← condition_true r "PostgresReady"
    lakekeeper_ready ← condition_true r "LakekeeperReady"
    warehouse_or_wait
        (not postgres_ready || not lakekeeper_ready || not oidc.1 || not fga.1 || not store.1)
        store.0 oidc.0 fga.0

  unfoldable pub reconcile_lakekeeper_stack : Exec (State W C) Stack
  reconcile_lakekeeper_stack =
      if lakekeeper_is_enabled dp.spec.lakekeeper then enabled_lakekeeper else disable_lakekeeper

  unfoldable pub reconcile_trino_stack :
      ObjectStore → OidcConfig → OpenfgaConfig → Exec (State W C) Bool
  reconcile_trino_stack store oidc fga =
      if trino_is_enabled dp.spec.trino
      then (do
        ensure_namespace r dp (trino_namespace_or_default dp.spec.trino) "trino-coordinator"
        k.reconcile_opa dp oidc fga >>= λ opa_ready. k.reconcile_trino dp store oidc fga
        ready ← condition_true r "TrinoReady"
        pure (not ready))
      else set_condition r dp "TrinoReady" true "Disabled" "Trino is disabled" >> pure false

  unfoldable pub reconcile_superset_stack : OidcConfig → Exec (State W C) Bool
  reconcile_superset_stack oidc =
      if superset_is_enabled dp.spec.superset
      then (do
        ensure_namespace r dp (superset_namespace_or_default dp.spec.superset) "superset"
        k.reconcile_superset dp oidc
        ready ← condition_true r "SupersetReady"
        pure (not ready))
      else set_condition r dp "SupersetReady" true "Disabled" "Superset is disabled" >> pure false

  unfoldable pub conclude : Bool → Exec (State W C) Requeue
  conclude progressing =
      if progressing
      then (do
        set_condition r dp "Ready" false "Reconciling"
            "Waiting for enabled components to become ready"
        pure while_progressing)
      else do
        set_condition r dp "Ready" true "Ready" "All enabled components are ready"
        pure (
            if auth_is_enabled dp.spec.auth && auth_is_embedded dp.spec.auth
            then access_sync
            else none)

  -- `reconcile`: an error of any stack makes the platform not ready
  unfoldable pub reconcile : Exec (State W C) Requeue
  reconcile = do
    stack ← marking r dp "Ready" "Error" reconcile_lakekeeper_stack
    trino ← marking r dp "Ready" "Error" (reconcile_trino_stack stack.store stack.oidc stack.fga)
    superset ← marking r dp "Ready" "Error" (reconcile_superset_stack stack.oidc)
    sample ← marking r dp "Ready" "Error" (k.reconcile_sample_data dp stack.oidc)
    conclude (stack.progressing || trino || superset || sample)

-- `Reconcile` from the object's name. The object's status is what the reconciliation starts from,
-- it is written back also after an error, and an error of that write comes first.
module _ {W C : Type 0} (r : Reconciler W C) (k : Components W C) where
  abbrev run_from : DataPlatform → DataPlatformStatus C → W → Result Requeue × State W C
  run_from dp st w = reconcile r k dp (record { status = st; world = w })

  abbrev close : Result Requeue → Result (Unit {0}) × State W C → Result Requeue × W
  close out (ok u, s) = (out, s.world)
  close out (err e, s) = (err e, s.world)

  abbrev with_status : DataPlatform → Result Requeue × State W C → Result Requeue × W
  with_status dp (out, s) = close out (patch_status r dp s)

  abbrev load : Result (DataPlatform × DataPlatformStatus C) × W → Result Requeue × W
  load (ok (dp, st), w) = with_status dp (run_from dp st w)
  load (err e, w) = (if e.not_found then ok none else err e, w)

  unfoldable pub reconcile_request : String → Exec W Requeue
  reconcile_request name w = load (r.get_platform name w)

-- ===== src/Postgres.antt =====
-- internal/controller/postgres.go: LakeKeeper's database, external or in the cluster.
pub mod Ready
use data_platform_operator.Base.{
  pos, Bool, true, false, Option, none, some, List, [], ◌∷◌, String, ◌<>◌, ◌==◌, if◌then◌else◌,
}
use data_platform_operator.Base.Exec.{
  Error, Result, ok, err, Exec, pure, raise, lift, errorf, ◌>>=◌, ◌>>◌,
}
use data_platform_operator.Api.Platform.{DataPlatform}
use data_platform_operator.Api.Database.{
  PostgresSpec, PostgresCredentialsSecretRef, postgres_is_embedded, postgres_image_or_default,
  postgres_storage_size_or_default, postgres_port_or_default, postgres_database_or_default,
  postgres_credentials_secret_username_key_or_default,
  postgres_credentials_secret_password_key_or_default,
}
use data_platform_operator.Api.Engines.{lakekeeper_namespace_or_default}
use data_platform_operator.Config.{PostgresConn}
use data_platform_operator.Reconciler.{Reconciler, State}
use data_platform_operator.Cluster.{
  get_secret_data, marking, set_condition, ensure_generated_secret, random_hex, apply,
  stateful_set_ready,
}
use data_platform_operator.Cluster.Names.{labels_for}
use data_platform_operator.Cluster.Workloads.{
  port, set_service, postgres_container, set_postgres, unless_secret, rollout,
}

abbrev pub named_credentials :
    Option PostgresCredentialsSecretRef → Option PostgresCredentialsSecretRef
named_credentials none = none
named_credentials (some ref) = if ref.name == "" then none else some ref

-- the storage that a specification asks for, or an error that names whose it is
unfoldable pub storage_quantity : String → Result String → Result String
storage_quantity whose (ok q) = ok q
storage_quantity whose (err e) = err (errorf ("invalid " <> whose <> "storageSize: " <> e.message))

module _ {W C : Type 0} (r : Reconciler W C) (dp : DataPlatform) where
  abbrev namespace : String
  namespace = lakekeeper_namespace_or_default dp.spec.lakekeeper

  abbrev spec : PostgresSpec
  spec = dp.spec.lakekeeper.postgres

  unfoldable pub postgres_missing : String → Exec (State W C) PostgresConn
  postgres_missing message =
      set_condition r dp "PostgresReady" false "Missing" message >> raise (errorf message)

  -- a value of the credentials, in LakeKeeper's namespace where the reference names none
  unfoldable pub credential : PostgresCredentialsSecretRef → String → Exec (State W C) String
  credential ref key =
      marking r dp "PostgresReady" "Error"
        (get_secret_data r ref.name (if ref.namespace == "" then namespace else ref.namespace) key)

  unfoldable pub external_from : PostgresCredentialsSecretRef → Exec (State W C) PostgresConn
  external_from ref = do
    user ← credential ref (postgres_credentials_secret_username_key_or_default ref)
    pass ← credential ref (postgres_credentials_secret_password_key_or_default ref)
    set_condition r dp "PostgresReady" true "Ready" "Using external Postgres"
    pure (record {
      host = spec.host;
      port = postgres_port_or_default spec;
      database = postgres_database_or_default spec;
      username = user;
      password = pass;
      ssl_mode = spec.ssl_mode;
    })

  unfoldable pub external_with : Option PostgresCredentialsSecretRef → Exec (State W C) PostgresConn
  external_with none =
      postgres_missing "lakekeeper.postgres.credentialsSecretRef is required when embedded is false"
  external_with (some ref) = external_from ref

  unfoldable pub external_postgres : Exec (State W C) PostgresConn
  external_postgres =
      if spec.host == ""
      then postgres_missing "lakekeeper.postgres.host is required when embedded is false"
      else external_with (named_credentials spec.credentials_secret_ref)

  unfoldable pub ensure_postgres_secret : Exec (State W C) (Unit {0})
  ensure_postgres_secret = unless_secret r namespace "postgres" (do
    password ← random_hex r 16
    ensure_generated_secret r dp "postgres" namespace "postgres" (
        ("username", "postgres")
        ∷ ("password", password)
        ∷ ("database", postgres_database_or_default spec)
        ∷ []))

  unfoldable pub apply_postgres_service : Exec (State W C) (Unit {0})
  apply_postgres_service =
      apply r dp r.kube.services namespace "postgres"
        (set_service (labels_for dp "postgres") (port "postgres" 5432 ∷ []))

  unfoldable pub apply_postgres_stateful_set : Exec (State W C) (Unit {0})
  apply_postgres_stateful_set = do
    size ← lift (
        storage_quantity "postgres "
          (r.kube.parse_quantity (postgres_storage_size_or_default spec)))
    apply r dp r.kube.stateful_sets namespace "postgres" (
        set_postgres (labels_for dp "postgres") size
          (postgres_container (postgres_image_or_default spec) (postgres_database_or_default spec)))

  -- the steps of an embedded Postgres, every error of which marks the condition
  unfoldable pub postgres_rolled_out : Exec (State W C) Bool
  postgres_rolled_out = do
    ensure_postgres_secret
    apply_postgres_service
    apply_postgres_stateful_set
    stateful_set_ready r namespace "postgres"

  -- the connection to it; its password stays in its Secret
  unfoldable pub embedded_conn : PostgresConn
  embedded_conn = record {
    host = "postgres";
    port = pos 5432;
    database = postgres_database_or_default spec;
    username = "postgres";
    password = "";
    ssl_mode = "disable";
  }

  unfoldable pub reconcile_postgres : Exec (State W C) PostgresConn
  reconcile_postgres =
      if postgres_is_embedded spec
      then (rollout r dp "PostgresReady" "Postgres is ready" "Postgres StatefulSet is not ready"
            postgres_rolled_out
          >> pure embedded_conn)
      else external_postgres

-- ===== src/Keycloak/Secrets.antt =====
-- internal/controller/keycloak.go: the Secrets of the realm's key, its administrator and its
-- clients.
use data_platform_operator.Base.{
  Bool, true, false, List, [], ◌∷◌, String, contains, insert, keys, if◌then◌else◌,
}
use data_platform_operator.Base.Exec.{Exec, pure, if_missing, ◌>>=◌, ◌>>◌}
use data_platform_operator.Api.Constants.{
  default_oidc_admin_user, default_oidc_client_id, default_oidc_trino_client_id,
  default_oidc_opa_client_id, default_oidc_superset_client_id, default_oidc_operator_client,
}
use data_platform_operator.Api.Identity.{keycloak_realm_or_default}
use data_platform_operator.Api.Platform.{DataPlatform}
use data_platform_operator.Kube.Objects.{Secret}
use data_platform_operator.Reconciler.{Reconciler, State, in_world}
use data_platform_operator.Cluster.{ensure_generated_secret, random_hex}

-- The values of a Secret, and whether they changed.
abbrev pub Filled : Type 0
Filled = List (String × String) × Bool

unfoldable pub fill : String → String → Filled → Filled
fill key value (m, changed) =
    if contains (keys m) key then (m, changed) else (insert key value m, true)

module _ {W C : Type 0} (r : Reconciler W C) where
  -- a new secret under a key that is missing
  unfoldable pub fill_random : String → Filled → Exec (State W C) Filled
  fill_random key (m, changed) =
      if contains (keys m) key
      then pure (m, changed)
      else (random_hex r 16 >>= λ secret. pure (insert key secret m, true))

  unfoldable pub filled_keys : List (String × String) → Exec (State W C) Filled
  filled_keys m = do
    opa ← fill_random "opaClientSecret" (fill "opaClientID" default_oidc_opa_client_id (m, false))
    fill_random "supersetClientSecret" (fill "supersetClientID" default_oidc_superset_client_id opa)

  -- `ensureOIDCSecretKeys`: a Secret of an older version gets what it lacks
  unfoldable pub ensure_oidc_secret_keys : Secret → Exec (State W C) (Unit {0})
  ensure_oidc_secret_keys oidc = do
    filled ← filled_keys oidc.contents
    if filled.1
        then in_world (r.kube.secrets.update (record oidc { contents = filled.0 }))
        else pure tt

  module _ (dp : DataPlatform) where
    unfoldable pub ensure_keycloak_realm_key : String → Exec (State W C) (Unit {0})
    ensure_keycloak_realm_key ns =
        if_missing (λ secret. pure tt)
          (do
            pair ← in_world (r.new_signing_key (keycloak_realm_or_default dp.spec.auth.keycloak))
            ensure_generated_secret r dp "keycloak-realm-key" ns "keycloak"
                (("privateKey", pair.0) ∷ ("certificate", pair.1) ∷ []))
          (in_world (r.kube.secrets.get ns "keycloak-realm-key"))

    unfoldable pub ensure_keycloak_admin : String → Exec (State W C) (Unit {0})
    ensure_keycloak_admin ns =
        if_missing (λ admin. pure tt)
          (do
            password ← random_hex r 16
            ensure_generated_secret r dp "keycloak-admin" ns "keycloak"
                (("username", default_oidc_admin_user) ∷ ("password", password) ∷ []))
          (in_world (r.kube.secrets.get ns "keycloak-admin"))

    unfoldable pub new_oidc_secret : String → Exec (State W C) (Unit {0})
    new_oidc_secret ns = do
      trino ← random_hex r 16
      operator ← random_hex r 16
      opa ← random_hex r 16
      superset ← random_hex r 16
      ensure_generated_secret r dp "oidc" ns "keycloak" (
          ("clientID", default_oidc_client_id)
          ∷ ("trinoClientID", default_oidc_trino_client_id)
          ∷ ("trinoClientSecret", trino)
          ∷ ("operatorClientID", default_oidc_operator_client)
          ∷ ("operatorClientSecret", operator)
          ∷ ("opaClientID", default_oidc_opa_client_id)
          ∷ ("opaClientSecret", opa)
          ∷ ("supersetClientID", default_oidc_superset_client_id)
          ∷ ("supersetClientSecret", superset)
          ∷ [])

    unfoldable pub ensure_keycloak_secrets : String → Exec (State W C) (Unit {0})
    ensure_keycloak_secrets ns = do
      ensure_keycloak_realm_key ns
      ensure_keycloak_admin ns
      if_missing ensure_oidc_secret_keys (new_oidc_secret ns)
          (in_world (r.kube.secrets.get ns "oidc"))

-- ===== src/Lakekeeper/Switches.antt =====
-- What LakeKeeper's environment switches on.
use data_platform_operator.Base.{
  Option, none, some, String, ◌&&◌, ◌≡◌, ap, ◌∙◌, arith, if◌then◌else◌,
}
use data_platform_operator.Api.Platform.{DataPlatform}
use data_platform_operator.Config.{OidcConfig, OpenfgaConfig, PostgresConn}
use data_platform_operator.Cluster.Environment.{or_else, last_value, last_value-append}
use data_platform_operator.Lakekeeper.{container_env}
use data_platform_operator.Lakekeeper.Env.{
  optional_env, authz_env, openid_env, credentials_env, database_env, lakekeeper_trusted_engine_env,
  lakekeeper_env,
}

module _ (dp : DataPlatform) (conn : PostgresConn) (oidc : OidcConfig) (fga : OpenfgaConfig) where
  -- a variable of the specification goes before the operator's
  overridden :
      (name : String) (own : Option String)
      → last_value name (lakekeeper_env dp conn oidc fga) ≡ own
      → last_value name (container_env dp conn oidc fga)
        ≡ or_else (last_value name dp.spec.lakekeeper.extra_env) own
  unfolding container_env
  overridden name own h =
      last_value-append name (lakekeeper_env dp conn oidc fga) dp.spec.lakekeeper.extra_env
      ∙ ap (or_else (last_value name dp.spec.lakekeeper.extra_env)) h

  -- What LakeKeeper's containers find: where the specification's extra variables set a name, their
  -- last value, and else the operator's choice, which is the backend OpenFGA where OpenFGA runs, the
  -- backend that allows all where only a login is configured, and no backend where neither is; Trino
  -- as a trusted engine exactly if there are both; and the provider of logins exactly if there is
  -- one.
  pub container_env-last_value :
      let env = container_env dp conn oidc fga in
      let extra = dp.spec.lakekeeper.extra_env in
      (last_value "LAKEKEEPER__AUTHZ_BACKEND" env
        ≡ or_else (last_value "LAKEKEEPER__AUTHZ_BACKEND" extra) (
            if fga.enabled then some "openfga" else if oidc.enabled then some "allowall" else none))
      × (last_value "LAKEKEEPER__TRUSTED_ENGINES__TRINO__TYPE" env
          ≡ or_else
              (last_value "LAKEKEEPER__TRUSTED_ENGINES__TRINO__TYPE" extra)
              (if fga.enabled && oidc.enabled then some "trino" else none))
      × (last_value "LAKEKEEPER__OPENID_PROVIDER_URI" env
          ≡ or_else
              (last_value "LAKEKEEPER__OPENID_PROVIDER_URI" extra)
              (if oidc.enabled then some oidc.issuer else none))
  unfolding lakekeeper_env database_env optional_env authz_env openid_env credentials_env
      lakekeeper_trusted_engine_env last_value
  container_env-last_value = (
    overridden "LAKEKEEPER__AUTHZ_BACKEND" _ (ground arith),
    overridden "LAKEKEEPER__TRUSTED_ENGINES__TRINO__TYPE" _ (ground arith),
    overridden "LAKEKEEPER__OPENID_PROVIDER_URI" _ (ground arith),
  )

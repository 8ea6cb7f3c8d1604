-- ===== src/Examples/Identities.antt =====
-- The theorem on the identities that are granted rights, at the cluster where all is ready.
use data_platform_operator.Base.{true, ◌≡◌, refl, All}
use data_platform_operator.Config.{OidcConfig}
use data_platform_operator.Base.Exec.{ok}
use data_platform_operator.Oidc.{reconcile_auth}
use data_platform_operator.Keycloak.{reconcile_keycloak}
use data_platform_operator.Keycloak.Auth.{reconcile_auth_ready}
use data_platform_operator.Keycloak.Clients.{RealmOptions}
use data_platform_operator.Keycloak.Realm.{realm_users}
use data_platform_operator.Keycloak.Subjects.{is_user, reconcile_keycloak_subjects}
use data_platform_operator.Warehouse.{catalog_principals}
use data_platform_operator.Examples.Cluster.{ready_operator}
use data_platform_operator.Examples.Platform.{platform}
use data_platform_operator.Examples.World.{condition_laws, fresh}

abbrev provider : OidcConfig
provider = record {
  enabled = true;
  issuer = "http://keycloak.keycloak.svc:8080/realms/dataplatform";
  public_issuer = "http://keycloak.keycloak.svc:8080/realms/dataplatform";
  audience = "lakekeeper";
  scope = "lakekeeper";
  ui_client_id = "lakekeeper";
  trino_client_id = "trino";
  trino_secret = "t";
  opa_client_id = "opa";
  opa_secret = "b";
  superset_client_id = "superset";
  superset_secret = "s";
  operator_client_id = "operator";
  operator_secret = "o";
  admin_subject = "00000000-0000-4000-8000-000000000001";
  admin_name = "admin";
  admin_email = "admin@local";
  opa_subject = "https://dataplatform.opsarray.io/keycloak/service-account/opa";
  trino_subject = "https://dataplatform.opsarray.io/keycloak/service-account/trino";
  token_url = "http://keycloak.keycloak.svc:8080/realms/dataplatform/protocol/openid-connect/token";
  proxy_namespace = "keycloak";
  proxy_service = "keycloak";
  proxy_port = 8080;
  proxy_token_path = "realms/dataplatform/protocol/openid-connect/token";
}

abbrev options : RealmOptions
options = record {
  spec = platform.spec.auth.keycloak;
  admin_password = "p";
  trino_secret = "t";
  operator_secret = "o";
  opa_secret = "b";
  superset_secret = "s";
  signing_key = "private";
  signing_certificate = "certificate";
  lakekeeper_namespace = "lakekeeper";
  lakekeeper_public_url = "";
  trino_public_url = "";
  superset_public_url = "";
}

keycloak_ready : (reconcile_keycloak ready_operator platform fresh).0 ≡ ok (provider, true)
unfolding reconcile_keycloak data_platform_operator.Keycloak.keycloak_rolled_out
    data_platform_operator.Keycloak.keycloak_concluded
    data_platform_operator.Keycloak.Secrets.ensure_keycloak_secrets
    data_platform_operator.Keycloak.Secrets.ensure_keycloak_realm_key
    data_platform_operator.Keycloak.Secrets.ensure_keycloak_admin
    data_platform_operator.Keycloak.Secrets.ensure_oidc_secret_keys
    data_platform_operator.Keycloak.Secrets.filled_keys data_platform_operator.Keycloak.Secrets.fill
    data_platform_operator.Keycloak.Secrets.fill_random
    data_platform_operator.Keycloak.apply_keycloak_realm
    data_platform_operator.Keycloak.read_realm_options
    data_platform_operator.Keycloak.apply_keycloak_service
    data_platform_operator.Keycloak.apply_keycloak_deployment
    data_platform_operator.Keycloak.embedded_oidc_config
    data_platform_operator.Keycloak.outer_issuer
    data_platform_operator.Keycloak.Clients.keycloak_uuid data_platform_operator.Oidc.oidc_issuer
    data_platform_operator.Oidc.oidc_token_url data_platform_operator.Oidc.oidc_token_path
    data_platform_operator.Base.Text.trim_slashes data_platform_operator.Cluster.marking
    data_platform_operator.Cluster.ensure_namespace data_platform_operator.Cluster.apply
    data_platform_operator.Cluster.hash_data data_platform_operator.Cluster.deployment_ready
    data_platform_operator.Cluster.get_secret_data data_platform_operator.Cluster.secret_value
    data_platform_operator.Cluster.set_condition data_platform_operator.Base.Exec.◌>>=◌
    data_platform_operator.Base.Exec.branch data_platform_operator.Base.Exec.lift
    data_platform_operator.Base.Exec.pure data_platform_operator.Base.Exec.raise
    data_platform_operator.Base.Exec.if_missing data_platform_operator.Reconciler.in_world
    data_platform_operator.Reconciler.set_status data_platform_operator.Base.lookup
    data_platform_operator.Base.contains
    data_platform_operator.Api.Identity.keycloak_namespace_or_default
    data_platform_operator.Api.Identity.keycloak_realm_or_default
    data_platform_operator.Api.Defaults.string_or_default
    data_platform_operator.Cluster.Names.cluster_service_url
    data_platform_operator.Base.Text.decimal data_platform_operator.Base.Text.decimal_from
    data_platform_operator.Base.Text.digit
keycloak_ready = refl

reconcile_keycloak_subjects_example :
    All
      (λ p. is_user p.subject (realm_users ready_operator.uuid_of_url options) ≡ true)
      (catalog_principals platform provider)
reconcile_keycloak_subjects_example =
    reconcile_keycloak_subjects ready_operator platform fresh (provider, true) options
      keycloak_ready refl refl

reconcile_auth_ready_example :
    ready_operator.condition_api.is_status_true
      (reconcile_auth ready_operator platform
        (reconcile_keycloak ready_operator platform)
        fresh).1.status.conditions
      "AuthReady"
    ≡ true
unfolding reconcile_auth data_platform_operator.Api.Identity.auth_is_enabled
    data_platform_operator.Api.Identity.auth_is_embedded
    data_platform_operator.Api.Defaults.bool_default_true
reconcile_auth_ready_example =
    reconcile_auth_ready ready_operator condition_laws platform fresh provider keycloak_ready

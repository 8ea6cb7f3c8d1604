-- ===== src/Keycloak.antt =====
-- internal/controller/keycloak.go: the embedded identity provider.
pub mod Scopes
pub mod Clients
pub mod Realm
pub mod Pod
pub mod Secrets
pub mod Ready
pub mod Auth
pub mod Keys
pub mod Subjects
use data_platform_operator.Base.{
  pos, Bool, true, false, not, none, some, List, [], ◌∷◌, ◌++◌, String, ◌<>◌, ◌==◌, contains,
  insert, keys, if◌then◌else◌,
}
use data_platform_operator.Base.Exec.{Result, ok, Exec, pure, if_missing, ◌>>=◌, ◌>>◌}
use data_platform_operator.Base.Text.{trim_slashes}
use data_platform_operator.Api.Constants.{
  default_oidc_admin_user, default_oidc_admin_user_id, default_oidc_audience,
  default_oidc_client_id, default_oidc_trino_client_id, default_oidc_opa_client_id,
  default_oidc_superset_client_id, default_oidc_operator_client, default_oidc_scope,
}
use data_platform_operator.Api.Defaults.{EnvVar}
use data_platform_operator.Api.Engines.{lakekeeper_namespace_or_default}
use data_platform_operator.Api.Identity.{
  KeycloakSpec, keycloak_namespace_or_default, keycloak_image_or_default, keycloak_realm_or_default,
}
use data_platform_operator.Api.Platform.{DataPlatform}
use data_platform_operator.Config.{OidcConfig}
use data_platform_operator.Kube.Objects.{
  ConfigMap, Container, Deployment, PodSpec, Secret, http_get, empty_dir, config_map,
}
use data_platform_operator.Oidc.{oidc_issuer, oidc_token_path, oidc_token_url}
use data_platform_operator.Reconciler.{Reconciler, State, in_world, set_status}
use data_platform_operator.Cluster.{
  get_secret_data, marking, set_condition, ensure_generated_secret, ensure_namespace, random_hex,
  apply, deployment_ready, hash_data, restricted_pod_security, restricted_container_security,
}
use data_platform_operator.Cluster.Names.{labels_for, cluster_service_url}
use data_platform_operator.Cluster.Workloads.{port, plain, from_secret, ensure_labels, set_service}
use Clients.{RealmOptions, keycloak_uuid}
use Realm.{keycloak_realm}
use Pod.{set_keycloak, set_realm}
use Secrets.{ensure_keycloak_secrets}

module _ {W C : Type 0} (r : Reconciler W C) (dp : DataPlatform) where
  unfoldable pub read_realm_options : String → Exec (State W C) RealmOptions
  read_realm_options ns = do
    admin ← get_secret_data r "keycloak-admin" ns "password"
    trino ← get_secret_data r "oidc" ns "trinoClientSecret"
    operator ← get_secret_data r "oidc" ns "operatorClientSecret"
    opa ← get_secret_data r "oidc" ns "opaClientSecret"
    superset ← get_secret_data r "oidc" ns "supersetClientSecret"
    key ← get_secret_data r "keycloak-realm-key" ns "privateKey"
    certificate ← get_secret_data r "keycloak-realm-key" ns "certificate"
    pure (record {
      spec = dp.spec.auth.keycloak;
      admin_password = admin;
      trino_secret = trino;
      operator_secret = operator;
      opa_secret = opa;
      superset_secret = superset;
      signing_key = key;
      signing_certificate = certificate;
      lakekeeper_namespace = lakekeeper_namespace_or_default dp.spec.lakekeeper;
      lakekeeper_public_url = dp.spec.lakekeeper.public_url;
      trino_public_url = dp.spec.trino.public_url;
      superset_public_url = dp.spec.superset.public_url;
    })

  -- The realm's document goes into a ConfigMap; what comes back is its hash.
  unfoldable pub apply_keycloak_realm : String → Exec (State W C) String
  apply_keycloak_realm ns = do
    options ← read_realm_options ns
    let raw : String = r.marshal (keycloak_realm r.uuid_of_url options)
    apply r dp r.kube.config_maps ns "keycloak-realm" (set_realm (labels_for dp "keycloak") raw)
    pure (hash_data r (raw ∷ []))

  unfoldable pub apply_keycloak_service : String → Exec (State W C) (Unit {0})
  apply_keycloak_service ns =
      apply r dp r.kube.services ns "keycloak"
        (set_service (labels_for dp "keycloak") (port "http" 8080 ∷ []))

  unfoldable pub apply_keycloak_deployment : String → String → Exec (State W C) (Unit {0})
  apply_keycloak_deployment ns hash =
      apply r dp r.kube.deployments ns "keycloak"
        (set_keycloak (labels_for dp "keycloak") hash ns dp.spec.auth.keycloak)

  abbrev inner_issuer : String → String
  inner_issuer ns =
      oidc_issuer (cluster_service_url "keycloak" ns 8080)
        (keycloak_realm_or_default dp.spec.auth.keycloak)

  -- the issuer on tokens: the public one where there is one
  unfoldable pub outer_issuer : String → String
  outer_issuer ns =
      if dp.spec.auth.keycloak.public_url == ""
      then inner_issuer ns
      else oidc_issuer dp.spec.auth.keycloak.public_url
          (keycloak_realm_or_default dp.spec.auth.keycloak)

  unfoldable pub embedded_oidc_config : String → Exec (State W C) OidcConfig
  embedded_oidc_config ns = do
    operator_id ← get_secret_data r "oidc" ns "operatorClientID"
    operator_secret ← get_secret_data r "oidc" ns "operatorClientSecret"
    trino_id ← get_secret_data r "oidc" ns "trinoClientID"
    trino_secret ← get_secret_data r "oidc" ns "trinoClientSecret"
    ui_id ← get_secret_data r "oidc" ns "clientID"
    opa_id ← get_secret_data r "oidc" ns "opaClientID"
    opa_secret ← get_secret_data r "oidc" ns "opaClientSecret"
    superset_id ← get_secret_data r "oidc" ns "supersetClientID"
    superset_secret ← get_secret_data r "oidc" ns "supersetClientSecret"
    pure (record {
      enabled = true;
      issuer = inner_issuer ns;
      public_issuer = outer_issuer ns;
      audience = default_oidc_audience;
      scope = default_oidc_scope;
      ui_client_id = ui_id;
      trino_client_id = trino_id;
      trino_secret = trino_secret;
      opa_client_id = opa_id;
      opa_secret = opa_secret;
      superset_client_id = superset_id;
      superset_secret = superset_secret;
      operator_client_id = operator_id;
      operator_secret = operator_secret;
      admin_subject = default_oidc_admin_user_id;
      admin_name = default_oidc_admin_user;
      admin_email = "admin@local";
      opa_subject = keycloak_uuid r.uuid_of_url "service-account" opa_id;
      trino_subject = keycloak_uuid r.uuid_of_url "service-account" trino_id;
      token_url = oidc_token_url (inner_issuer ns);
      proxy_namespace = ns;
      proxy_service = "keycloak";
      proxy_port = 8080;
      proxy_token_path = oidc_token_path (keycloak_realm_or_default dp.spec.auth.keycloak);
    })

  -- the steps of `reconcileKeycloak`, every error of which marks the condition
  unfoldable pub keycloak_rolled_out : String → Exec (State W C) (OidcConfig × Bool)
  keycloak_rolled_out ns = do
    ensure_namespace r dp ns "keycloak"
    ensure_keycloak_secrets r dp ns
    hash ← apply_keycloak_realm ns
    apply_keycloak_service ns
    apply_keycloak_deployment ns hash
    cfg ← embedded_oidc_config ns
    ready ← deployment_ready r ns "keycloak"
    pure (cfg, ready)

  unfoldable pub keycloak_concluded : OidcConfig × Bool → Exec (State W C) (OidcConfig × Bool)
  keycloak_concluded x =
      if x.1
      then set_condition r dp "AuthReady" true "Ready" "Keycloak is ready" >> pure (x.0, true)
      else set_condition r dp "AuthReady" false "NotReady" "Keycloak Deployment is not ready"
        >> pure (x.0, false)

  unfoldable pub reconcile_keycloak : Exec (State W C) (OidcConfig × Bool)
  reconcile_keycloak =
      let ns = keycloak_namespace_or_default dp.spec.auth.keycloak in
      set_status (λ st. record st { keycloak_endpoint = cluster_service_url "keycloak" ns 8080 })
      >> marking r dp "AuthReady" "Error" (keycloak_rolled_out ns)
      >>= keycloak_concluded

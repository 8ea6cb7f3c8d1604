-- ===== src/Opa.antt =====
-- internal/controller/opa.go: OPA, which decides Trino's access control by the embedded policies.
pub mod Env
pub mod Frame
pub mod Agreement
use data_platform_operator.Base.{
  pos, Bool, true, false, not, ◌||◌, ◌&&◌, none, some, List, [], ◌∷◌, ◌++◌, String, ◌<>◌, ◌==◌,
  insert, if◌then◌else◌,
}
use data_platform_operator.Base.Text.{base_name, has_suffix}
use data_platform_operator.Base.Exec.{Result, ok, err, Exec, pure, lift, ◌>>=◌, ◌>>◌}
use data_platform_operator.Api.Access.{openfga_namespace_or_default, openfga_opa_image_or_default}
use data_platform_operator.Api.Defaults.{EnvVar}
use data_platform_operator.Api.Engines.{
  trino_is_enabled, lakekeeper_namespace_or_default, warehouse_name_or_default,
}
use data_platform_operator.Api.Platform.{DataPlatform}
use data_platform_operator.Config.{OidcConfig, OpenfgaConfig}
use data_platform_operator.Kube.Objects.{
  Secret, ConfigMap, Container, PodSpec, http_get, config_map,
}
use data_platform_operator.Reconciler.{Reconciler, State}
use data_platform_operator.Cluster.{
  apply, deployment_ready, bind_result, restricted_pod_security, restricted_container_security,
}
use data_platform_operator.Cluster.Names.{labels_for, cluster_service_url}
use data_platform_operator.Cluster.Workloads.{
  port, plain, from_secret, ensure_labels, set_service, set_deployment,
}
use Env.{opa_access_env}

-- the policies among the files that the walk visits, each under its own name
unfoldable pub policy_data :
    List (String × String) → List (String × String) → List (String × String)
policy_data [] contents = contents
policy_data ((path, text) ∷ files) contents =
    policy_data files
      (if has_suffix path ".rego" then insert (base_name path) text contents else contents)

abbrev set_secret : List (String × String) → OidcConfig → Secret → Result Secret
set_secret labels oidc secret = ok (record secret {
  meta = ensure_labels labels secret.meta;
  type = "Opaque";
  contents = ("opaClientID", oidc.opa_client_id) ∷ ("opaClientSecret", oidc.opa_secret) ∷ [];
})

unfoldable pub set_policies :
    List (String × String) → Result (List (String × String)) → ConfigMap → Result ConfigMap
unfolding policy_data
set_policies labels files cm =
    bind_result files λ found.
      ok (record cm { meta = ensure_labels labels cm.meta; contents = policy_data found [] })

module _ {W C : Type 0} (r : Reconciler W C) (dp : DataPlatform) where
  unfoldable pub apply_opa_secret : String → OidcConfig → Exec (State W C) (Unit {0})
  apply_opa_secret ns oidc =
      apply r dp r.kube.secrets ns "oidc" (set_secret (labels_for dp "opa") oidc)

  unfoldable pub apply_opa_policies : String → Exec (State W C) (Unit {0})
  apply_opa_policies ns =
      apply r dp r.kube.config_maps ns "opa-policies"
        (set_policies (labels_for dp "opa") r.opa_policies)

  unfoldable pub apply_opa_service : String → Exec (State W C) (Unit {0})
  apply_opa_service ns =
      apply r dp r.kube.services ns "opa"
        (set_service (labels_for dp "opa") (port "http" 8181 ∷ []))

  unfoldable pub opa_env : OidcConfig → OpenfgaConfig → List EnvVar
  opa_env oidc fga =
      (plain "LAKEKEEPER_URL" (
          cluster_service_url "lakekeeper" (lakekeeper_namespace_or_default dp.spec.lakekeeper)
            8181)
        ∷ plain "LAKEKEEPER_TOKEN_ENDPOINT" oidc.token_url
        ∷ plain "LAKEKEEPER_CLIENT_ID" oidc.opa_client_id
        ∷ from_secret "LAKEKEEPER_CLIENT_SECRET" "oidc" "opaClientSecret"
        ∷ plain "LAKEKEEPER_SCOPE" oidc.scope
        ∷ plain "TRINO_LAKEKEEPER_CATALOG_NAME" "lakekeeper"
        ∷ plain "LAKEKEEPER_LAKEKEEPER_WAREHOUSE"
            (warehouse_name_or_default dp.spec.lakekeeper.warehouse)
        ∷ plain "TRINO_ALLOW_UNMANAGED_CATALOGS" "true"
        ∷ [])
      ++ opa_access_env r.marshal dp fga

  unfoldable pub opa_container : OidcConfig → OpenfgaConfig → Container
  opa_container oidc fga = record {
    name = "opa";
    image = openfga_opa_image_or_default dp.spec.authz.openfga;
    image_pull_policy = "";
    command = [];
    args = "run" ∷ "--server" ∷ "--addr" ∷ "0.0.0.0:8181" ∷ "--ignore" ∷ ".*" ∷ "/policies" ∷ [];
    ports = (record { name = "http"; container_port = 8181 }) ∷ [];
    env = opa_env oidc fga;
    volume_mounts =
        (record { name = "config"; mount_path = "/policies"; sub_path = ""; read_only = true })
        ∷ [];
    readiness_probe = some (http_get "/health" 8181 0 5);
    resources = none;
    security_context = restricted_container_security 1000 1000;
  }

  unfoldable pub opa_pod : OidcConfig → OpenfgaConfig → PodSpec → PodSpec
  opa_pod oidc fga pod = record pod {
    security_context = some (restricted_pod_security 1000 1000);
    containers = opa_container oidc fga ∷ [];
    volumes = (record { name = "config"; source = config_map "opa-policies" none }) ∷ [];
  }

  unfoldable pub apply_opa_deployment :
      String → OidcConfig → OpenfgaConfig → Exec (State W C) (Unit {0})
  apply_opa_deployment ns oidc fga =
      apply r dp r.kube.deployments ns "opa"
        (set_deployment (labels_for dp "opa") (pos 1) (opa_pod oidc fga))

  -- Trino asks OPA: authorization and authentication are on, and Trino is
  unfoldable pub opa_wanted : OidcConfig → OpenfgaConfig → Bool
  opa_wanted oidc fga = fga.enabled && oidc.enabled && trino_is_enabled dp.spec.trino

  unfoldable pub reconcile_opa : OidcConfig → OpenfgaConfig → Exec (State W C) Bool
  reconcile_opa oidc fga =
      let ns = openfga_namespace_or_default dp.spec.authz.openfga in
      if not (opa_wanted oidc fga) then pure true else do
        apply_opa_secret ns oidc
        apply_opa_policies ns
        apply_opa_service ns
        apply_opa_deployment ns oidc fga
        deployment_ready r ns "opa"

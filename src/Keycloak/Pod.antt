-- ===== src/Keycloak/Pod.antt =====
-- internal/controller/keycloak.go: the Deployment that Keycloak runs in, and the ConfigMap of its
-- realm.
use data_platform_operator.Base.{
  pos, false, none, some, List, [], ◌∷◌, ◌++◌, String, ◌<>◌, ◌==◌, insert, if◌then◌else◌,
}
use data_platform_operator.Base.Exec.{Result, ok}
use data_platform_operator.Base.Text.{trim_slashes}
use data_platform_operator.Api.Defaults.{EnvVar}
use data_platform_operator.Api.Identity.{
  KeycloakSpec, keycloak_image_or_default, keycloak_realm_or_default,
}
use data_platform_operator.Kube.Objects.{
  ConfigMap, Container, Deployment, http_get, empty_dir, config_map,
}
use data_platform_operator.Cluster.{restricted_pod_security, restricted_container_security}
use data_platform_operator.Cluster.Workloads.{plain, from_secret, ensure_labels}

unfoldable pub keycloak_hostname_env : String → KeycloakSpec → List EnvVar
unfolding trim_slashes
keycloak_hostname_env ns spec =
    (plain "KC_HTTP_ENABLED" "true"
      ∷ plain "KC_HOSTNAME_STRICT" "false"
      ∷ plain "KC_HOSTNAME" (
          if trim_slashes spec.public_url == ""
          then "http://keycloak." <> ns <> ".svc:8080"
          else trim_slashes spec.public_url)
      ∷ plain "KC_PROXY_HEADERS" "xforwarded"
      ∷ plain "KC_HEALTH_ENABLED" "true"
      ∷ [])
    ++ (if spec.public_url == "" then [] else plain "KC_HOSTNAME_BACKCHANNEL_DYNAMIC" "true" ∷ [])

unfoldable pub keycloak_container : String → KeycloakSpec → Container
unfolding keycloak_hostname_env
keycloak_container ns spec = record {
  name = "keycloak";
  image = keycloak_image_or_default spec;
  image_pull_policy = "";
  command = [];
  args = "start-dev" ∷ "--import-realm" ∷ "--http-port=8080" ∷ [];
  ports = (record { name = "http"; container_port = 8080 }) ∷ [];
  env =
      (from_secret "KC_BOOTSTRAP_ADMIN_USERNAME" "keycloak-admin" "username"
        ∷ from_secret "KC_BOOTSTRAP_ADMIN_PASSWORD" "keycloak-admin" "password"
        ∷ [])
      ++ keycloak_hostname_env ns spec;
  volume_mounts =
      (record {
        name = "data";
        mount_path = "/opt/keycloak/data";
        sub_path = "";
        read_only = false;
      })
      ∷ (record {
        name = "realm";
        mount_path = "/opt/keycloak/data/import";
        sub_path = "";
        read_only = false;
      })
      ∷ [];
  readiness_probe = some (http_get ("/realms/" <> keycloak_realm_or_default spec) 8080 40 10);
  resources = some spec.resources;
  security_context = restricted_container_security 1000 1000;
}

unfoldable pub set_keycloak :
    List (String × String) → String → String → KeycloakSpec → Deployment → Result Deployment
unfolding ensure_labels keycloak_container
set_keycloak labels hash ns spec deploy = ok (record deploy {
  meta = ensure_labels labels deploy.meta;
  selector = if deploy.meta.created then deploy.selector else labels;
  replicas = some (pos 1);
  template = record {
    labels = labels;
    annotations = insert "dataplatform.opsarray.io/config-hash" hash deploy.template.annotations;
    spec = record deploy.template.spec {
      security_context = some (restricted_pod_security 1000 1000);
      containers = keycloak_container ns spec ∷ [];
      volumes =
          (record { name = "data"; source = empty_dir })
          ∷ (record { name = "realm"; source = config_map "keycloak-realm" none })
          ∷ [];
    };
  };
})

unfoldable pub set_realm : List (String × String) → String → ConfigMap → Result ConfigMap
unfolding ensure_labels
set_realm labels raw cm = ok (record cm {
  meta = ensure_labels labels cm.meta;
  contents = insert "realm.json" raw cm.contents;
})

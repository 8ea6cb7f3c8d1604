-- ===== src/Trino/Pod.antt =====
-- internal/controller/trino.go: the pods of the coordinator and of the workers.
use data_platform_operator.Base.{
  ℤ, Bool, false, some, List, [], ◌∷◌, ◌++◌, String, insert, if◌then◌else◌,
}
use data_platform_operator.Base.Exec.{Result, ok}
use data_platform_operator.Api.Defaults.{EnvVar, ResourceRequirements}
use data_platform_operator.Kube.Objects.{
  Deployment, PodSpec, Probe, VolumeMount, http_get, tcp_socket, secret,
}
use data_platform_operator.Cluster.{restricted_pod_security, restricted_container_security}
use data_platform_operator.Cluster.Workloads.{ensure_labels}

-- a login in front of the UI answers no probe without a token
unfoldable pub trino_probe : Bool → Probe
trino_probe oauth = if oauth then tcp_socket 8080 10 else http_get "/v1/info" 8080 0 10

unfoldable pub trino_mounts : String → Bool → List VolumeMount
trino_mounts config_key opa =
    ((record {
      name = "config";
      mount_path = "/etc/trino/config.properties";
      sub_path = config_key;
      read_only = false;
    })
      ∷ (record {
        name = "catalog";
        mount_path = "/etc/trino/catalog";
        sub_path = "";
        read_only = false;
      })
      ∷ [])
    ++ (if opa
        then (record {
          name = "config";
          mount_path = "/etc/trino/access-control.properties";
          sub_path = "access-control.properties";
          read_only = false;
        })
          ∷ []
        else [])

unfoldable pub trino_pod_spec :
    String → String → ResourceRequirements → List EnvVar → Bool → Bool → PodSpec
unfolding trino_probe trino_mounts
trino_pod_spec image config_key resources env oauth opa = record {
  restart_policy = "";
  security_context = some (restricted_pod_security 1000 1000);
  init_containers = [];
  containers =
      (record {
        name = "trino";
        image = image;
        image_pull_policy = "";
        command = [];
        args = [];
        ports = (record { name = "http"; container_port = 8080 }) ∷ [];
        env = env;
        volume_mounts = trino_mounts config_key opa;
        readiness_probe = some (trino_probe oauth);
        resources = some resources;
        security_context = restricted_container_security 1000 1000;
      })
      ∷ [];
  volumes =
      (record { name = "config"; source = secret "trino-config" })
      ∷ (record { name = "catalog"; source = secret "trino-catalog-lakekeeper" })
      ∷ [];
}

-- A Deployment whose pods are replaced when the hash of their configuration changes.
unfoldable pub set_hashed_deployment :
    List (String × String) → ℤ → String → PodSpec → Deployment → Result Deployment
unfolding ensure_labels
set_hashed_deployment labels replicas hash pod deploy = ok (record deploy {
  meta = ensure_labels labels deploy.meta;
  selector = if deploy.meta.created then deploy.selector else labels;
  replicas = some replicas;
  template = record {
    labels = labels;
    annotations = insert "dataplatform.opsarray.io/config-hash" hash deploy.template.annotations;
    spec = pod;
  };
})

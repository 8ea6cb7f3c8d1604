-- ===== src/Trino/Engine.antt =====
-- internal/controller/trino.go: the coordinator and its workers.
use data_platform_operator.Base.{
  ℤ, pos, negsuc, Bool, true, false, not, ◌&&◌, List, [], ◌∷◌, ◌++◌, String, ◌==◌, nat_eq,
  if◌then◌else◌,
}
use data_platform_operator.Base.Exec.{Result, ok, Exec, pure, branch, if_missing, ◌>>=◌, ◌>>◌}
use data_platform_operator.Api.Access.{authz_has_row_filters, authz_has_column_access}
use data_platform_operator.Api.Engines.{
  trino_namespace_or_default, trino_image_or_default, trino_workers_or_default, superset_is_enabled,
  service_type_or_default,
}
use data_platform_operator.Api.Platform.{DataPlatform}
use data_platform_operator.Config.{OidcConfig, no_oidc, OpenfgaConfig, ObjectStore}
use data_platform_operator.Kube.Objects.{Secret, Service}
use data_platform_operator.Reconciler.{Reconciler, State, in_world, set_status}
use data_platform_operator.Cluster.{
  apply, deployment_ready, ensure_generated_secret, get_secret_data, random_hex, hash_data,
}
use data_platform_operator.Cluster.Names.{labels_for, cluster_service_url}
use data_platform_operator.Cluster.Workloads.{port, ensure_labels, rollout}
use data_platform_operator.Trino.{
  Properties, trino_oauth_enabled, trino_ui_auth_enabled, trino_config_properties,
  trino_access_control_properties,
}
use data_platform_operator.Trino.Catalogs.{Catalogs, trino_catalog_data}
use data_platform_operator.Trino.Pod.{trino_pod_spec, set_hashed_deployment}

-- The texts that the configuration's Secret is made of.
pub record TrinoConfig : Type 0 where
  pub coordinator : String
  pub worker : String
  pub access_control : String

unfoldable pub config_contents : TrinoConfig → Properties
config_contents cfg =
    (("config.properties.coordinator", cfg.coordinator)
      ∷ ("config.properties.worker", cfg.worker)
      ∷ [])
    ++ (if cfg.access_control == ""
        then []
        else ("access-control.properties", cfg.access_control) ∷ [])

abbrev pub set_opaque : List (String × String) → Properties → Secret → Result Secret
set_opaque labels contents secret = ok (record secret {
  meta = ensure_labels labels secret.meta;
  type = "Opaque";
  contents = contents;
})

abbrev set_trino_service : List (String × String) → String → Service → Result Service
set_trino_service labels type svc = ok (record svc {
  meta = ensure_labels labels svc.meta;
  type = type;
  selector = labels;
  ports = port "http" 8080 ∷ [];
})

-- the address at which Trino asks OPA, where it has to
unfoldable pub trino_opa_url : OidcConfig → OpenfgaConfig → String
trino_opa_url oidc fga = if fga.enabled && oidc.enabled then fga.opa_url else ""

unfoldable pub is_zero : ℤ → Bool
is_zero (pos n) = nat_eq n 0
is_zero (negsuc n) = false

unfoldable pub trino_config : DataPlatform → OidcConfig → OpenfgaConfig → String → TrinoConfig
unfolding trino_opa_url is_zero
trino_config dp oidc fga shared =
    let spec = dp.spec.trino in
    let ns = trino_namespace_or_default spec in
    record {
      coordinator =
          trino_config_properties true (is_zero (trino_workers_or_default spec)) ns
            spec.extra_config oidc spec.public_url shared (superset_is_enabled dp.spec.superset);
      worker = trino_config_properties false false ns spec.extra_config no_oidc "" shared false;
      access_control =
          trino_access_control_properties (trino_opa_url oidc fga)
            (authz_has_row_filters dp.spec.authz) (authz_has_column_access dp.spec.authz);
    }

module _ {W C : Type 0} (r : Reconciler W C) (dp : DataPlatform) where
  abbrev namespace : String
  namespace = trino_namespace_or_default dp.spec.trino

  unfoldable pub trino_shared_secret : OidcConfig → Exec (State W C) String
  trino_shared_secret oidc =
      if not
        (trino_oauth_enabled oidc dp.spec.trino.public_url (superset_is_enabled dp.spec.superset))
      then pure ""
      else do
        secret ← random_hex r 32
        ensure_generated_secret r dp "trino-internal" namespace "trino-coordinator"
            (("sharedSecret", secret) ∷ [])
        get_secret_data r "trino-internal" namespace "sharedSecret"

  -- The ConfigMap of older versions goes, whatever becomes of its deletion.
  unfoldable pub apply_trino_config_map : TrinoConfig → Exec (State W C) (Unit {0})
  apply_trino_config_map cfg =
      branch (in_world (r.kube.config_maps.delete namespace "trino-config")) (λ u. pure tt)
        (λ e. pure tt)
      >> apply r dp r.kube.secrets namespace "trino-config"
          (set_opaque (labels_for dp "trino-coordinator") (config_contents cfg))

  unfoldable pub apply_trino_catalog_secret : Properties → Exec (State W C) (Unit {0})
  apply_trino_catalog_secret contents =
      apply r dp r.kube.secrets namespace "trino-catalog-lakekeeper"
        (set_opaque (labels_for dp "trino-coordinator") contents)

  unfoldable pub apply_trino_service : Exec (State W C) (Unit {0})
  apply_trino_service = apply r dp r.kube.services namespace "trino" (
      set_trino_service (labels_for dp "trino-coordinator")
        (service_type_or_default dp.spec.trino.service))

  unfoldable pub apply_trino_coordinator : String → Bool → Bool → Exec (State W C) (Unit {0})
  apply_trino_coordinator hash oauth opa = apply r dp r.kube.deployments namespace "trino" (
      set_hashed_deployment (labels_for dp "trino-coordinator") (pos 1) hash (
        trino_pod_spec (trino_image_or_default dp.spec.trino) "config.properties.coordinator"
          dp.spec.trino.coordinator.resources dp.spec.trino.extra_env oauth opa))

  -- `client.IgnoreNotFound` of the deletion
  unfoldable pub delete_workers : Exec (State W C) (Unit {0})
  delete_workers =
      if_missing (λ u. pure tt) (pure tt)
        (in_world (r.kube.deployments.delete namespace "trino-worker"))

  unfoldable pub reconcile_trino_workers : String → Exec (State W C) (Unit {0})
  reconcile_trino_workers hash =
      if is_zero (trino_workers_or_default dp.spec.trino)
      then if_missing (λ deploy. delete_workers) (pure tt)
          (in_world (r.kube.deployments.get namespace "trino-worker"))
      else apply r dp r.kube.deployments namespace "trino-worker" (
          set_hashed_deployment (labels_for dp "trino-worker")
            (trino_workers_or_default dp.spec.trino) hash
            (trino_pod_spec (trino_image_or_default dp.spec.trino) "config.properties.worker"
              dp.spec.trino.resources dp.spec.trino.extra_env false false))

  unfoldable pub config_hash : Catalogs → TrinoConfig → String
  config_hash catalogs cfg =
      hash_data r (cfg.coordinator ∷ cfg.worker ∷ hash_data r catalogs.1 ∷ cfg.access_control ∷ [])

  -- the steps, every error of which marks the condition
  unfoldable pub trino_rolled_out : ObjectStore → OidcConfig → OpenfgaConfig → Exec (State W C) Bool
  trino_rolled_out store oidc fga = do
    shared ← trino_shared_secret oidc
    let cfg : TrinoConfig = trino_config dp oidc fga shared
    let catalogs : Catalogs = trino_catalog_data dp store oidc
    apply_trino_config_map cfg
    apply_trino_catalog_secret catalogs.0
    apply_trino_service
    apply_trino_coordinator (config_hash catalogs cfg)
        (trino_ui_auth_enabled oidc dp.spec.trino.public_url) (not (trino_opa_url oidc fga == ""))
    reconcile_trino_workers (config_hash catalogs cfg)
    deployment_ready r namespace "trino"

  unfoldable pub announce_endpoint : Exec (State W C) (Unit {0})
  announce_endpoint =
      set_status λ st. record st { trino_endpoint = cluster_service_url "trino" namespace 8080 }

  unfoldable pub reconcile_trino :
      ObjectStore → OidcConfig → OpenfgaConfig → Exec (State W C) (Unit {0})
  reconcile_trino store oidc fga =
      announce_endpoint
      >> rollout r dp "TrinoReady" "Trino is ready" "Trino coordinator is not ready"
          (trino_rolled_out store oidc fga)

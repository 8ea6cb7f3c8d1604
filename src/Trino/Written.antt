-- ===== src/Trino/Written.antt =====
-- What Trino's component writes to the cluster about access control.
use data_platform_operator.Base.{
  pos, Bool, not, ◌&&◌, ◌||◌, false, List, [], ◌∷◌, String, ◌==◌, ◌≡◌, contains, keys,
}
use data_platform_operator.Base.Exec.Ran.{Ran}
use data_platform_operator.Api.Engines.{trino_namespace_or_default}
use data_platform_operator.Api.Platform.{DataPlatform}
use data_platform_operator.Config.{OidcConfig, OpenfgaConfig}
use data_platform_operator.Kube.Objects.{Container, PodSpec}
use data_platform_operator.Reconciler.{Reconciler}
use data_platform_operator.Cluster.{apply}
use data_platform_operator.Cluster.Names.{labels_for}
use data_platform_operator.Trino.{Properties}
use data_platform_operator.Trino.Engine.{set_opaque}
use data_platform_operator.Trino.Pod.{set_hashed_deployment}
use data_platform_operator.Trino.Access.{mounts_access}

-- Some container mounts the file of the access control.
unfoldable pub pod_mounts_access : List Container → Bool
unfolding mounts_access
pod_mounts_access [] = false
pod_mounts_access (c ∷ cs) = mounts_access c.volume_mounts || pod_mounts_access cs

-- Access control is asked for, and there is an address to ask.
abbrev pub enforced : OidcConfig → OpenfgaConfig → Bool
enforced oidc fga = fga.enabled && oidc.enabled && not (fga.opa_url == "")

module _ {W C : Type 0} (r : Reconciler W C) (dp : DataPlatform) (oidc : OidcConfig)
    (fga : OpenfgaConfig) where
  -- A Secret of the configuration was written, with the file exactly if access control is enforced.
  abbrev pub WritesConfig : Type 0
  WritesConfig =
      (contents : Properties) × Ran
        (apply r dp r.kube.secrets (trino_namespace_or_default dp.spec.trino) "trino-config"
          (set_opaque (labels_for dp "trino-coordinator") contents))
        tt
      × (contains (keys contents) "access-control.properties" ≡ enforced oidc fga)

  -- The coordinator's Deployment was written, and mounts the file exactly if that is so.
  abbrev pub WritesCoordinator : Type 0
  WritesCoordinator =
      (hash : String) × (pod : PodSpec) × Ran
        (apply r dp r.kube.deployments (trino_namespace_or_default dp.spec.trino) "trino"
          (set_hashed_deployment (labels_for dp "trino-coordinator") (pos 1) hash pod))
        tt
      × (pod_mounts_access pod.containers ≡ enforced oidc fga)

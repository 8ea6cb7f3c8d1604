-- ===== src/Trino/Enforced.antt =====
-- Where OpenFGA's component is ready, Trino enforces what is configured.
use data_platform_operator.Base.{
  Bool, true, not, ◌&&◌, Bool-cases, inl, inr, none, some, Option, String, ◌==◌, ◌≡◌, refl, ap,
  contains, keys, arith,
}
use data_platform_operator.Base.Exec.{ok}
use data_platform_operator.Base.Exec.Ends.{
  Ends, Ends_any, Ends_of, Ends-ok, Ends-pure, Ends-raise, Ends-if, Ends-bind, Ends-branch,
}
use data_platform_operator.Base.Strings.{append-nonempty}
use data_platform_operator.Api.Access.{authz_is_enabled, authz_is_embedded}
use data_platform_operator.Api.Platform.{DataPlatform}
use data_platform_operator.Config.{OidcConfig, OpenfgaConfig}
use data_platform_operator.Reconciler.{Reconciler, State}
use data_platform_operator.Cluster.{marking}
use data_platform_operator.Cluster.Names.{cluster_service_url}
use data_platform_operator.Controller.Known.{AnythingAfter}
use data_platform_operator.Openfga.{
  openfga_config, openfga_server, openfga_rolled_out, openfga_concluded, reconcile_openfga,
  external_openfga, reconcile_authz,
}
use data_platform_operator.Trino.Engine.{config_contents, trino_config}
use data_platform_operator.Trino.Access.{trino_config-access_control}

-- The configuration has somewhere to ask.
abbrev asks : OpenfgaConfig → Bool
asks fga = fga.enabled && not (fga.opa_url == "")

module _ {W C : Type 0} (r : Reconciler W C) (dp : DataPlatform) where
  openfga_config-asks : (ns key : String) → asks (openfga_config r dp ns key) ≡ true
  unfolding openfga_config cluster_service_url
  openfga_config-asks ns key = ap not (append-nonempty "http://" _ (omega arith))

  -- a configuration that waits for nothing asks
  Served : OpenfgaConfig × Option String → State W C → Type 0
  Served (cfg, none) s = asks cfg ≡ true
  Served (cfg, some waiting) s = Unit {0}

  openfga_server-Served :
      (ns : String) → Ends (λ s. Unit {0}) (openfga_server r dp ns) Served AnythingAfter
  unfolding openfga_server Served
  openfga_server-Served ns = Ends_any _ _ λ u. Ends_any _ _ λ key. Ends_any _ _ λ ready.
      Ends-if (not ready) _ _ (Ends-pure _ (λ s h. tt))
        (Ends_any _ _ λ id. Ends-pure _ (λ s h. openfga_config-asks ns key))

  openfga_rolled_out-Served :
      (ns : String) → Ends (λ s. Unit {0}) (openfga_rolled_out r dp ns) Served AnythingAfter
  unfolding openfga_rolled_out Served
  openfga_rolled_out-Served ns = Ends_any _ _ λ u. Ends_any _ _ λ u. Ends_any _ _ λ u.
      Ends_any _ _ λ u.
        Ends_any _ _
          λ ready. Ends-if (not ready) _ _ (Ends-pure _ (λ s h. tt)) (openfga_server-Served ns)

  -- a configuration that is ready asks exactly if it is wanted
  Asks : Bool → OpenfgaConfig × Bool → State W C → Type 0
  Asks wanted x s = x.1 ≡ true → asks x.0 ≡ wanted

  openfga_concluded-Asks :
      (x : OpenfgaConfig × Option String)
      → Ends (Served x) (openfga_concluded r dp x) (Asks true) AnythingAfter
  unfolding openfga_concluded Served Asks
  openfga_concluded-Asks (cfg, none) =
      Ends-bind {M = λ u s. asks cfg ≡ true} _ _ (Ends_of _ (λ s u h q. h) (λ e s. tt))
        λ u. Ends-pure _ (λ s h q. h)
  openfga_concluded-Asks (cfg, some waiting) =
      Ends_any _ _ λ u. Ends-pure _ (λ s h q. ground (arith, q))

  reconcile_openfga-Asks : Ends (λ s. Unit {0}) (reconcile_openfga r dp) (Asks true) AnythingAfter
  unfolding reconcile_openfga marking
  reconcile_openfga-Asks =
      Ends-bind _ _
        (Ends_any _ _ λ u.
          Ends-branch {B' = AnythingAfter} _ _ _ (openfga_rolled_out-Served _)
            (λ x. Ends-pure x (λ s h. h)) (λ e. Ends_any _ _ λ u. Ends-raise e (λ s h. tt)))
        openfga_concluded-Asks

  reconcile_authz-Asks :
      Ends
        (λ s. Unit {0})
        (reconcile_authz r dp)
        (Asks (authz_is_enabled dp.spec.authz))
        AnythingAfter
  unfolding reconcile_authz external_openfga Asks
  reconcile_authz-Asks = elim (Bool-cases (authz_is_enabled dp.spec.authz)) [
    | inl on ↦ rw on (
        Ends-if (not (authz_is_embedded dp.spec.authz)) _ _
          (Ends_any _ _ λ u. Ends-raise _ (λ s h. tt)) reconcile_openfga-Asks)
    | inr off ↦ rw off (Ends_any _ _ λ u. Ends-pure _ (λ s h q. refl))
  ]

  -- If the authorization component reports that it is ready, then with the configuration that it
  -- hands on, Trino is configured with access control exactly if the platform enables authorization
  -- and there is an identity provider.
  pub reconcile_authz_enforced :
      (s : State W C) (fga : OpenfgaConfig) (oidc : OidcConfig) (shared : String)
      → (reconcile_authz r dp s).0 ≡ ok (fga, true)
      → contains
          (keys (config_contents (trino_config dp oidc fga shared)))
          "access-control.properties"
        ≡ (authz_is_enabled dp.spec.authz && oidc.enabled)
  unfolding Asks
  reconcile_authz_enforced s fga oidc shared h = ground (
    arith,
    Ends-ok _ reconcile_authz-Asks s tt h refl,
    trino_config-access_control dp oidc fga shared,
  )

-- ===== src/Openfga/Policies.antt =====
-- The store of the access policies that the configuration names is the one in the status.
use data_platform_operator.Base.{
  Bool, true, not, none, some, Option, String, arith, ◌≡◌, refl, ap, sym, ◌∙◌, if◌then◌else◌,
}
use data_platform_operator.Base.Exec.{Exec, ok, Error}
use data_platform_operator.Base.Exec.Ends.{
  Ends, Ends_any, Ends-ok, Ends-pure, Ends-raise, Ends-if, Ends-bind, Ends-branch,
}
use data_platform_operator.Api.Platform.{DataPlatform}
use data_platform_operator.Api.Access.{authz_has_access_policies}
use data_platform_operator.Cluster.Environment.{last_value}
use data_platform_operator.Opa.{opa_env, opa_container}
use data_platform_operator.Opa.Env.{opa_access_env}
use data_platform_operator.Catalog.Types.{CatalogClient}
use data_platform_operator.Config.{OidcConfig, OpenfgaConfig}
use data_platform_operator.Reconciler.{Reconciler, State, set_status}
use data_platform_operator.Cluster.{marking, set_condition}
use data_platform_operator.Controller.Known.{AnythingAfter}
use data_platform_operator.Oidc.{on_client, with_catalog}
use data_platform_operator.Openfga.{
  reconcile_access_store, openfga_server, openfga_rolled_out, openfga_concluded, reconcile_openfga,
  access_store_unused, remember_store,
}

module _ {W C : Type 0} (r : Reconciler W C) (dp : DataPlatform) where
  -- the store of the status
  abbrev Remembers : String → State W C → Type 0
  Remembers id s = s.status.row_filter_store_id ≡ id

  Ends-remember_store :
      (id : String) {P : State W C → Type 0} {B : Error → State W C → Type 0}
      → Ends P (remember_store r dp id) (λ u s. Remembers id s) B
  unfolding set_status
  Ends-remember_store id = record { at = λ s p. refl }

  -- a condition leaves the store of the status
  Ends-set_condition-Remembers :
      (id t reason message : String) (b : Bool) {B : Error → State W C → Type 0}
      → Ends (Remembers id) (set_condition r dp t b reason message) (λ u s. Remembers id s) B
  unfolding set_condition set_status
  Ends-set_condition-Remembers id t reason message b = record { at = λ s p. p }

  on_client-Remembers :
      (o : Option (CatalogClient W)) (f : CatalogClient W → Exec (State W C) String)
      → ((c : CatalogClient W) → Ends (λ s. Unit {0}) (f c) Remembers AnythingAfter)
      → Ends (λ s. Unit {0}) (on_client r o f) Remembers AnythingAfter
  unfolding on_client
  on_client-Remembers none f ef = Ends-raise _ (λ s h. tt)
  on_client-Remembers (some c) f ef = ef c

  reconcile_access_store-Remembers :
      (ns key : String)
      → Ends (λ s. Unit {0}) (reconcile_access_store r dp ns key) Remembers AnythingAfter
  unfolding reconcile_access_store with_catalog
  reconcile_access_store-Remembers ns key =
      Ends-if (access_store_unused r dp) _ _
        (Ends-bind _ _ (Ends-remember_store "") λ u. Ends-pure _ (λ s h. h))
        (on_client-Remembers r.catalog _ λ c.
          Ends_any _ _ λ id. Ends-bind _ _ (Ends-remember_store id) λ u. Ends-pure _ (λ s h. h))

  -- a configuration that is complete names the store of the status
  Complete : OpenfgaConfig × Option String → State W C → Type 0
  Complete (cfg, none) s = Remembers cfg.row_filter_store_id s
  Complete (cfg, some waiting) s = Unit {0}

  openfga_server-Complete :
      (ns : String) → Ends (λ s. Unit {0}) (openfga_server r dp ns) Complete AnythingAfter
  unfolding openfga_server Complete
  openfga_server-Complete ns = Ends_any _ _ λ u. Ends_any _ _ λ key. Ends_any _ _ λ ready.
      Ends-if (not ready) _ _ (Ends-pure _ (λ s h. tt))
        (Ends-bind _ _ (reconcile_access_store-Remembers ns key) λ id. Ends-pure _ (λ s h. h))

  openfga_rolled_out-Complete :
      (ns : String) → Ends (λ s. Unit {0}) (openfga_rolled_out r dp ns) Complete AnythingAfter
  unfolding openfga_rolled_out Complete
  openfga_rolled_out-Complete ns = Ends_any _ _ λ u. Ends_any _ _ λ u. Ends_any _ _ λ u.
      Ends_any _ _ λ u.
        Ends_any _ _
          λ ready. Ends-if (not ready) _ _ (Ends-pure _ (λ s h. tt)) (openfga_server-Complete ns)

  -- a configuration that is ready names the store of the status
  Ready : OpenfgaConfig × Bool → State W C → Type 0
  Ready x s = x.1 ≡ true → Remembers x.0.row_filter_store_id s

  openfga_concluded-Ready :
      (x : OpenfgaConfig × Option String)
      → Ends (Complete x) (openfga_concluded r dp x) Ready AnythingAfter
  unfolding openfga_concluded Complete Ready
  openfga_concluded-Ready (cfg, none) =
      Ends-bind _ _ (Ends-set_condition-Remembers cfg.row_filter_store_id _ _ _ _)
        λ u. Ends-pure _ (λ s h q. h)
  openfga_concluded-Ready (cfg, some waiting) =
      Ends_any _ _ λ u. Ends-pure _ (λ s h q. ground (arith, q))

  reconcile_openfga-Ready : Ends (λ s. Unit {0}) (reconcile_openfga r dp) Ready AnythingAfter
  unfolding reconcile_openfga marking
  reconcile_openfga-Ready =
      Ends-bind _ _
        (Ends_any _ _ λ u.
          Ends-branch {B' = AnythingAfter} _ _ _ (openfga_rolled_out-Complete _)
            (λ x. Ends-pure x (λ s h. h)) (λ e. Ends_any _ _ λ u. Ends-raise e (λ s h. tt)))
        openfga_concluded-Ready

  store_of_env :
      (oidc : OidcConfig) (cfg : OpenfgaConfig)
      → last_value "OPENFGA_STORE_ID" (opa_env r dp oidc cfg)
        ≡ (if authz_has_access_policies dp.spec.authz then some cfg.row_filter_store_id else none)
  unfolding opa_env opa_access_env last_value
  store_of_env oidc cfg = ground arith

  -- Where OpenFGA runs in the cluster: if its component reports that it is ready, then OPA's
  -- container, with the configuration that is handed on, is told to resolve row filters and column
  -- restrictions in the store that the platform's status names, where there are any, and is told of
  -- no store where there are none.
  pub reconcile_openfga_store :
      (s : State W C) (cfg : OpenfgaConfig) (oidc : OidcConfig)
      → (reconcile_openfga r dp s).0 ≡ ok (cfg, true)
      → last_value "OPENFGA_STORE_ID" (opa_container r dp oidc cfg).env ≡ (
          if authz_has_access_policies dp.spec.authz
          then some (reconcile_openfga r dp s).1.status.row_filter_store_id
          else none)
  unfolding Ready opa_container
  reconcile_openfga_store s cfg oidc h =
      store_of_env oidc cfg
      ∙ ap (λ id. if authz_has_access_policies dp.spec.authz then some id else none)
          (sym (Ends-ok _ reconcile_openfga-Ready s tt h refl))

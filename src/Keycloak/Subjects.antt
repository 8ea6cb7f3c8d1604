-- ===== src/Keycloak/Subjects.antt =====
-- The operator's own principals of the catalog are users of the imported realm.
use data_platform_operator.Base.{
  Bool, true, false, not, ◌&&◌, ◌||◌, Bool-cases, some, inl, inr, Option, List, [], ◌∷◌, String,
  ◌<>◌, ◌==◌, eq_refl, ◌≡◌, refl, ap, ◌∙◌, lookup, All, arith,
}
use data_platform_operator.Base.Exec.{ok}
use data_platform_operator.Base.Exec.Ends.{
  Ends, Ends_any, Ends_of, Ends-ok, Ends-pure, Ends-raise, Ends-if, Ends-bind, Ends-branch,
}
use data_platform_operator.Base.Json.{Json, str}
use data_platform_operator.Api.Access.{authz_is_enabled}
use data_platform_operator.Api.Constants.{
  default_oidc_trino_client_id, default_oidc_opa_client_id, default_oidc_admin_user_id,
}
use data_platform_operator.Api.Platform.{DataPlatform}
use data_platform_operator.Config.{OidcConfig}
use data_platform_operator.Reconciler.{Reconciler, State}
use data_platform_operator.Cluster.{marking}
use data_platform_operator.Controller.Known.{AnythingAfter}
use data_platform_operator.Warehouse.{catalog_principals}
use data_platform_operator.Keycloak.{
  embedded_oidc_config, keycloak_rolled_out, keycloak_concluded, reconcile_keycloak,
}
use data_platform_operator.Keycloak.Clients.{RealmOptions, Document, keycloak_uuid}
use data_platform_operator.Keycloak.Realm.{realm_users, admin_user, service_account_user}

-- The subject is what LakeKeeper knows the user with this id by.
unfoldable pub is_id : String → Option Json → Bool
is_id subject (some (str id)) = ("oidc~" <> id) == subject
is_id subject other = false

-- Some user of the list has the id of the subject.
unfoldable pub is_user : String → List Document → Bool
unfolding is_id
is_user subject [] = false
is_user subject (user ∷ users) = is_id subject (lookup "id" user) || is_user subject users

module _ (uuid : String → String) (o : RealmOptions) where
  admin-is_user : is_user ("oidc~" <> default_oidc_admin_user_id) (realm_users uuid o) ≡ true
  unfolding is_user is_id realm_users admin_user lookup
  admin-is_user = refl

  trino-is_user :
      is_user
        ("oidc~" <> keycloak_uuid uuid "service-account" default_oidc_trino_client_id)
        (realm_users uuid o)
      ≡ true
  unfolding is_user is_id realm_users admin_user service_account_user lookup
  trino-is_user = ground (
    arith,
    eq_refl ("oidc~" <> keycloak_uuid uuid "service-account" default_oidc_trino_client_id),
  )

  opa-is_user :
      is_user
        ("oidc~" <> keycloak_uuid uuid "service-account" default_oidc_opa_client_id)
        (realm_users uuid o)
      ≡ true
  unfolding is_user is_id realm_users admin_user service_account_user lookup
  opa-is_user =
      ground (
        arith,
        eq_refl ("oidc~" <> keycloak_uuid uuid "service-account" default_oidc_opa_client_id),
      )

module _ {W C : Type 0} (r : Reconciler W C) (dp : DataPlatform) where
  -- The subjects of a configuration are the administrator's and those of its clients.
  Pinned : OidcConfig → Type 0
  Pinned oidc =
      (oidc.admin_subject ≡ default_oidc_admin_user_id)
      × (oidc.trino_subject ≡ keycloak_uuid r.uuid_of_url "service-account" oidc.trino_client_id)
      × (oidc.opa_subject ≡ keycloak_uuid r.uuid_of_url "service-account" oidc.opa_client_id)

  abbrev PinnedAfter : OidcConfig × Bool → State W C → Type 0
  PinnedAfter x s = Pinned x.0

  embedded_oidc_config-Pinned :
      (ns : String)
      → Ends (λ s. Unit {0}) (embedded_oidc_config r dp ns) (λ oidc s. Pinned oidc) AnythingAfter
  unfolding embedded_oidc_config Pinned
  embedded_oidc_config-Pinned ns = Ends_any _ _ λ operator_id. Ends_any _ _ λ operator_secret.
      Ends_any _ _ λ trino_id. Ends_any _ _ λ trino_secret. Ends_any _ _ λ ui_id.
        Ends_any _ _ λ opa_id. Ends_any _ _ λ opa_secret.
          Ends_any _ _
            λ superset_id. Ends_any _ _ λ superset_secret. Ends-pure _ (λ s h. (refl, refl, refl))

  keycloak_rolled_out-Pinned :
      (ns : String) → Ends (λ s. Unit {0}) (keycloak_rolled_out r dp ns) PinnedAfter AnythingAfter
  unfolding keycloak_rolled_out
  keycloak_rolled_out-Pinned ns = Ends_any _ _ λ u. Ends_any _ _ λ u. Ends_any _ _ λ hash.
      Ends_any _ _ λ u. Ends_any _ _ λ u. Ends-bind _ _ (embedded_oidc_config-Pinned ns) λ cfg.
        Ends-bind {M = λ ready s. Pinned cfg} _ _ (Ends_of _ (λ s ready h q. h) (λ e s. tt))
          λ ready. Ends-pure _ (λ s h. h)

  keycloak_concluded-Pinned :
      (x : OidcConfig × Bool)
      → Ends (PinnedAfter x) (keycloak_concluded r dp x) PinnedAfter AnythingAfter
  unfolding keycloak_concluded
  keycloak_concluded-Pinned x =
      Ends-if x.1 _ _
        (Ends-bind {M = λ u s. Pinned x.0} _ _ (Ends_of _ (λ s u h q. h) (λ e s. tt))
          λ u. Ends-pure _ (λ s h. h))
        (Ends-bind {M = λ u s. Pinned x.0} _ _ (Ends_of _ (λ s u h q. h) (λ e s. tt))
          λ u. Ends-pure _ (λ s h. h))

  reconcile_keycloak-Pinned :
      Ends (λ s. Unit {0}) (reconcile_keycloak r dp) PinnedAfter AnythingAfter
  unfolding reconcile_keycloak marking
  reconcile_keycloak-Pinned =
      Ends-bind _ _
        (Ends_any _ _ λ u.
          Ends-branch {B' = AnythingAfter} _ _ _ (keycloak_rolled_out-Pinned _)
            (λ x. Ends-pure x (λ s h. h)) (λ e. Ends_any _ _ λ u. Ends-raise e (λ s h. tt)))
        keycloak_concluded-Pinned

  granted-is_user :
      (oidc : OidcConfig) (o : RealmOptions)
      → Pinned oidc
      → oidc.trino_client_id ≡ default_oidc_trino_client_id
      → oidc.opa_client_id ≡ default_oidc_opa_client_id
      → All
          (λ p. is_user p.subject (realm_users r.uuid_of_url o) ≡ true)
          (catalog_principals dp oidc)
  unfolding catalog_principals Pinned
  granted-is_user oidc o (admin, trino, opa) trino_id opa_id =
      let users = realm_users r.uuid_of_url o in
      let admin_found =
        ap (λ x. is_user ("oidc~" <> x) users) admin ∙ admin-is_user r.uuid_of_url o in
      let trino_found =
        ap (λ x. is_user ("oidc~" <> x) users)
          (trino ∙ ap (keycloak_uuid r.uuid_of_url "service-account") trino_id)
        ∙ trino-is_user r.uuid_of_url o in
      let opa_found =
        ap (λ x. is_user ("oidc~" <> x) users)
          (opa ∙ ap (keycloak_uuid r.uuid_of_url "service-account") opa_id)
        ∙ opa-is_user r.uuid_of_url o in
      let asked = authz_is_enabled dp.spec.authz && not (oidc.opa_subject == "") in
      elim (Bool-cases (oidc.admin_subject == "")) [
        | inl unset ↦ rw unset tt
        | inr known ↦ elim (Bool-cases (oidc.trino_subject == "")) [
          | inl unset ↦ elim (Bool-cases asked) [
            | inl on ↦ rw (known, unset, on) (admin_found, (opa_found, tt))
            | inr off ↦ rw (known, unset, off) (admin_found, tt)
          ]
          | inr set ↦ elim (Bool-cases asked) [
            | inl on ↦ rw (known, set, on) (admin_found, (trino_found, (opa_found, tt)))
            | inr off ↦ rw (known, set, off) (admin_found, (trino_found, tt))
          ]
        ]
      ]

  -- Where the identity provider is embedded and its component ends without an error, ready or not:
  -- if the clients of Trino and OPA have the names that the operator gives them, then the operator's
  -- own principals of the catalog, which are the administrator, Trino and OPA and not the members of
  -- the access groups, are users that the imported realm pins the ids of.
  pub reconcile_keycloak_subjects :
      (s : State W C) (x : OidcConfig × Bool) (o : RealmOptions)
      → (reconcile_keycloak r dp s).0 ≡ ok x
      → x.0.trino_client_id ≡ default_oidc_trino_client_id
      → x.0.opa_client_id ≡ default_oidc_opa_client_id
      → All
          (λ p. is_user p.subject (realm_users r.uuid_of_url o) ≡ true)
          (catalog_principals dp x.0)
  reconcile_keycloak_subjects s x o h trino opa =
      granted-is_user x.0 o (Ends-ok _ reconcile_keycloak-Pinned s tt h) trino opa

-- ===== src/Warehouse/Condition.antt =====
-- What the warehouse's component owes the controller.
use data_platform_operator.Base.{Bool, Option, none, some, List, [], ◌∷◌, String}
use data_platform_operator.Base.Exec.{Result, Exec}
use data_platform_operator.Base.Exec.Keeps.{
  Keeps, Keeps-pure, Keeps-raise, Keeps-lift, Keeps-bind, Keeps-if,
}
use data_platform_operator.Api.Platform.{DataPlatform}
use data_platform_operator.Catalog.Types.{CatalogClient, GroupEntry, Response}
use data_platform_operator.Config.{OidcConfig, OpenfgaConfig, ObjectStore}
use data_platform_operator.Kube.{ConditionLaws}
use data_platform_operator.Reconciler.{Reconciler, State}
use data_platform_operator.Cluster.Frame.{
  Is, Keeps-in_world, Keeps-marking, Keeps-get_secret_data, Keeps-set_condition,
}
use data_platform_operator.Controller.Parts.{Owns}
use data_platform_operator.Oidc.{on_client, with_catalog, token_of, oidc_access_token}
use data_platform_operator.Access.{
  listed_of, keycloak_group_members, wanted_members, access_group_members, reconcile_access_groups,
}
use data_platform_operator.Access.People.{Members}
use data_platform_operator.Warehouse.{checked_token, provision, warehouse_with, reconcile_warehouse}

-- An action that leaves every condition as it was.
abbrev pub Quiet : {W C A : Type 0} → Reconciler W C → Exec (State W C) A → Type 0
Quiet r m = (t : String) (b : Bool) → Keeps (Is r t b) m

module _ {W C : Type 0} (r : Reconciler W C) where
  pub on_client-Quiet :
      {A : Type 0} (o : Option (CatalogClient W)) (f : CatalogClient W → Exec (State W C) A)
      → ((c : CatalogClient W) → Quiet r (f c))
      → Quiet r (on_client r o f)
  unfolding on_client
  on_client-Quiet none f quiet t b = Keeps-raise _
  on_client-Quiet (some c) f quiet t b = quiet c t b

  pub with_catalog-Quiet :
      {A : Type 0} (f : CatalogClient W → Exec (State W C) A)
      → ((c : CatalogClient W) → Quiet r (f c))
      → Quiet r (with_catalog r f)
  unfolding with_catalog
  with_catalog-Quiet f quiet = on_client-Quiet r.catalog f quiet

  token_of-Quiet : (what : String) (x : Response) → Quiet r (token_of r what x)
  unfolding token_of
  token_of-Quiet what x t b = Keeps-if _ _ _ (Keeps-lift _) (Keeps-raise _)

  pub oidc_access_token-Quiet : (oidc : OidcConfig) → Quiet r (oidc_access_token r oidc)
  unfolding oidc_access_token
  oidc_access_token-Quiet oidc t b = Keeps-if _ _ _ (Keeps-pure _) (
      with_catalog-Quiet _
        (λ c t b.
          Keeps-bind _ _ (Keeps-if _ _ _ (Keeps-in_world r _ t b) (Keeps-in_world r _ t b))
            λ x. token_of-Quiet _ x t b)
        t b)

  listed_of-Quiet :
      {A : Type 0} (what : String) (decode : String → Result A) (x : Response)
      → Quiet r (listed_of r what decode x)
  unfolding listed_of
  listed_of-Quiet what decode x t b = Keeps-if _ _ _ (Keeps-lift _) (Keeps-raise _)

  keycloak_group_members-Quiet :
      (namespace realm token id : String)
      → Quiet r (keycloak_group_members r namespace realm token id)
  unfolding keycloak_group_members
  keycloak_group_members-Quiet namespace realm token id = with_catalog-Quiet _ λ c t b.
      Keeps-bind _ _ (Keeps-in_world r _ t b)
        λ x. Keeps-bind _ _ (listed_of-Quiet _ r.decode_members x t b) λ ms. Keeps-pure _

  wanted_members-Quiet :
      (namespace realm token : String) (gs : List GroupEntry) (out : Members)
      → Quiet r (wanted_members r namespace realm token gs out)
  unfolding wanted_members
  wanted_members-Quiet namespace realm token [] out t b = Keeps-pure _
  wanted_members-Quiet namespace realm token (g ∷ gs) out t b =
      Keeps-if _ _ _
        (Keeps-bind _ _ (keycloak_group_members-Quiet namespace realm token g.id t b)
          λ ms. wanted_members-Quiet namespace realm token gs _ t b)
        (wanted_members-Quiet namespace realm token gs out t b)

  module _ (dp : DataPlatform) where
    access_group_members-Quiet : Quiet r (access_group_members r dp)
    unfolding access_group_members
    access_group_members-Quiet = with_catalog-Quiet _ λ c t b.
        Keeps-bind _ _ (Keeps-get_secret_data r _ _ _ t b) λ user.
          Keeps-bind _ _ (Keeps-get_secret_data r _ _ _ t b) λ password.
            Keeps-bind _ _ (Keeps-in_world r _ t b) λ x.
              Keeps-bind _ _ (token_of-Quiet _ x t b) λ token.
                Keeps-bind _ _ (Keeps-in_world r _ t b) λ listing.
                  Keeps-bind _ _ (listed_of-Quiet _ r.decode_groups listing t b)
                    λ groups. wanted_members-Quiet _ _ token groups [] t b

    reconcile_access_groups-Quiet :
        (oidc : OidcConfig) (fga : OpenfgaConfig) → Quiet r (reconcile_access_groups r dp oidc fga)
    unfolding reconcile_access_groups
    reconcile_access_groups-Quiet oidc fga t b = Keeps-if _ _ _ (Keeps-pure _) (
        with_catalog-Quiet _
          (λ c t b. Keeps-bind _ _ (access_group_members-Quiet t b) λ members.
            Keeps-bind _ _ (oidc_access_token-Quiet oidc t b) λ token.
              Keeps-bind _ _ (Keeps-in_world r _ t b)
                λ u. Keeps-if _ _ _ (Keeps-pure _) (Keeps-in_world r _ t b))
          t b)

    provision-Quiet :
        (c : CatalogClient W) (store : ObjectStore) (oidc : OidcConfig) (fga : OpenfgaConfig)
        → Quiet r (provision r dp c store oidc fga)
    unfolding provision checked_token
    provision-Quiet c store oidc fga t b =
        Keeps-bind _ _
          (Keeps-bind _ _ (oidc_access_token-Quiet oidc t b)
            λ token. Keeps-if _ _ _ (Keeps-raise _) (Keeps-pure _))
          λ token. Keeps-bind _ _ (Keeps-in_world r _ t b) λ u.
            Keeps-bind _ _ (Keeps-if _ _ _ (Keeps-pure _) (Keeps-in_world r _ t b)) λ u.
              Keeps-bind _ _ (Keeps-in_world r _ t b)
                λ u. reconcile_access_groups-Quiet oidc fga t b

    module _ (laws : ConditionLaws r.condition_api) where
      warehouse_with-Owns :
          (o : Option (CatalogClient W)) (store : ObjectStore) (oidc : OidcConfig)
          (fga : OpenfgaConfig)
          → Owns r "WarehouseReady" (warehouse_with r dp o store oidc fga)
      unfolding warehouse_with
      warehouse_with-Owns none store oidc fga t b other =
          Keeps-set_condition r dp laws _ _ _ _ t b other
      warehouse_with-Owns (some c) store oidc fga t b other =
          Keeps-bind _ _
            (Keeps-marking r dp laws _ _ _ t b other (provision-Quiet c store oidc fga t b))
            λ u. Keeps-set_condition r dp laws _ _ _ _ t b other

      pub reconcile_warehouse-Owns :
          (store : ObjectStore) (oidc : OidcConfig) (fga : OpenfgaConfig)
          → Owns r "WarehouseReady" (reconcile_warehouse r dp store oidc fga)
      unfolding reconcile_warehouse
      reconcile_warehouse-Owns store oidc fga = warehouse_with-Owns r.catalog store oidc fga

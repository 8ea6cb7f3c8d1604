-- ===== src/Examples/Requests.antt =====
-- The theorems on the requests to LakeKeeper and OpenFGA, at that service.
use data_platform_operator.Base.{
  ◌≤◌, Bool, true, false, ◌&&◌, ◌||◌, not, Option, none, some, List, [], ◌∷◌, ◌++◌, String, ◌<>◌,
  ◌==◌, ◌≡◌, ◌↔◌, refl, arith, All, length, lookup, if◌then◌else◌,
}
use data_platform_operator.Base.Exec.{ok, ◌>>=◌}
use data_platform_operator.Base.Sort.{IsSorted}
use data_platform_operator.Catalog.Types.{
  AuthzType, CatalogPrincipal, AuthzTuple, AuthzStoreRequest, MemberEntry,
}
use data_platform_operator.Authz.Model.{authz_model_json, authz_model_matches}
use data_platform_operator.Authz.Model.Matches.{
  relations_of, SameRelations, authz_model_matches_iff,
}
use data_platform_operator.Authz.Store.{
  find_authz_store, ensure_authz_store, latest_authz_model, live_store,
}
use data_platform_operator.Authz.Store.Pages.{Serves, last, more, find_authz_store-eq-live_store}
use data_platform_operator.Authz.Store.Ensure.{ensure_authz_store_ok}
use data_platform_operator.Authz.Types.{access_authz_types}
use data_platform_operator.Authz.Types.Declares.{
  declares, filtered_by, revealed_by, names, declares-access_authz_types,
  access_authz_types-IsSorted,
}
use data_platform_operator.Access.People.{principals_of, group_tuples}
use data_platform_operator.Access.Tuples.{person_tuples, group_tuples-principals_of}
use data_platform_operator.Warehouse.{catalog_principals}
use data_platform_operator.Warehouse.Principals.{
  granted, granted_server, catalog_principals-granted,
}
use data_platform_operator.Config.{OidcConfig, no_oidc}
use data_platform_operator.Examples.Platform.{platform}
use data_platform_operator.Examples.Services.{shelf, service, first_page, second_page, region_types}

abbrev escape : String → String
escape s = s

pages_served : Serves shelf escape service [] "" (first_page ∷ second_page ∷ [])
unfolding data_platform_operator.Catalog.Http.is_success
pages_served =
    more (record { status = 200; body = "first" }) first_page refl refl refl refl
      (last (record { status = 200; body = "second" }) second_page refl refl refl refl)

-- The deleted store of the first page is passed over.
find_authz_store_example : (find_authz_store shelf escape 2 service "filters" []).0 ≡ ok "s1"
unfolding live_store
find_authz_store_example =
    find_authz_store-eq-live_store shelf escape service 2 "filters" []
      (first_page ∷ second_page ∷ []) pages_served (omega arith)

abbrev request : AuthzStoreRequest
request = record { store = "filters"; types = region_types }

ensure_authz_store_ok_example : ("s1" == "") ≡ false
unfolding ensure_authz_store ◌>>=◌ find_authz_store data_platform_operator.Catalog.Http.is_success
    latest_authz_model data_platform_operator.Authz.Store.latest_of
    data_platform_operator.Authz.Store.write_if_changed authz_model_matches authz_model_json
    data_platform_operator.Base.insert lookup data_platform_operator.Base.Sort.sorted
ensure_authz_store_ok_example = ensure_authz_store_ok shelf escape service 2 request [] refl

-- one type, with its relations in either order
abbrev listed : List AuthzType
listed = record { name = "region"; relations = "east" ∷ "west" ∷ [] } ∷ []

abbrev reordered : List AuthzType
reordered = record { name = "region"; relations = "west" ∷ "east" ∷ [] } ∷ []

authz_model_matches_iff_example :
    (authz_model_matches (some (authz_model_json listed)) (authz_model_json reordered) ≡ true) ↔ (
      (type : String)
      → SameRelations
          (relations_of type (authz_model_json listed).type_definitions)
          (relations_of type (authz_model_json reordered).type_definitions))
authz_model_matches_iff_example =
    authz_model_matches_iff (authz_model_json listed) (authz_model_json reordered)

declares_example : declares "column" "reader" (access_authz_types platform.spec.authz) ≡ (
    filtered_by "column" "reader" platform.spec.authz.row_filters
    || revealed_by "column" "reader" platform.spec.authz.column_access)
declares_example = declares-access_authz_types platform.spec.authz "column" "reader"

sorted_example :
    IsSorted (names (access_authz_types platform.spec.authz))
    × All (λ t. IsSorted t.relations) (access_authz_types platform.spec.authz)
sorted_example = access_authz_types-IsSorted platform.spec.authz

abbrev admin : CatalogPrincipal
admin = record {
  subject = "oidc~1";
  name = "Admin";
  email = "admin@local";
  type = "human";
  server_relation = "admin";
  project_relation = "project_admin";
}

abbrev membership : AuthzTuple
membership = record { user = "user:1"; relation = "member"; object = "group:analysts" }

abbrev embedded : OidcConfig
embedded = record no_oidc { enabled = true; admin_subject = "1"; opa_subject = "2" }

granted_example :
    (granted "oidc~2" "security_admin" (catalog_principals platform embedded) ≡ true)
    × (granted "oidc~2" "project_admin" (catalog_principals platform embedded) ≡ false)
    × (granted_server "oidc~2" "admin" (catalog_principals platform embedded) ≡ false)
unfolding data_platform_operator.Api.Access.authz_is_enabled
granted_example = catalog_principals-granted platform embedded "oidc~2"

abbrev members : List MemberEntry
members =
    record {
      id = "7";
      username = "ann";
      email = "ann@local";
      first_name = "Ann";
      last_name = "";
      service_client = "";
    }
    ∷ record {
      id = "8";
      username = "service-account-trino";
      email = "";
      first_name = "";
      last_name = "";
      service_client = "";
    }
    ∷ []

group_tuples_example :
    group_tuples "analysts" (principals_of members)
    ≡ record { user = "user:7"; relation = "member"; object = "group:analysts" } ∷ []
unfolding person_tuples data_platform_operator.Base.Text.has_prefix
group_tuples_example = group_tuples-principals_of "analysts" members

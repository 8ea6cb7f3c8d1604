-- ===== src/Examples/Services.antt =====
-- A service that keeps what is posted to it and lists its stores on two pages.
use data_platform_operator.Base.{Option, none, some, List, [], ◌∷◌, String, ◌==◌, if◌then◌else◌}
use data_platform_operator.Base.Exec.{ok, Exec}
use data_platform_operator.Base.Json.{Json, str}
use data_platform_operator.Catalog.Types.{Response, Endpoint, AuthzType}
use data_platform_operator.Catalog.Http.{Http, StorePage}
use data_platform_operator.Catalog.Server.{Server}
use data_platform_operator.Authz.Model.{AuthzModel, authz_model_json}

abbrev pub Posts : Type 0
Posts = List (String × Json)

abbrev pub first_page : StorePage
first_page = record {
  stores =
      record { id = "gone"; name = "filters"; deleted_at = "2026-01-01" }
      ∷ record { id = "other"; name = "lakekeeper"; deleted_at = "" }
      ∷ [];
  continuation_token = "next";
}

abbrev pub second_page : StorePage
second_page = record {
  stores = record { id = "s1"; name = "filters"; deleted_at = "" } ∷ [];
  continuation_token = "";
}

abbrev pub region_types : List AuthzType
region_types = record { name = "region"; relations = "viewer" ∷ [] } ∷ []

abbrev answer : String → String
answer path = if path == "stores?page_size=100" then "first" else "second"

abbrev exchange : Option Json → String → Exec Posts Response
exchange (some j) path w = (ok (record { status = 200; body = "" }), (path, j) ∷ w)
exchange none path w = (ok (record { status = 200; body = answer path }), w)

abbrev pub shelf : Http Posts AuthzModel
shelf = record {
  exchange = λ method e path payload. exchange payload path;
  encode_model = λ m. str m.schema_version;
  quote = λ s. s;
  decode_stores = λ body. ok (if body == "first" then first_page else second_page);
  decode_roles = λ body. ok [];
  decode_warehouses = λ body. ok [];
  decode_id = λ body. ok body;
  decode_models = λ body. ok (authz_model_json region_types ∷ []);
}

abbrev pub service : Endpoint
service = record { namespace = "lake"; service = "lakekeeper"; port = 8181; bearer = "token" }

-- the post is among those that were made
pub data Posted (path : String) (j : Json) : Posts → Type 0 where
  here : {w : Posts} → Posted path j ((path, j) ∷ w)
  there : {x : String × Json} {w : Posts} → Posted path j w → Posted path j (x ∷ w)

stays :
    (payload : Option Json) (path : String) (w : Posts) (p : String) (j : Json)
    → Posted p j w
    → Posted p j (exchange payload path w).1
stays none path w p j h = h
stays (some x) path w p j h = there h

pub shelf_keeps : Server shelf service (λ w path j. Posted path j w)
shelf_keeps = record {
  accepted = λ w path j r x a. here;
  kept = λ w method path payload p j h. stays payload path w p j h;
}

-- ===== src/Authz/Store.antt =====
-- internal/controller/authzstore.go: the requests to OpenFGA.
pub mod Pages
pub mod Ensure
pub mod Tuples
use data_platform_operator.Base.{
  ℕ, zero, suc, Bool, true, false, Option, none, some, List, [], ◌∷◌, String, ◌<>◌, ◌==◌, ◌&&◌,
  nat_eq, is_empty, if◌then◌else◌,
}
use data_platform_operator.Base.Exec.{Exec, Result, ok, err, pure, raise, errorf, ◌>>=◌, ◌>>◌}
use data_platform_operator.Base.Json.{Json, str, object, singleton}
use data_platform_operator.Catalog.Types.{AuthzStoreRequest, AuthzTuple, Response, Endpoint}
use data_platform_operator.Catalog.Http.{Http, StoreEntry, StorePage, is_success}
use data_platform_operator.Catalog.Client.{returned, post}
use data_platform_operator.Authz.Model.{AuthzModel, authz_model_json, authz_model_matches}

-- `query.Encode()` of the listing, with the keys in order and the token escaped
abbrev pub stores_query : (String → String) → String → String
stores_query escape token =
    if token == ""
    then "stores?page_size=100"
    else "stores?continuation_token=" <> escape token <> "&page_size=100"

unfoldable pub live_store : String → List StoreEntry → Option String
live_store name [] = none
live_store name (s ∷ ss) =
    if (s.name == name) && (s.deleted_at == "") then some s.id else live_store name ss

-- the error where the fuel of the listing runs out, which the code has not
abbrev pub out_of_fuel : String
out_of_fuel = "the store listing did not end"

unfoldable pub first_model : List AuthzModel → Option AuthzModel
first_model [] = none
first_model (m ∷ ms) = some m

abbrev pub tuple_json : AuthzTuple → Json
tuple_json t = object (
    (
      "writes",
      object (
          (
            "tuple_keys",
            singleton (
                object (
                  ("user", str t.user)
                  ∷ ("relation", str t.relation)
                  ∷ ("object", str t.object)
                  ∷ [])),
          )
          ∷ []),
    )
    ∷ [])

module _ {W : Type 0} (http : Http W AuthzModel) (escape : String → String) where
  -- What follows a page: the store, the end, or the next page.
  unfoldable pub after_page :
      (String → Exec W String) → String → StorePage → Option String → Exec W String
  after_page next name page (some id) = pure id
  after_page next name page none =
      if page.continuation_token == "" then pure "" else next page.continuation_token

  unfoldable pub read_page : (String → Exec W String) → String → Result StorePage → Exec W String
  unfolding after_page live_store
  read_page next name (err e) = raise (errorf ("parse authz store list: " <> e.message))
  read_page next name (ok page) = after_page next name page (live_store name page.stores)

  -- `findAuthzStore` from a continuation token; the fuel bounds the pages that are read
  unfoldable pub find_from : ℕ → Endpoint → String → String → Exec W String
  unfolding read_page returned
  find_from zero e name token = raise (errorf out_of_fuel)
  find_from (suc fuel) e name token = do
    r ← http.exchange "GET" e (stores_query escape token) none
    if is_success r.status
        then read_page (find_from fuel e name) name (http.decode_stores r.body)
        else returned "list authz stores" r

  unfoldable pub find_authz_store : ℕ → Endpoint → String → Exec W String
  unfolding find_from
  find_authz_store fuel e name = find_from fuel e name ""

  unfoldable pub created_store : String → Result String → Exec W String
  created_store name (err e) = raise (errorf ("parse created authz store: " <> e.message))
  created_store name (ok id) =
      if id == ""
      then raise (errorf ("created authz store " <> http.quote name <> " has no id"))
      else pure id

  unfoldable pub create_authz_store : Endpoint → String → Exec W String
  create_authz_store e name = do
    r ← http.exchange "POST" e "stores" (some (object (("name", str name) ∷ [])))
    if is_success r.status
        then created_store name (http.decode_id r.body)
        else returned "create authz store" r

  unfoldable pub latest_of : Result (List AuthzModel) → Exec W (Option AuthzModel)
  unfolding first_model
  latest_of (err e) = raise (errorf ("parse authorization models: " <> e.message))
  latest_of (ok models) = pure (first_model models)

  unfoldable pub latest_authz_model : Endpoint → String → Exec W (Option AuthzModel)
  latest_authz_model e store_id = do
    r ← http.exchange "GET" e ("stores/" <> store_id <> "/authorization-models?page_size=1") none
    if nat_eq r.status 404
        then pure none
        else if is_success r.status
        then latest_of (http.decode_models r.body)
        else returned "list authorization models" r

  -- models are append-only, so one that matches is left alone
  unfoldable pub write_if_changed :
      Endpoint → String → Option AuthzModel → AuthzModel → Exec W String
  unfolding returned
  write_if_changed e store_id current desired =
      if authz_model_matches current desired then pure store_id else do
        r ←
            http.exchange "POST" e ("stores/" <> store_id <> "/authorization-models")
              (some (http.encode_model desired))
        if is_success r.status then pure store_id else returned "write authorization model" r

  unfoldable pub ensure_authz_store : ℕ → Endpoint → AuthzStoreRequest → Exec W String
  ensure_authz_store fuel e req = do
    found ← find_authz_store fuel e req.store
    store_id ← (if found == "" then create_authz_store e req.store else pure found)
    current ← latest_authz_model e store_id
    write_if_changed e store_id current (authz_model_json req.types)

module _ {W M : Type 0} (http : Http W M) where
  -- the loop's body is that of `post`, with a message of its own
  unfoldable pub write_tuples : Endpoint → String → List AuthzTuple → Exec W (Unit {0})
  write_tuples e store_id [] = pure tt
  write_tuples e store_id (t ∷ ts) = do
    post http e ("stores/" <> store_id <> "/write") (tuple_json t)
        ("write authz tuple " <> t.user <> " " <> t.relation <> " " <> t.object)
    write_tuples e store_id ts

  unfoldable pub ensure_authz_tuples : Endpoint → String → List AuthzTuple → Exec W (Unit {0})
  ensure_authz_tuples e store_id ts = if store_id == "" then pure tt else write_tuples e store_id ts

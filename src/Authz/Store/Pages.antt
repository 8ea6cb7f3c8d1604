-- ===== src/Authz/Store/Pages.antt =====
-- The listing of OpenFGA's stores, page by page.
use data_platform_operator.Base.{
  ℕ, zero, suc, ◌≤◌, true, false, Option, none, some, List, [], ◌∷◌, ◌++◌, String, ◌==◌, ◌≡◌, refl,
  arith, length,
}
use data_platform_operator.Base.Exec.{ok, ◌>>=◌}
use data_platform_operator.Catalog.Types.{Response, Endpoint}
use data_platform_operator.Catalog.Http.{Http, StoreEntry, StorePage, is_success}
use data_platform_operator.Authz.Model.{AuthzModel}
use data_platform_operator.Authz.Store.{stores_query, live_store, find_from, find_authz_store}

abbrev pub all_stores : List StorePage → List StoreEntry
all_stores [] = []
all_stores (page ∷ pages) = page.stores ++ all_stores pages

abbrev pub id_or_empty : Option String → String
id_or_empty none = ""
id_or_empty (some id) = id

-- The server answers the listing from `token` on with these pages, each naming the next one.
pub data Serves {W : Type 0} (http : Http W AuthzModel) (escape : String → String) (e : Endpoint)
    : W → String → List StorePage → Type 0 where
  last :
      {w w' : W} {token : String} (r : Response) (page : StorePage)
      → http.exchange "GET" e (stores_query escape token) none w ≡ (ok r, w')
      → is_success r.status ≡ true
      → http.decode_stores r.body ≡ ok page
      → (page.continuation_token == "") ≡ true
      → Serves http escape e w token (page ∷ [])
  more :
      {w w' : W} {token : String} (r : Response) (page : StorePage) {pages : List StorePage}
      → http.exchange "GET" e (stores_query escape token) none w ≡ (ok r, w')
      → is_success r.status ≡ true
      → http.decode_stores r.body ≡ ok page
      → (page.continuation_token == "") ≡ false
      → Serves http escape e w' page.continuation_token pages
      → Serves http escape e w token (page ∷ pages)

live_store-append :
    (name : String) (xs ys : List StoreEntry)
    → live_store name (xs ++ ys)
      ≡ elim (live_store name xs) [ none ↦ live_store name ys | some id ↦ some id ]
unfolding live_store
live_store-append name [] ys = refl
live_store-append name (x ∷ xs) ys = ground (arith, live_store-append name xs ys)

module _ {W : Type 0} (http : Http W AuthzModel) (escape : String → String) (e : Endpoint) where
  find_from_lem :
      (fuel : ℕ) (name : String) (w : W) (token : String) (pages : List StorePage)
      → Serves http escape e w token pages
      → length pages ≤ fuel
      → (find_from http escape fuel e name token w).0
        ≡ ok (id_or_empty (live_store name (all_stores pages)))
  unfolding find_from ◌>>=◌
  find_from_lem zero name w token pages (last r page x s d t) h = absurd (omega arith)
  find_from_lem zero name w token pages (more r page x s d t rest) h = absurd (omega arith)
  find_from_lem (suc fuel) name w token pages (last r page x s d t) h =
      ground (arith, x, s, d, t, live_store-append name page.stores [])
  find_from_lem (suc fuel) name w token pages (more {w' = v} r page {pages = ps} x s d t rest) h =
      ground (
        arith,
        x,
        s,
        d,
        t,
        live_store-append name page.stores (all_stores ps),
        find_from_lem fuel name v page.continuation_token ps rest (omega arith),
      )

  -- However many pages the server lists the stores on, with fuel for each of them the search ends
  -- without an error, with the id of the first store of that name that is not deleted, on any
  -- page, and with the empty text if there is none.
  pub find_authz_store-eq-live_store :
      (fuel : ℕ) (name : String) (w : W) (pages : List StorePage)
      → Serves http escape e w "" pages
      → length pages ≤ fuel
      → (find_authz_store http escape fuel e name w).0
        ≡ ok (id_or_empty (live_store name (all_stores pages)))
  unfolding find_authz_store
  find_authz_store-eq-live_store fuel name w pages served h =
      find_from_lem fuel name w "" pages served h

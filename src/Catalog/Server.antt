-- ===== src/Catalog/Server.antt =====
-- What the client relies on of the services that it posts to: LakeKeeper and OpenFGA keep what
-- they have accepted, and answer with a conflict or an "already" where they hold it.
use data_platform_operator.Base.{true, Option, some, String, ◌≡◌, refl, arith}
use data_platform_operator.Base.Exec.{Result, ok, err, ◌>>=◌}
use data_platform_operator.Base.Exec.Keeps.{Keeps, keeps_rules}
use data_platform_operator.Base.Json.{Json}
use data_platform_operator.Catalog.Types.{Response, Endpoint}
use data_platform_operator.Catalog.Http.{Http}
use data_platform_operator.Catalog.Client.{is_accepted, returned, post}

-- `Done w path j`: in the world `w` the effect of posting `j` to `path` is there.
pub record Server {W M : Type 0} (http : Http W M) (e : Endpoint)
    (Done : W → String → Json → Type 0) : Type 0 where
  pub accepted :
      (w : W) (path : String) (j : Json) (r : Response)
      → (http.exchange "POST" e path (some j) w).0 ≡ ok r
      → is_accepted r ≡ true
      → Done (http.exchange "POST" e path (some j) w).1 path j
  pub kept :
      (w : W) (method path : String) (payload : Option Json) (p : String) (j : Json)
      → Done w p j
      → Done (http.exchange method e path payload w).1 p j

module _ {W M : Type 0} (http : Http W M) (e : Endpoint) {Done : W → String → Json → Type 0}
    (server : Server http e Done) where
  pub Keeps-exchange :
      (method path : String) (payload : Option Json) (p : String) (j : Json)
      → Keeps (λ w. Done w p j) (http.exchange method e path payload)
  Keeps-exchange method path payload p j = record {
    at = λ w h. server.kept w method path payload p j h;
  }

  pub Keeps-returned :
      {A : Type 0} (what : String) (r : Response) (p : String) (j : Json)
      → Keeps (λ w. Done w p j) (returned {A = A} what r)
  unfolding returned
  Keeps-returned what r p j = search keeps_rules

  pub Keeps-post :
      (path : String) (payload : Json) (what p : String) (j : Json)
      → Keeps (λ w. Done w p j) (post http e path payload what)
  unfolding post
  Keeps-post path payload what p j = search (keeps_rules, Keeps-exchange, Keeps-returned)

  post_done_of :
      (path : String) (payload : Json) (what : String) (w : W) (r : Result Response)
      → (http.exchange "POST" e path (some payload) w).0 ≡ r
      → (post http e path payload what w).0 ≡ ok tt
      → Done (post http e path payload what w).1 path payload
  unfolding post ◌>>=◌ returned
  post_done_of path payload what w (ok r) x h = ground (arith, x, server.accepted w path payload r)
  post_done_of path payload what w (err m) x h = ground (arith, x)

  -- A post that returns no error has taken effect.
  pub post_done :
      (path : String) (payload : Json) (what : String) (w : W)
      → (post http e path payload what w).0 ≡ ok tt
      → Done (post http e path payload what w).1 path payload
  post_done path payload what w h =
      post_done_of path payload what w (http.exchange "POST" e path (some payload) w).0 refl h

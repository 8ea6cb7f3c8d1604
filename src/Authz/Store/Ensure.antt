-- ===== src/Authz/Store/Ensure.antt =====
-- What `EnsureAuthzStore` returns, and when it writes.
use data_platform_operator.Base.{
  ℕ, false, Option, String, ◌==◌, ◌≡◌, arith, Bool-cases, inl, inr, if◌then◌else◌,
}
use data_platform_operator.Base.Exec.{ok, pure, ◌>>=◌}
use data_platform_operator.Base.Exec.Laws.{bind_ok}
use data_platform_operator.Catalog.Types.{AuthzStoreRequest, Endpoint}
use data_platform_operator.Catalog.Http.{Http}
use data_platform_operator.Catalog.Client.{returned}
use data_platform_operator.Authz.Model.{AuthzModel, authz_model_json}
use data_platform_operator.Authz.Store.{
  created_store, create_authz_store, write_if_changed, ensure_authz_store,
}

module _ {W : Type 0} (http : Http W AuthzModel) (escape : String → String) (e : Endpoint) where
  create_authz_store_ok :
      (name : String) (w : W) {id : String}
      → (create_authz_store http escape e name w).0 ≡ ok id
      → (id == "") ≡ false
  unfolding create_authz_store created_store returned ◌>>=◌
  create_authz_store_ok name w h = ground arith

  found_or_created :
      (name found : String) (w : W) {id : String}
      → ((if found == "" then create_authz_store http escape e name else pure found) w).0 ≡ ok id
      → (id == "") ≡ false
  unfolding pure
  found_or_created name found w h = elim (Bool-cases (found == "")) [
    | inl empty ↦ create_authz_store_ok name w (rw empty at h)
    | inr set ↦ ground (arith, set, rw set at h)
  ]

  write_if_changed_ok :
      (store_id : String) (current : Option AuthzModel) (desired : AuthzModel) (w : W) {id : String}
      → (write_if_changed http escape e store_id current desired w).0 ≡ ok id
      → id ≡ store_id
  unfolding write_if_changed returned ◌>>=◌
  write_if_changed_ok store_id current desired w h = ground arith

  -- When EnsureAuthzStore returns no error, the id that it returns is not empty, whether the store
  -- was found or created.
  pub ensure_authz_store_ok :
      (fuel : ℕ) (req : AuthzStoreRequest) (w : W) {id : String}
      → (ensure_authz_store http escape fuel e req w).0 ≡ ok id
      → (id == "") ≡ false
  unfolding ensure_authz_store
  ensure_authz_store_ok fuel req w h =
      let (found, a1, q1) = bind_ok _ _ w h in
      let (store_id, a2, q2) = bind_ok _ _ _ (rw q1 at h) in
      let (current, a3, q3) = bind_ok _ _ _ (rw (q1, q2) at h) in
      rw
        (write_if_changed_ok store_id current (authz_model_json req.types) _ (rw (q1, q2, q3) at h))
        (found_or_created req.store found _ a2)

-- ===== src/Catalog/Http.antt =====
-- internal/controller/catalog.go: how a response is read. The exchange itself (`do`, with
-- `serviceBaseURL` and `portForward`) is network input and output, and `json.Unmarshal` is the
-- standard library's reflection, so both are a parameter: one decoder for each struct.
use Prim.Native.String.{len, slice}
use data_platform_operator.Base.{
  ℕ, Bool, true, Option, List, String, ◌<>◌, ◌&&◌, ◌||◌, ltb, leb, nat_eq, if◌then◌else◌,
}
use data_platform_operator.Base.Exec.{Exec, Result}
use data_platform_operator.Base.Json.{Json}
use data_platform_operator.Base.Text.{contains_folded}
use data_platform_operator.Catalog.Types.{Response, Endpoint}

-- the entries of the listings that the program decodes
pub record StoreEntry : Type 0 where
  pub id : String
  pub name : String
  pub deleted_at : String

pub record StorePage : Type 0 where
  pub stores : List StoreEntry
  pub continuation_token : String

pub record RoleEntry : Type 0 where
  pub id : String
  pub name : String

pub record WarehouseEntry : Type 0 where
  pub id : String
  pub warehouse_id : String
  pub name : String
  pub warehouse_name : String

-- `c.do` with its arguments, `json.Unmarshal` into each struct, and the `%q` of `fmt`.
pub record Http (W Model : Type 0) : Type 0 where
  pub exchange : String → Endpoint → String → Option Json → Exec W Response
  pub encode_model : Model → Json
  pub quote : String → String
  pub decode_stores : String → Result StorePage
  pub decode_roles : String → Result (List RoleEntry)
  pub decode_warehouses : String → Result (List WarehouseEntry)
  pub decode_id : String → Result String
  pub decode_models : String → Result (List Model)

unfoldable pub is_success : ℕ → Bool
is_success code = leb 200 code && ltb code 300

unfoldable pub is_already_done : ℕ → String → Bool
is_already_done code body =
    if nat_eq code 409
    then true
    else contains_folded body "already" && (nat_eq code 400 || nat_eq code 422)

-- `len` and `slice` count bytes, as Go's do. A text of the model has whole characters only, so where
-- byte 512 is inside a character, that character is left out, while Go keeps its first bytes.
unfoldable pub truncate : String → String
truncate b = if leb (len b) 512 then b else slice b 0 512 <> "..."

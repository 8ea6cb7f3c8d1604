-- ===== src/Examples/World.antt =====
-- A cluster that holds nothing and accepts every write, and conditions kept in a list.
use data_platform_operator.Base.{
  Bool, true, false, Option, none, some, List, [], ◌∷◌, String, ◌<>◌, ◌==◌, refl, if◌then◌else◌,
}
use data_platform_operator.Base.Exec.{Error, ok, err}
use data_platform_operator.Api.Platform.{DataPlatformStatus}
use data_platform_operator.Catalog.Types.{CatalogClient}
use data_platform_operator.Kube.{Store, Kube, Condition, ConditionApi, ConditionLaws}
use data_platform_operator.Reconciler.{Reconciler, State}
use data_platform_operator.Examples.Platform.{platform}

-- the status that was written last
abbrev pub World : Type 0
World = Option (DataPlatformStatus (List Condition))

abbrev pub absent : Error
absent = record { message = "not found"; not_found = true }

abbrev pub empty_store : {Obj : Type 0} → Store World Obj
empty_store = record {
  get = λ namespace name w. (err absent, w);
  create = λ obj w. (ok tt, w);
  update = λ obj w. (ok tt, w);
  delete = λ namespace name w. (ok tt, w);
  create_or_update = λ namespace name mutate w. (ok tt, w);
  owned_by = λ name obj. ok obj;
}

abbrev pub cluster : Kube World
cluster = record {
  namespaces = empty_store;
  secrets = empty_store;
  config_maps = empty_store;
  services = empty_store;
  deployments = empty_store;
  stateful_sets = empty_store;
  jobs = empty_store;
  random = λ n w. (ok [], w);
  sha256_prefix = λ parts. "0123456789abcdef";
  parse_quantity = λ q. ok q;
  query_escape = λ s. s;
  path_escape = λ s. s;
}

abbrev is_true : List Condition → String → Bool
is_true [] t = false
is_true (c ∷ cs) t = if c.type == t then c.status else is_true cs t

abbrev pub condition_list : ConditionApi (List Condition)
condition_list = record { set_status = λ cs c. c ∷ cs; is_status_true = is_true }

abbrev pub condition_laws : ConditionLaws condition_list
condition_laws = record { set_lem = λ cs c t. refl }

abbrev pub blank_status : DataPlatformStatus (List Condition)
blank_status = record {
  conditions = [];
  minio_endpoint = "";
  lakekeeper_endpoint = "";
  trino_endpoint = "";
  superset_endpoint = "";
  keycloak_endpoint = "";
  openfga_endpoint = "";
  row_filter_store_id = "";
}

-- every request is answered with an empty body
abbrev pub quiet_catalog : CatalogClient World
quiet_catalog = record {
  bootstrap = λ e w. (ok tt, w);
  ensure_grants = λ e ps w. (ok tt, w);
  ensure_warehouse = λ e req w. (ok tt, w);
  ensure_access_roles = λ e warehouse roles w. (ok tt, w);
  ensure_authz_store = λ e req w. (ok "store", w);
  ensure_authz_tuples = λ e store ts w. (ok tt, w);
  json = λ method e path payload w. (ok (record { status = 200; body = "" }), w);
  form_post = λ e path form w. (ok (record { status = 200; body = "" }), w);
  fetch_token = λ url form w. (ok (record { status = 200; body = "" }), w);
}

abbrev pub operator : Reconciler World (List Condition)
operator = record {
  kube = cluster;
  condition_api = condition_list;
  catalog = some quiet_catalog;
  get_platform = λ name w. (ok (platform, blank_status), w);
  update_status = λ name st w. (ok tt, some st);
  decode_access_token = λ body. ok "token";
  decode_groups = λ body. ok [];
  decode_members = λ body. ok [];
  marshal = λ j. "";
  opa_policies = ok (("embed/opapolicies/main.rego", "package trino") ∷ []);
  new_signing_key = λ realm w. (ok ("key", "certificate"), w);
  quote = λ s. "\"" <> s <> "\"";
  uuid_of_url = λ s. s;
}

abbrev pub fresh : State World (List Condition)
fresh = record { status = blank_status; world = none }

-- ===== src/Examples/Platform.antt =====
-- The platform that a specification without any field asks for.
use data_platform_operator.Base.{pos, none, some, [], ◌∷◌, false}
use data_platform_operator.Api.Defaults.{ResourceRequirements}
use data_platform_operator.Api.Database.{PostgresSpec}
use data_platform_operator.Api.Platform.{DataPlatform}

abbrev pub no_resources : ResourceRequirements
no_resources = record { limits = []; requests = [] }

abbrev pub postgres : PostgresSpec
postgres = record {
  embedded = none;
  image = "";
  storage_size = "";
  host = "";
  port = pos 0;
  database = "";
  ssl_mode = "";
  credentials_secret_ref = none;
}

abbrev pub platform : DataPlatform
platform = record {
  name = "demo";
  generation = 1;
  spec = record {
    storage = record {
      embedded = none;
      minio = record {
        namespace = "";
        image = "";
        mc_image = "";
        storage_size = "";
        bucket = "";
        resources = no_resources;
      };
      s3 = none;
    };
    auth = record {
      enabled = none;
      embedded = none;
      keycloak = record {
        namespace = "";
        image = "";
        realm = "";
        public_url = "";
        resources = no_resources;
      };
      oidc = none;
    };
    authz = record {
      enabled = none;
      embedded = none;
      openfga = record {
        namespace = "";
        image = "";
        opa_image = "";
        store = "";
        row_filter_store = "";
        postgres = postgres;
        resources = no_resources;
      };
      row_filters =
          (record {
            catalog = "";
            schema = "sales";
            table = "orders";
            column = "region";
            openfga = record { type = "region"; relation = "" };
            numeric = none;
          })
          ∷ [];
      column_access =
          (record {
            catalog = "";
            schema = "sales";
            table = "orders";
            column = "ssn";
            mask = "";
            openfga = record { type = "column"; relation = "reader"; object = "" };
          })
          ∷ [];
    };
    lakekeeper = record {
      enabled = none;
      namespace = "";
      image = "";
      replicas = none;
      resources = no_resources;
      extra_env = [];
      public_url = "";
      postgres = postgres;
      warehouse = record { name = ""; key_prefix = "" };
    };
    trino = record {
      enabled = none;
      namespace = "";
      image = "";
      workers = none;
      coordinator = record { resources = no_resources };
      extra_config = [];
      extra_catalogs = [];
      extra_env = [];
      public_url = "";
      resources = no_resources;
      service = record { type = "" };
    };
    sample_data = record { enabled = none; schema = ""; image = "" };
    superset = record {
      enabled = some false;
      namespace = "";
      image = "";
      public_url = "";
      postgres = postgres;
      redis = record { image = ""; resources = no_resources };
      resources = no_resources;
      extra_env = [];
      service = record { type = "" };
    };
  };
}

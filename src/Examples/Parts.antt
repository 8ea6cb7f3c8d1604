-- ===== src/Examples/Parts.antt =====
-- The theorems on the components, at that cluster.
use data_platform_operator.Base.{true, false, some, List, [], ◌∷◌, ◌≡◌, refl, arith}
use data_platform_operator.Base.Exec.{ok, pure}
use data_platform_operator.Base.Exec.Keeps.{Keeps-pure}
use data_platform_operator.Api.Platform.{DataPlatform}
use data_platform_operator.Kube.{Condition}
use data_platform_operator.Kube.Objects.{Secret}
use data_platform_operator.Reconciler.{Reconciler}
use data_platform_operator.Cluster.{new_meta}
use data_platform_operator.Config.{ObjectStore, no_oidc}
use data_platform_operator.Oidc.{reconcile_auth}
use data_platform_operator.Oidc.Auth.{reconcile_auth_frame}
use data_platform_operator.Minio.{reconcile_object_store}
use data_platform_operator.Minio.Ready.{reconcile_object_store_frame, reconcile_object_store_ready}
use data_platform_operator.Examples.Platform.{platform}
use data_platform_operator.Examples.World.{World, cluster, operator, condition_laws, fresh}

reconcile_object_store_frame_example :
    operator.condition_api.is_status_true
      (reconcile_object_store operator platform fresh).1.status.conditions
      "TrinoReady"
    ≡ false
reconcile_object_store_frame_example =
    reconcile_object_store_frame operator platform condition_laws "TrinoReady" false fresh refl refl

-- the platform with an external identity provider, which it does not name
abbrev outside : DataPlatform
outside = record platform {
  spec = record platform.spec { auth = record platform.spec.auth { embedded = some false } };
}

reconcile_auth_frame_example :
    operator.condition_api.is_status_true
      (reconcile_auth operator outside (pure (no_oidc, false)) fresh).1.status.conditions
      "TrinoReady"
    ≡ false
reconcile_auth_frame_example =
    reconcile_auth_frame operator condition_laws outside (pure (no_oidc, false)) "TrinoReady" false
      fresh (λ t b other. Keeps-pure _) refl refl

-- the platform with an external object store, with its keys in a Secret that there is
abbrev pub external : DataPlatform
external = record platform {
  spec = record platform.spec {
    storage = record platform.spec.storage {
      embedded = some false;
      s3 = some (record {
        bucket = "lake";
        region = "eu-west-1";
        endpoint = "";
        path_style_access = false;
        flavor = "";
        sts_enabled = false;
        sts_role_arn = "";
        credentials_secret_ref = some (record {
          name = "keys";
          namespace = "lake";
          access_key_id_key = "";
          secret_access_key_key = "";
        });
      });
    };
  };
}

abbrev keys : Secret
keys = record {
  meta = new_meta "keys" "lake" [];
  type = "Opaque";
  contents = ("AWS_ACCESS_KEY_ID", "id") ∷ ("AWS_SECRET_ACCESS_KEY", "secret") ∷ [];
}

abbrev pub operator_with_keys : Reconciler World (List Condition)
operator_with_keys = record operator {
  kube = record cluster {
    secrets = record cluster.secrets { get = λ namespace name w. (ok keys, w) };
  };
}

abbrev lake : ObjectStore
lake = record {
  bucket = "lake";
  region = "eu-west-1";
  endpoint = "";
  path_style_access = false;
  flavor = "aws";
  sts_enabled = false;
  sts_role_arn = "";
  access_key_id = "id";
  secret_access_key = "secret";
}

reconcile_object_store_ready_example :
    operator_with_keys.condition_api.is_status_true
      (reconcile_object_store operator_with_keys external fresh).1.status.conditions
      "MinioReady"
    ≡ true
unfolding reconcile_object_store data_platform_operator.Api.Storage.storage_is_embedded
    data_platform_operator.Base.Exec.◌>>=◌ data_platform_operator.Minio.external_object_store
    data_platform_operator.Minio.external_with data_platform_operator.Minio.external_from
    data_platform_operator.Cluster.marking data_platform_operator.Cluster.get_secret_data
    data_platform_operator.Reconciler.in_world data_platform_operator.Cluster.secret_value
    data_platform_operator.Base.lookup
    data_platform_operator.Api.Storage.s3_credentials_secret_access_key_id_key_or_default
    data_platform_operator.Api.Storage.s3_credentials_secret_secret_access_key_key_or_default
    data_platform_operator.Cluster.set_condition data_platform_operator.Reconciler.set_status
    data_platform_operator.Api.Storage.s3_flavor_or_default
reconcile_object_store_ready_example =
    reconcile_object_store_ready operator_with_keys external condition_laws fresh lake refl

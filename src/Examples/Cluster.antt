-- ===== src/Examples/Cluster.antt =====
-- A cluster in which every object that is read is there and ready.
use data_platform_operator.Base.{List, [], ◌∷◌, none}
use data_platform_operator.Base.Exec.{ok}
use data_platform_operator.Kube.{Condition}
use data_platform_operator.Kube.Objects.{PodTemplate, Secret, Deployment, StatefulSet}
use data_platform_operator.Cluster.{new_meta}
use data_platform_operator.Reconciler.{Reconciler}
use data_platform_operator.Examples.World.{World, cluster, operator}

abbrev pub secret : Secret
secret = record {
  meta = new_meta "secret" "lake" [];
  type = "Opaque";
  contents =
      ("AWS_ACCESS_KEY_ID", "id")
      ∷ ("AWS_SECRET_ACCESS_KEY", "key")
      ∷ ("username", "u")
      ∷ ("password", "p")
      ∷ ("apiKey", "api")
      ∷ ("privateKey", "private")
      ∷ ("certificate", "certificate")
      ∷ ("clientID", "lakekeeper")
      ∷ ("operatorClientID", "operator")
      ∷ ("operatorClientSecret", "o")
      ∷ ("trinoClientID", "trino")
      ∷ ("trinoClientSecret", "t")
      ∷ ("opaClientID", "opa")
      ∷ ("opaClientSecret", "b")
      ∷ ("supersetClientID", "superset")
      ∷ ("supersetClientSecret", "s")
      ∷ [];
}

abbrev template : PodTemplate
template = record {
  labels = [];
  annotations = [];
  spec = record {
    restart_policy = "";
    security_context = none;
    init_containers = [];
    containers = [];
    volumes = [];
  };
}

abbrev deployment : Deployment
deployment = record {
  meta = new_meta "deployment" "lake" [];
  selector = [];
  replicas = none;
  template = template;
  ready_replicas = 1;
}

abbrev stateful_set : StatefulSet
stateful_set = record {
  meta = new_meta "set" "lake" [];
  selector = [];
  service_name = "";
  storage = none;
  replicas = none;
  template = template;
  ready_replicas = 1;
}

abbrev pub ready_operator : Reconciler World (List Condition)
ready_operator = record operator {
  kube = record cluster {
    secrets = record cluster.secrets { get = λ namespace name w. (ok secret, w) };
    deployments = record cluster.deployments { get = λ namespace name w. (ok deployment, w) };
    stateful_sets = record cluster.stateful_sets { get = λ namespace name w. (ok stateful_set, w) };
  };
}

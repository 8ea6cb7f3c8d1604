-- ===== src/Lib.antt =====
-- A verification library for the data platform operator (Go): the operator reconciles a
-- DataPlatform object into LakeKeeper, Trino, Superset and what they need in a Kubernetes cluster.
-- Paths are given from the repository's root.
--
-- The parts and their files:
--   Api          api/v1alpha1/dataplatform_types.go and defaults.go: the specification of a platform
--                as records, and the default of every field. Kubernetes' own types are reduced to the
--                fields that the program reads or writes.
--   Kube         what the program uses of the Kubernetes libraries, as a record of operations on an
--                arbitrary world `W`, an argument of everything that uses it. The conditions of a
--                status are an arbitrary type `C`, with the documented behaviour of
--                meta.SetStatusCondition and meta.IsStatusConditionTrue as `ConditionLaws`.
--   Catalog      internal/controller/catalog.go: the requests to LakeKeeper. The exchange of one
--                request and the decoding of a body are the parameter `Http`; what is relied on of
--                the service is the record `Server`.
--   Authz        internal/controller/authzstore.go, and accessAuthzTypes of openfga.go: the stores,
--                authorization models and tuples of OpenFGA.
--   Postgres     internal/controller/postgres.go: the catalog's database, external or embedded.
--   Openfga      internal/controller/openfga.go: OpenFGA, and the store of the access policies.
--   Lakekeeper   internal/controller/lakekeeper.go: the catalog's Deployment and environment.
--   Opa          internal/controller/opa.go: the policy agent that Trino asks.
--   Keycloak     internal/controller/keycloak.go: the embedded identity provider and its realm.
--   Superset     internal/controller/superset.go: Superset, its database, cache and Python files.
--   Reconciler   the fields of DataPlatformReconciler, and the state of a reconciliation: the status
--                of the object at hand and the world outside. A method is a function of that state
--                that returns a value or an error, and the state it leaves, since what was written
--                before an error stays written (`Exec` of Base/Exec).
--   Config       the values that one component hands to the next.
--   Cluster      internal/controller/apply.go and namespace.go, statefulSetReady, deploymentReady.
--                `marking` is the pattern that an error sets a condition and is returned;
--                Workloads has what the components' workloads have in common, and `rollout`, the
--                course of a component whose condition tells of one workload; Observed has what a
--                readiness check has seen of a workload, and Environment what a container finds in
--                its variables.
--   Controller   internal/controller/dataplatform_controller.go and reconcileSupersetStack. The
--                components are an interface, `Components`; `ComponentLaws` says what each owes: it
--                touches its own condition only, and is ready only where that condition is true.
--   Oidc         internal/controller/oidc.go. The embedded provider is an argument of reconcile_auth.
--   Access       internal/controller/access.go: Keycloak's groups as roles and tuples.
--   Warehouse    internal/controller/warehouse.go.
--   Minio        internal/controller/minio.go: the object store.
--   Trino        internal/controller/trino.go: the properties and how they are rendered, the
--                catalogs, the coordinator and the workers.
--   SampleData   internal/controller/sampledata.go: the Job that seeds the sample tables.
--   Assembly     the controller with all of its components.
--   Base         what Go gives the program: texts, maps as association lists, sorting, errors, and
--                the rules by which properties of methods are composed (Keeps, Ends, Ran).
--   Examples     the concrete cluster and services that the theorems are applied to.
--
-- How the parts interact: the controller runs its components in the order of the source on one
-- state, hands the values of Config on, and reads their conditions. Postgres, Oidc with Keycloak,
-- Openfga, Lakekeeper, Minio, Warehouse, Opa, Trino, Superset and SampleData implement the fields of
-- its interface, with the laws that it asks for, and Assembly puts them together. Openfga, Warehouse
-- and Access call the catalog client, which is an interface to them; the requests of its
-- implementation are Catalog's and Authz's.
--
-- Numbers are natural numbers where the source's are ports, codes and sizes that are not negative,
-- and integers where a specification may hold a negative one; none of them is computed with beyond
-- its range. A text has whole characters only, so where Go cuts an error's text at
-- a byte inside a character, the model leaves that character out. Maps are association lists whose
-- last assignment wins. The printing of a number in
-- decimal has fuel one above the number, and each digit uses one unit. Of the program's own loops
-- only the search for an OpenFGA store has no structural bound: it has one unit of fuel for each page
-- of the listing, and each page that the server lists uses one; without fuel the search ends in an
-- error of its own.
--
-- Parameters stand for the libraries that the program calls: json.Marshal, the verb %q, url.Parse and
-- the escapes of net/url, random bytes and hashes, and what the build embeds as policies.
--
-- Not modelled: network input and output (do, portForward, readyPodForService), logging, time and
-- cancellation, the registration of watches, the process's entry point (cmd/main.go), generated code,
-- the embedded Rego policies (internal/controller/embed), and generateRealmSigningKey, which only
-- calls cryptography of the standard library and is the parameter new_signing_key.
pub mod Base
pub mod Api
pub mod Kube
pub mod Catalog
pub mod Reconciler
pub mod Config
pub mod Authz
pub mod Cluster
pub mod Controller
pub mod Oidc
pub mod Access
pub mod Warehouse
pub mod Minio
pub mod Postgres
pub mod Openfga
pub mod Lakekeeper
pub mod Keycloak
pub mod Opa
pub mod Trino
pub mod Superset
pub mod SampleData
pub mod Assembly
pub mod Examples

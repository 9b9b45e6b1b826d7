-- ===== src/Operator.antt =====
-- The operator: the reconciler of cmd/operator/internal/controller/kubearchiveconfig_controller.go.
pub mod Cluster
pub mod Reconcile
mod Tests
use kubearchive.Prelude.{List, Option, Result, [], err, none, ok, some, ◌>>=◌, ◌∷◌}
use kubearchive.Text.{Text, lit}

pub record Meta : Type 0 where
  pub name : Text
  pub namespace : Text
  pub owners : List Text

pub record PolicyRule : Type 0 where
  pub api_groups : List Text
  pub resources : List Text
  pub verbs : List Text

pub record RoleRef : Type 0 where
  pub api_group : Text
  pub kind : Text
  pub name : Text

pub record Subject : Type 0 where
  pub kind : Text
  pub name : Text
  pub namespace : Text

-- A kind of resource with its version: the selector of a source, and with a name its sink.
pub record Selector : Type 0 where
  pub api_version : Text
  pub kind : Text

pub record SinkRef : Type 0 where
  pub api_version : Text
  pub kind : Text
  pub name : Text
  pub namespace : Text

pub record SourceSpec : Type 0 where
  pub event_mode : Text
  pub service_account_name : Text
  pub resources : List Selector
  pub sink : SinkRef

-- The objects that the reconciler writes.
pub data Object : Type 0 where
  service_account : Meta → Object
  role : Meta → List PolicyRule → Object
  role_binding : Meta → RoleRef → List Subject → Object
  api_server_source : Meta → SourceSpec → Object

pub data Kind : Type 0 where
  service_account_kind role_kind role_binding_kind api_server_source_kind : Kind

unfoldable pub kind_of : Object → Kind
kind_of (service_account m) = service_account_kind
kind_of (role m rules) = role_kind
kind_of (role_binding m ref subjects) = role_binding_kind
kind_of (api_server_source m spec) = api_server_source_kind

unfoldable pub meta_of : Object → Meta
meta_of (service_account m) = m
meta_of (role m rules) = m
meta_of (role_binding m ref subjects) = m
meta_of (api_server_source m spec) = m

-- The part of a KubeArchiveConfig that the reconciler reads.
pub record KubeArchiveConfig : Type 0 where
  pub name : Text
  pub namespace : Text

pub data ClientError : Type 0 where
  not_found : ClientError
  failed : Text → ClientError

-- The client of the cluster, whose state is a `World`, and `ctrl.SetControllerReference`. `get`
-- says what error it returns, if any, and `update` and `create` do so too.
pub record Client : Type 1 where
  pub World : Type 0
  pub get_config : Text → Text → World → Result ClientError KubeArchiveConfig
  pub get : Kind → Text → Text → World → Option ClientError
  pub update : Object → World → Option ClientError × World
  pub create : Object → World → Option ClientError × World
  pub set_controller_reference : KubeArchiveConfig → Meta → Result ClientError Meta

unfoldable pub object_meta : KubeArchiveConfig → Meta
object_meta kaconfig = record { name = kaconfig.name; namespace = kaconfig.namespace; owners = [] }

unfoldable pub source_spec : KubeArchiveConfig → SourceSpec
source_spec kaconfig = record {
  event_mode = lit "Resource";
  service_account_name = kaconfig.name;
  resources = record { api_version = lit "v1"; kind = lit "Event" } ∷ [];
  sink = record {
    api_version = lit "v1";
    kind = lit "Service";
    name = lit "kubearchive-sink";
    namespace = lit "kubearchive";
  };
}

module _ (client : Client) where
  open client use {World, get_config, get, update, create, set_controller_reference}

  unfoldable pub desired_service_account : KubeArchiveConfig → Result ClientError Object
  unfolding object_meta
  desired_service_account kaconfig = do
    m ← set_controller_reference kaconfig (object_meta kaconfig)
    ok (service_account m)

  unfoldable pub desired_role : KubeArchiveConfig → Result ClientError Object
  unfolding object_meta
  desired_role kaconfig = do
    m ← set_controller_reference kaconfig (object_meta kaconfig)
    ok (
        role m (
          record {
            api_groups = [] ∷ [];
            resources = lit "events" ∷ [];
            verbs = lit "get" ∷ lit "list" ∷ lit "watch" ∷ [];
          }
          ∷ []))

  unfoldable pub desired_role_binding : KubeArchiveConfig → Result ClientError Object
  unfolding object_meta
  desired_role_binding kaconfig = do
    m ← set_controller_reference kaconfig (object_meta kaconfig)
    ok (
        role_binding m
          (record {
            api_group = lit "rbac.authorization.k8s.io";
            kind = lit "Role";
            name = kaconfig.name;
          })
          (record {
            kind = lit "ServiceAccount";
            name = kaconfig.name;
            namespace = kaconfig.namespace;
          }
            ∷ []))

  -- No controller reference is set here.
  unfoldable pub desired_api_server_source : KubeArchiveConfig → Result ClientError Object
  unfolding object_meta source_spec
  desired_api_server_source kaconfig =
      ok (api_server_source (object_meta kaconfig) (source_spec kaconfig))

  -- What is returned besides the object, which no caller uses: the error, if there is one.
  abbrev pub Outcome : Type 0
  Outcome = Option ClientError × World

  -- Update what is there, create what is not, and return any other error of `Get`.
  unfoldable pub put : Option ClientError → Object → World → Outcome
  put none object w = update object w
  put (some not_found) object w = create object w
  put (some (failed why)) object w = (some (failed why), w)

  -- The body that the four functions share, with their kind and the object that they want.
  unfoldable pub reconcile_object :
      Kind → Result ClientError Object → KubeArchiveConfig → World → Outcome
  unfolding put
  reconcile_object kind (err e) kaconfig w = (some e, w)
  reconcile_object kind (ok object) kaconfig w =
      put (get kind kaconfig.name kaconfig.namespace w) object w

  unfoldable pub reconcile_service_account : KubeArchiveConfig → World → Outcome
  unfolding reconcile_object desired_service_account
  reconcile_service_account kaconfig =
      reconcile_object service_account_kind (desired_service_account kaconfig) kaconfig

  unfoldable pub reconcile_role : KubeArchiveConfig → World → Outcome
  unfolding reconcile_object desired_role
  reconcile_role kaconfig = reconcile_object role_kind (desired_role kaconfig) kaconfig

  unfoldable pub reconcile_role_binding : KubeArchiveConfig → World → Outcome
  unfolding reconcile_object desired_role_binding
  reconcile_role_binding kaconfig =
      reconcile_object role_binding_kind (desired_role_binding kaconfig) kaconfig

  unfoldable pub reconcile_api_server_source : KubeArchiveConfig → World → Outcome
  unfolding reconcile_object desired_api_server_source
  reconcile_api_server_source kaconfig =
      reconcile_object api_server_source_kind (desired_api_server_source kaconfig) kaconfig

  -- The four calls of `Reconcile`, whose results it drops.
  unfoldable pub reconcile_all : KubeArchiveConfig → World → World
  unfolding reconcile_service_account reconcile_role reconcile_role_binding
      reconcile_api_server_source
  reconcile_all kaconfig w =
      let w1 = (reconcile_service_account kaconfig w).1 in
      let w2 = (reconcile_role kaconfig w1).1 in
      let w3 = (reconcile_role_binding kaconfig w2).1 in (reconcile_api_server_source kaconfig w3).1

  unfoldable pub reconcile_found : Result ClientError KubeArchiveConfig → World → Outcome
  unfolding reconcile_all
  reconcile_found (err not_found) w = (none, w)
  reconcile_found (err (failed why)) w = (some (failed why), w)
  reconcile_found (ok kaconfig) w = (none, reconcile_all kaconfig w)

  unfoldable pub reconcile : Text → Text → World → Outcome
  unfolding reconcile_found
  reconcile name namespace w = reconcile_found (get_config name namespace w) w

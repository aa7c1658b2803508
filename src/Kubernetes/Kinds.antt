-- ===== src/Kubernetes/Kinds.antt =====
-- The kinds of objects that generate one another, of pkg/engine/runtime/kubernetes/kubernetes_runtime.go,
-- and the ids of pkg/engine/util.go.
pub mod Chain
use kusion.Base.{
  ℕ, zero, suc, String, Bool, true, false, Option, none, some, List, [], ◌∷◌, ◌++◌, ◌==◌, ◌&&◌,
  ◌||◌, if◌then◌else◌, not,
}
use kusion.Base.Text.{◌<>◌}
use kusion.Status.{Status, new_error_status}
use kusion.Control.{Outcome, ok, panicked, nil_dereference}
use kusion.Value.{Value, str, list, object, Items, nil, cons, Fields, get_field}
use kusion.Models.{Resource}
use kusion.Cluster.{
  Cluster, Call, Reply, answered, rejected, continue_with, ClientError, other, error_text, Gvk,
  RestMapping, Target,
}
use kusion.Kubernetes.Reading.{build_resource}

-- engine.BuildID
unfoldable pub build_id : String → String → String → String → String
build_id api_version kind namespace name =
    let key = api_version <> ":" <> kind <> ":" in
    if namespace == "" then key <> name else key <> namespace <> ":" <> name

abbrev pub no_gvk : Gvk
no_gvk = record { group = ""; version = ""; kind = "" }

-- `gvk.Empty()`
unfoldable pub is_empty : Gvk → Bool
is_empty g = (g.group == "") && (g.version == "") && (g.kind == "")

-- the groups and versions of the API packages that the source imports
abbrev core_v1 : String → Gvk
core_v1 kind = record { group = ""; version = "v1"; kind = kind }

abbrev apps_v1 : String → Gvk
apps_v1 kind = record { group = "apps"; version = "v1"; kind = kind }

abbrev pub slices : Gvk
slices = record { group = "discovery.k8s.io"; version = "v1"; kind = "EndpointSlice" }

-- what objects of a kind generate
unfoldable pub get_dependent_gvk : String → Gvk
get_dependent_gvk kind =
    if kind == "Deployment"
    then apps_v1 "ReplicaSet"
    else if (kind == "DaemonSet") || (kind == "StatefulSet")
    then apps_v1 "ControllerRevision"
    else if kind == "CronJob"
    then record { group = "batch"; version = "v1"; kind = "Job" }
    else if (kind == "ReplicaSet")
        || (kind == "Job")
        || (kind == "ReplicationController")
        || (kind == "ControllerRevision")
    then core_v1 "Pod"
    else if kind == "Service"
    then slices
    else no_gvk

unfoldable pub get_named_gvk : String → Gvk
get_named_gvk kind = if kind == "Service" then core_v1 "Endpoints" else no_gvk

-- An interface value equals a text only if it holds that text.
is_text : String → Option Value → Bool
is_text s (some (str t)) = t == s
is_text s v = false

module _ {W : Type 0} (c : Cluster W) where
  refers_to : Fields → Fields → Bool
  unfolding is_text
  refers_to owner ref =
      is_text (c.api_version owner) (get_field "apiVersion" ref)
      && is_text (c.kind owner) (get_field "kind" ref)
      && is_text (c.name owner) (get_field "name" ref)

  any_owner : Fields → Items → Bool
  unfolding refers_to
  any_owner owner nil = false
  any_owner owner (cons (object ref) refs) = refers_to owner ref || any_owner owner refs
  any_owner owner (cons ref refs) = any_owner owner refs

  -- `NestedSlice` of metadata.ownerReferences
  owner_references : Option Value → Option Items
  owner_references (some (object metadata)) = elim (get_field "ownerReferences" metadata) [
    | some v ↦ elim v [ list refs ↦ some refs | _ ↦ none ]
    | none ↦ none
  ]
  owner_references v = none

  unfoldable pub owned_by : Fields → Fields → Bool
  unfolding owner_references any_owner
  owned_by dependent owner = elim (owner_references (get_field "metadata" dependent)) [
    | none ↦ false
    | some refs ↦ any_owner owner refs
  ]

  -- Service and Endpoints have the same name and namespace.
  unfoldable pub named_by : Fields → Fields → Bool
  named_by ep svc = (c.namespace svc == c.namespace ep) && (c.name svc == c.name ep)

  unfoldable pub build_id_for_kubernetes : Fields → String
  unfolding build_id
  build_id_for_kubernetes o = build_id (c.api_version o) (c.kind o) (c.namespace o) (c.name o)

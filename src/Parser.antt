-- ===== src/Parser.antt =====
-- pkg/engine/operation/parser: the graph of a spec's resources and that of the resources to delete.
pub mod Dedup
pub mod Link
pub mod Linked
pub mod Rounds
pub mod Completed
pub mod Parsed
pub mod Ordered
pub mod Removal
pub mod Removed
use kusion.Base.{
  String, Bool, true, false, not, ◌&&◌, ◌||◌, Option, none, some, List, [], ◌∷◌, ◌++◌, ◌==◌, ◌≡◌,
  if◌then◌else◌, is_nil, contains,
}
use kusion.Base.Text.{◌<>◌}
use kusion.Base.GoMap.{GoMap, get, set, keys}
use kusion.Status.{
  Status, warning, not_found, internal, invalid_argument, illegal_manifest, new_base_status,
  new_error_status_with_msg,
}
use kusion.Control.{
  Outcome, ok, failed, panicked, Result, value, error, ◌>>=◌, ◌>>◌, check_not_error,
}
use kusion.Value.{Value, null, Fields}
use kusion.Models.{Resource, Spec, index}
use kusion.Change.{ActionType, update, delete, is_action}
use kusion.Refs.{replace_fields}
use kusion.Graph.{
  Vertex, root_node, resource_node, hashcode, vertex_name, new_base_node, new_resource_node, Dag,
}

-- the loop of `Deduplicate`, with the keys that it has seen
unfoldable pub deduplicate_from : List String → List String → List String
deduplicate_from seen [] = []
deduplicate_from seen (k ∷ ks) =
    let old = deduplicate_from seen ks in
    let new = k ∷ deduplicate_from (k ∷ seen) ks in if contains k seen then old else new

unfoldable pub deduplicate : List String → List String
unfolding deduplicate_from
deduplicate ks = deduplicate_from [] ks

-- The keys of the implicit references; what replaces a reference is thrown away.
unfoldable pub implicit_ref_keys : Option Fields → Outcome (List String)
implicit_ref_keys none = ok []
implicit_ref_keys (some fs) = do
  (refs, replaced) ← replace_fields (some (λ _. ok null)) none fs
  ok refs

-- the resource with all of its dependencies
unfoldable pub update_dependencies : Resource → Outcome Resource
unfolding deduplicate implicit_ref_keys
update_dependencies r = do
  implicit ← implicit_ref_keys r.attributes
  ok (record r { depends_on = deduplicate (r.depends_on ++ implicit) })

-- `GetVertex`, by name
unfoldable pub get_vertex : String → List Vertex → Option Vertex
get_vertex name [] = none
get_vertex name (v ∷ vs) = if vertex_name v == name then some v else get_vertex name vs

-- `GetVertex(...).(*graph.ResourceNode)`
as_resource_node : Option Vertex → Outcome Vertex
as_resource_node none = panicked "interface conversion"
as_resource_node (some root_node) = panicked "interface conversion"
as_resource_node (some (resource_node id a)) = ok (resource_node id a)

-- `util.CheckNotError` on the error of `Root`
pub checked_root : Result Vertex → Outcome Vertex
checked_root (value v) = ok v
checked_root (error e) = panicked ("error:" <> e <> ", msg: get dag root error")

module _ {G : Type 0} (dag : Dag G) where
  unfoldable pub latest_vertex : String → G → Outcome Vertex
  unfolding get_vertex as_resource_node
  latest_vertex name g = as_resource_node (get_vertex name (dag.vertices g))

  -- The parent node as it stands in the graph, added if it is not there.
  parent_in : String → Vertex → G → Outcome (Vertex × G)
  unfolding latest_vertex
  parent_in key parent g =
      if dag.has_vertex parent g
      then (do v ← latest_vertex key g; ok (v, g))
      else ok (parent, dag.add parent g)

  -- One round of `LinkRefNodes` behind its checks. A deletion is linked against its dependency
  -- unless the manifest has the parent.
  link_delete : Vertex → Bool → String → Vertex → G → Outcome G
  unfolding parent_in
  link_delete rn true key parent g = do v ← latest_vertex key g; ok (dag.connect v rn g)
  link_delete rn false key parent g = do (v, g') ← parent_in key parent g; ok (dag.connect rn v g')

  link_update : Vertex → String → Vertex → G → Outcome G
  unfolding parent_in
  link_update rn key parent g = do (v, g') ← parent_in key parent g; ok (dag.connect v rn g')

  module _ (resource_index : GoMap Resource) (rn : Vertex) (default_action : ActionType)
      (manifest : List String) where
    link_one : String → G → Outcome G
    unfolding link_delete link_update new_base_node new_resource_node
    link_one key g =
        if is_nil (get key resource_index)
        then failed (
            new_error_status_with_msg illegal_manifest
              ("can't find resource by key:" <> key <> " in models or state."))
        else do
          parent ← new_resource_node key default_action
          base ← new_base_node key
          if is_action default_action delete
              then link_delete rn (contains key manifest) key parent g
              else link_update rn key parent g

    unfoldable pub link_ref_nodes : List String → G → Outcome G
    unfolding link_one
    link_ref_nodes [] g = ok g
    link_ref_nodes (key ∷ ks) g = do g' ← link_one key g; link_ref_nodes ks g'

  abbrev pub Parsed : Type 0
  Parsed = G × GoMap Resource

  -- The node of a resource: added under the root at first, looked up after that.
  spec_node : Vertex → String → G → Outcome (Vertex × G)
  unfolding latest_vertex new_resource_node
  spec_node root key g = do
    rn ← new_resource_node key update
    if dag.has_vertex rn g
        then (do v ← latest_vertex key g; ok (v, dag.connect root v g))
        else ok (rn, dag.connect root rn (dag.add rn g))

  -- One round of `SpecParser.Parse`. The dependencies are written through the pointer in the index.
  pub spec_round : Vertex → String → Resource → Parsed → Outcome Parsed
  unfolding spec_node update_dependencies link_ref_nodes
  spec_round root key r (g, idx) = do
    (rn, g1) ← spec_node root key g
    r' ← update_dependencies r
    g2 ← link_ref_nodes (set key r' idx) rn update [] r'.depends_on g1
    ok (g2, set key r' idx)

  abbrev pub Round : Type 0
  Round = String → Resource → Parsed → Outcome Parsed

  -- a key that is not in the index makes no round
  round_at : Round → String → Option Resource → Parsed → Outcome Parsed
  round_at round key none p = ok p
  round_at round key (some r) p = round key r p

  -- `for key, resource := range resourceIndex`, in the order of `ks`
  unfoldable pub each_resource : Round → List String → Parsed → Outcome Parsed
  unfolding round_at
  each_resource round [] p = ok p
  each_resource round (key ∷ ks) p = round_at round key (get key p.1) p >>= each_resource round ks

  pub reduced : String → Option String → Parsed → Outcome Parsed
  reduced msg (some e) p = failed (new_error_status_with_msg illegal_manifest (msg <> e))
  reduced msg none (g, idx) = ok (dag.transitive_reduction g, idx)

  unfoldable pub parse_resources : (List String → List String) → List Resource → G → Outcome Parsed
  unfolding spec_round each_resource keys checked_root reduced
  parse_resources visit rs g = do
    root ← checked_root (dag.root g)
    p ← each_resource (spec_round root) (visit (keys (index rs))) (g, index rs)
    reduced "Found circle dependency in models:" (dag.validate p.0) p

  -- `SpecParser.Parse`; a spec without resources is a warning, which is no
  -- error; its text goes on with the spec in JSON
  unfoldable pub parse_spec :
      (List String → List String) → Spec → G → Outcome (Parsed × Option Status)
  unfolding parse_resources
  parse_spec visit sp g = elim sp.resources [
    | none ↦ ok ((g, []), some (new_base_status warning not_found "no resources in models"))
    | some rs ↦ do p ← parse_resources visit rs g; ok (p, none)
  ]

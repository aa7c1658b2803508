-- ===== src/Parser/Removal.antt =====
-- pkg/engine/operation/parser/delete_resource_parser.go: the nodes of the resources to delete. It
-- ranges over the index twice, each time in an order of its own.
use kusion.Base.{
  String, Bool, true, false, not, ◌&&◌, Option, none, some, List, [], ◌∷◌, ◌++◌, ◌==◌,
  if◌then◌else◌, contains,
}
use kusion.Base.Text.{◌<>◌}
use kusion.Base.GoMap.{GoMap, get, set, keys}
use kusion.Status.{internal, invalid_argument, new_error_status_with_msg}
use kusion.Control.{Outcome, ok, failed, ◌>>=◌}
use kusion.Models.{Resource, index}
use kusion.Change.{delete}
use kusion.Graph.{Vertex, root_node, resource_node, new_resource_node, Dag}
use kusion.Parser.{
  latest_vertex, link_ref_nodes, update_dependencies, Parsed, checked_root, each_resource, reduced,
}

-- the keys of `manifestGraphMap`: the resources that the graph has at first
unfoldable pub manifest_keys : List Vertex → List String
manifest_keys [] = []
manifest_keys (root_node ∷ vs) = manifest_keys vs
manifest_keys (resource_node id a ∷ vs) = id ∷ manifest_keys vs

-- the key, as often as its resource depends on `dep`
copies : String → String → List String → List String
copies key dep [] = []
copies key dep (d ∷ ds) = if d == dep then key ∷ copies key dep ds else copies key dep ds

copies_of : String → String → Option Resource → List String
unfolding copies
copies_of key dep none = []
copies_of key dep (some r) = copies key dep r.depends_on

-- `priorDependsOn` at a key
unfoldable pub prior_depends_on : GoMap Resource → List String → String → List String
unfolding copies_of
prior_depends_on idx [] dep = []
prior_depends_on idx (key ∷ ks) dep = copies_of key dep (get key idx) ++ prior_depends_on idx ks dep

-- the first dependent that the manifest still has
unfoldable pub blocker : List String → List String → Option String
blocker manifest [] = none
blocker manifest (v ∷ vs) = if contains v manifest then some v else blocker manifest vs

abbrev pub is_empty : List Vertex → Bool
is_empty [] = true
is_empty (v ∷ vs) = false

module _ {G : Type 0} (dag : Dag G) where
  unfoldable pub mark_deleted : Vertex → Vertex → String → Option String → G → Outcome G
  mark_deleted root rn key none g = ok (dag.connect root rn (dag.add rn g))
  mark_deleted root rn key (some v) g = failed (
      new_error_status_with_msg internal
        (v <> " dependson " <> key <> ", cannot delete resource " <> key))

  module _ (root : Vertex) (manifest : List String) (dependents : String → List String) where
    unfoldable pub delete_node : String → G → Outcome G
    unfolding mark_deleted blocker new_resource_node
    delete_node key g = do
      rn ← new_resource_node key delete
      if not (dag.has_vertex rn g) && not (contains key manifest)
          then mark_deleted root rn key (blocker manifest (dependents key)) g
          else ok g

    unfoldable pub delete_round : String → Resource → Parsed dag → Outcome (Parsed dag)
    unfolding delete_node update_dependencies latest_vertex link_ref_nodes
    delete_round key r (g, idx) = do
      g1 ← delete_node key g
      r' ← update_dependencies r
      rn ← latest_vertex dag key g1
      g2 ← link_ref_nodes dag (set key r' idx) rn delete manifest r'.depends_on g1
      ok (g2, set key r' idx)

  -- what follows on the check that the graph has vertices
  unfoldable pub delete_all :
      (List String → List String)
      → (List String → List String)
      → List Resource
      → G
      → Outcome (Parsed dag)
  unfolding manifest_keys prior_depends_on delete_round each_resource checked_root reduced keys
  delete_all visit visit' rs g = do
    root ← checked_root (dag.root g)
    p ←
        each_resource dag
          (delete_round root (manifest_keys (dag.vertices g))
            (prior_depends_on (index rs) (visit (keys (index rs)))))
          (visit' (keys (index rs))) (g, index rs)
    reduced dag "Found circle dependency in models." (dag.validate p.0) p

  -- `DeleteResourceParser.Parse`
  unfoldable pub parse_deleted :
      (List String → List String)
      → (List String → List String)
      → List Resource
      → G
      → Outcome (Parsed dag)
  unfolding delete_all
  parse_deleted visit visit' rs g =
      if is_empty (dag.vertices g)
      then failed (
          new_error_status_with_msg invalid_argument
            "no vertices in dag when parsing deleted resources")
      else delete_all visit visit' rs g

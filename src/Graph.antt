-- ===== src/Graph.antt =====
-- The nodes of pkg/engine/operation/graph/node.go, and the graph library of Terraform, which is third
-- party: an interface with the laws that the parsers rely on. A vertex stands for its hash code, as
-- `GetVertex` makes sure that one node stands for each.
pub mod ListDag
use kusion.Base.{
  ℕ, String, Bool, true, false, ◌&&◌, ◌||◌, Option, none, some, List, [], ◌∷◌, ◌==◌, ◌≡◌,
  if◌then◌else◌, map, contains,
}
use kusion.Status.{invalid_argument, new_error_status_with_msg}
use kusion.Control.{Outcome, ok, failed, panicked, Result}
use kusion.Change.{ActionType}

-- A resource node points to its resource by its key.
pub data Vertex : Type 0 where
  root_node : Vertex
  resource_node : String → ActionType → Vertex

unfoldable pub hashcode : Vertex → String
hashcode root_node = "RootNode"
hashcode (resource_node id a) = id

unfoldable pub vertex_name : Vertex → String
vertex_name root_node = "root"
vertex_name (resource_node id a) = id

-- `NewBaseNode`, and `NewResourceNode`, which calls it
unfoldable pub new_base_node : String → Outcome String
new_base_node id =
    if id == ""
    then failed (new_error_status_with_msg invalid_argument "node id can not be nil")
    else ok id

unfoldable pub new_resource_node : String → ActionType → Outcome Vertex
unfolding new_base_node
new_resource_node key action =
    if key == ""
    then failed (new_error_status_with_msg invalid_argument "node id can not be nil")
    else ok (resource_node key action)

pub record Dag (G : Type 0) : Type 0 where
  pub vertices : G → List Vertex
  pub has_vertex : Vertex → G → Bool
  -- whether there is an edge between two hash codes
  pub has_edge : String → String → G → Bool
  pub add : Vertex → G → G
  pub connect : Vertex → Vertex → G → G
  pub root : G → Result Vertex
  pub validate : G → Option String
  pub transitive_reduction : G → G

-- What is reached along edges.
pub data Reach {G : Type 0} (d : Dag G) (g : G) (a : String) : String → Type 0 where
  edge : {b : String} → d.has_edge a b g ≡ true → Reach d g a b
  step : {b c : String} → Reach d g a b → d.has_edge b c g ≡ true → Reach d g a c

pub record IsDag {G : Type 0} (d : Dag G) : Type 0 where
  pub has_vertex-vertices :
      (v : Vertex) (g : G) → d.has_vertex v g ≡ contains (hashcode v) (map hashcode (d.vertices g))
  pub has_vertex-add :
      (v w : Vertex) (g : G)
      → d.has_vertex w (d.add v g) ≡ (hashcode v == hashcode w || d.has_vertex w g)
  pub has_vertex-connect :
      (a b w : Vertex) (g : G) → d.has_vertex w (d.connect a b g) ≡ d.has_vertex w g
  pub has_edge-add :
      (v : Vertex) (x y : String) (g : G) → d.has_edge x y (d.add v g) ≡ d.has_edge x y g
  pub has_edge-connect :
      (a b : Vertex) (x y : String) (g : G)
      → d.has_edge x y (d.connect a b g)
        ≡ ((hashcode a == x && hashcode b == y) || d.has_edge x y g)

abbrev pub IsAcyclic : {G : Type 0} → Dag G → G → Type 0
IsAcyclic d g = (a : String) → ¬ Reach d g a a

-- What `Validate` and `TransitiveReduction` promise. The reduction is only said to behave properly where
-- there is no cycle, which is what a validation without an error shows.
pub record IsReducing {G : Type 0} (d : Dag G) : Type 0 where
  pub no_cycle : (g : G) → d.validate g ≡ none → IsAcyclic d g
  pub reach-reduction :
      (g : G) (a b : String)
      → d.validate g ≡ none
      → Reach d g a b
      → Reach d (d.transitive_reduction g) a b
  -- it only takes edges away
  pub edge-reduction :
      (g : G) (a b : String)
      → d.validate g ≡ none
      → d.has_edge a b (d.transitive_reduction g) ≡ true
      → d.has_edge a b g ≡ true

-- What is reached in a reduced graph was reached before, so that the reduced graph has no cycle.
Reach-unreduced :
    {G : Type 0} {d : Dag G} (reducing : IsReducing d) (g : G) (a b : String)
    → d.validate g ≡ none
    → Reach d (d.transitive_reduction g) a b
    → Reach d g a b
Reach-unreduced reducing g a b v (edge e) = edge (reducing.edge-reduction g a b v e)
Reach-unreduced reducing g a c v (step {b = b} r e) =
    step (Reach-unreduced reducing g a b v r) (reducing.edge-reduction g b c v e)

pub reduction-IsAcyclic :
    {G : Type 0} {d : Dag G} (reducing : IsReducing d) (g : G)
    → d.validate g ≡ none
    → IsAcyclic d (d.transitive_reduction g)
reduction-IsAcyclic reducing g v a r = reducing.no_cycle g v a (Reach-unreduced reducing g a a v r)

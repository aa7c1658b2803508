-- ===== src/Parser/Link.antt =====
-- What `LinkRefNodes` of pkg/engine/operation/parser/parser.go does to the graph.
use kusion.Base.{
  String, Bool, true, not, ◌&&◌, Option, none, some, List, [], ◌∷◌, ◌≡◌, refl, if◌then◌else◌,
  contains, arith, eq_iff, eq_refl, sym, ◌∙◌, ap, map,
}
use kusion.Control.{OnOk}
use kusion.Change.{ActionType, delete, is_action}
use kusion.Graph.{
  Vertex, root_node, resource_node, hashcode, vertex_name, new_resource_node, Dag, IsDag,
}
use kusion.Parser.{get_vertex, as_resource_node, latest_vertex}

-- `g'` has what `g` has.
pub record Extends {G : Type 0} (dag : Dag G) (g g' : G) : Type 0 where
  pub vertices : (w : Vertex) → dag.has_vertex w g ≡ true → dag.has_vertex w g' ≡ true
  pub edges : (x y : String) → dag.has_edge x y g ≡ true → dag.has_edge x y g' ≡ true

-- Whether the node of a resource goes before the node of its dependency: only in a deletion, and
-- not when the manifest has the dependency.
unfoldable pub goes_first : ActionType → List String → String → Bool
goes_first action manifest dep = is_action action delete && not (contains dep manifest)

unfoldable pub dep_edge :
    {G : Type 0} → Dag G → ActionType → List String → String → String → G → Bool
unfolding goes_first
dep_edge dag action manifest key dep g =
    if goes_first action manifest dep then dag.has_edge key dep g else dag.has_edge dep key g

get_vertex-name :
    (key : String) (vs : List Vertex) (v : Vertex)
    → get_vertex key vs ≡ some v
    → vertex_name v ≡ key
unfolding get_vertex
get_vertex-name key [] v h = cc
get_vertex-name key (w ∷ ws) v h =
    ground (arith, eq_iff (vertex_name w) key, get_vertex-name key ws v)

as_resource_node-hashcode :
    (key : String) (o : Option Vertex)
    → ((v : Vertex) → o ≡ some v → vertex_name v ≡ key)
    → OnOk (λ v. hashcode v ≡ key) (as_resource_node o)
unfolding as_resource_node hashcode vertex_name
as_resource_node-hashcode key none h = tt
as_resource_node-hashcode key (some root_node) h = tt
as_resource_node-hashcode key (some (resource_node id a)) h = h (resource_node id a) refl

module _ {G : Type 0} {dag : Dag G} (laws : IsDag dag) where
  pub Extends-refl : (g : G) → Extends dag g g
  Extends-refl g = record { vertices = λ w h. h; edges = λ x y h. h }

  pub Extends-trans : {g g' g'' : G} → Extends dag g g' → Extends dag g' g'' → Extends dag g g''
  Extends-trans e f = record {
    vertices = λ w h. f.vertices w (e.vertices w h);
    edges = λ x y h. f.edges x y (e.edges x y h);
  }

  pub Extends-add : (v : Vertex) (g : G) → Extends dag g (dag.add v g)
  Extends-add v g = record {
    vertices = λ w h. ground (arith, laws.has_vertex-add v w g);
    edges = λ x y h. ground (arith, laws.has_edge-add v x y g);
  }

  pub Extends-connect : (a b : Vertex) (g : G) → Extends dag g (dag.connect a b g)
  Extends-connect a b g = record {
    vertices = λ w h. ground (arith, laws.has_vertex-connect a b w g);
    edges = λ x y h. ground (arith, laws.has_edge-connect a b x y g);
  }

  pub has_edge-connected :
      (a b : Vertex) (g : G) → dag.has_edge (hashcode a) (hashcode b) (dag.connect a b g) ≡ true
  has_edge-connected a b g = ground (
    arith,
    laws.has_edge-connect a b (hashcode a) (hashcode b) g,
    eq_refl (hashcode a),
    eq_refl (hashcode b),
  )

  pub latest_vertex-hashcode :
      (key : String) (g : G) → OnOk (λ v. hashcode v ≡ key) (latest_vertex dag key g)
  unfolding latest_vertex
  latest_vertex-hashcode key g =
      as_resource_node-hashcode key (get_vertex key (dag.vertices g))
        (get_vertex-name key (dag.vertices g))

  pub new_resource_node-hashcode :
      (key : String) (a : ActionType) → OnOk (λ v. hashcode v ≡ key) (new_resource_node key a)
  unfolding new_resource_node hashcode
  new_resource_node-hashcode key a = ground arith

  has_vertex-added : (v : Vertex) (g : G) → dag.has_vertex v (dag.add v g) ≡ true
  has_vertex-added v g = ground (arith, laws.has_vertex-add v v g, eq_refl (hashcode v))

  pub has_vertex-same :
      (v w : Vertex) (g : G) → hashcode v ≡ hashcode w → dag.has_vertex v g ≡ dag.has_vertex w g
  has_vertex-same v w g h =
      laws.has_vertex-vertices v g
      ∙ ap (λ k. contains k (map hashcode (dag.vertices g))) h
      ∙ sym (laws.has_vertex-vertices w g)

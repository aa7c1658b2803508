-- ===== src/Graph/ListDag.antt =====
-- A graph library that keeps its vertices and edges in lists, and so an example of what
-- pkg/engine/operation/graph and the parsers rely on.
use kusion.Base.{
  ℕ, zero, suc, ◌<◌, String, Bool, true, false, ◌&&◌, ◌||◌, Option, none, some, List, [], ◌∷◌, ◌==◌,
  ◌≡◌, refl, map, contains, ltb, length, if◌then◌else◌, arith, eq_iff, Bool-cases, inl, inr,
}
use kusion.Control.{value}
use kusion.Graph.{Vertex, root_node, hashcode, Dag, IsDag, IsReducing, Reach, edge, step}

pub record ListGraph : Type 0 where
  pub nodes : List Vertex
  pub edges : List (String × String)

abbrev has_pair : String → String → List (String × String) → Bool
has_pair x y [] = false
has_pair x y ((a, b) ∷ es) = (a == x && b == y) || has_pair x y es

-- the longest way to a vertex, up to a number of edges
abbrev below : String → List (String × String) → (String → ℕ) → ℕ
below x [] r = 0
below x ((a, b) ∷ es) r =
    let rest = below x es r in if b == x && ltb rest (suc (r a)) then suc (r a) else rest

abbrev pub rank : ℕ → List (String × String) → String → ℕ
rank zero es x = 0
rank (suc n) es x = below x es (rank n es)

abbrev pub all_rise : (String → ℕ) → List (String × String) → Bool
all_rise r [] = true
all_rise r ((a, b) ∷ es) = ltb (r a) (r b) && all_rise r es

abbrev pub list_dag : Dag ListGraph
list_dag = record {
  vertices = λ g. g.nodes;
  has_vertex = λ v g. contains (hashcode v) (map hashcode g.nodes);
  has_edge = λ x y g. has_pair x y g.edges;
  add = λ v g. record { nodes = v ∷ g.nodes; edges = g.edges };
  connect = λ a b g. record { nodes = g.nodes; edges = (hashcode a, hashcode b) ∷ g.edges };
  root = λ g. value root_node;
  validate = λ g. if all_rise (rank (length g.nodes) g.edges) g.edges then none else some "cycle";
  transitive_reduction = λ g. g;
}

pub list_dag-IsDag : IsDag list_dag
unfolding contains
list_dag-IsDag = record {
  has_vertex-vertices = λ v g. refl;
  has_vertex-add = λ v w g. refl;
  has_vertex-connect = λ a b w g. refl;
  has_edge-add = λ v x y g. refl;
  has_edge-connect = λ a b x y g. refl;
}

ends_rise :
    (r : String → ℕ) (a b x y : String)
    → ltb (r a) (r b) ≡ true
    → (a == x && b == y) ≡ true
    → r x < r y
ends_rise r a b x y h e =
    let from : a ≡ x = ground (arith, eq_iff a x) in
    let to : b ≡ y = ground (arith, eq_iff b y) in rw (← from, ← to) (ground arith)

edge-rises :
    (r : String → ℕ) (es : List (String × String)) (x y : String)
    → all_rise r es ≡ true
    → has_pair x y es ≡ true
    → r x < r y
edge-rises r [] x y h e = cc
edge-rises r ((a, b) ∷ es) x y h e = elim (Bool-cases (a == x && b == y)) [
  | inl same ↦ ends_rise r a b x y (ground arith) same
  | inr other ↦ edge-rises r es x y (ground arith) (ground arith)
]

Reach-rises :
    (r : String → ℕ) (g : ListGraph) (x y : String)
    → all_rise r g.edges ≡ true
    → Reach list_dag g x y
    → r x < r y
Reach-rises r g x y h (edge e) = edge-rises r g.edges x y h e
Reach-rises r g x z h (step {b = y} p e) =
    omega (arith, Reach-rises r g x y h p, edge-rises r g.edges y z h e)

accepted : (b : Bool) → if◌then◌else◌ {A = Option String} b none (some "cycle") ≡ none → b ≡ true
accepted true h = refl
accepted false h = cc

pub list_dag-IsReducing : IsReducing list_dag
list_dag-IsReducing = record {
  no_cycle = λ g v a p.
      let rises = Reach-rises (rank (length g.nodes) g.edges) g a a (accepted _ v) p in
      omega (arith, rises);
  reach-reduction = λ g a b v p. p;
  edge-reduction = λ g a b v e. e;
}

-- the graph with the root node alone, in which parsing starts
abbrev pub empty_graph : ListGraph
empty_graph = record { nodes = root_node ∷ []; edges = [] }

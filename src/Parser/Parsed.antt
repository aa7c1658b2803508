-- ===== src/Parser/Parsed.antt =====
-- What the graph of `SpecParser.Parse` of pkg/engine/operation/parser/spec_parser.go holds.
use kusion.Base.{String, true, [], ◌≡◌, if◌then◌else◌, arith}
use kusion.Control.{ok, ◌>>=◌, OnOk, OnOk-bind, OnOk-map, OnOk-if, OnOk-intro}
use kusion.Models.{Resource}
use kusion.Change.{update}
use kusion.Graph.{Vertex, hashcode, new_resource_node, Dag, IsDag}
use kusion.Parser.{latest_vertex, spec_node, spec_round, update_dependencies, Parsed}
use kusion.Parser.Link.{
  Extends, Extends-refl, Extends-trans, Extends-add, Extends-connect, has_edge-connected,
  latest_vertex-hashcode, new_resource_node-hashcode,
}
use kusion.Parser.Rounds.{Widens, IsRound}
use kusion.Parser.Completed.{
  IsLinked, IsLinked-Widens, IsStep, link_completed, link_completed-IsStep,
}

module _ {G : Type 0} {dag : Dag G} (laws : IsDag dag) where
  abbrev IsPlaced : Vertex → String → G → Vertex × G → Type 0
  IsPlaced root key g q =
      (hashcode q.0 ≡ key) × Extends dag g q.1 × (dag.has_edge (hashcode root) key q.1 ≡ true)

  connect_root :
      (root v : Vertex) (key : String) (g g' : G)
      → Extends dag g g'
      → hashcode v ≡ key
      → IsPlaced root key g (v, dag.connect root v g')
  connect_root root v key g g' e h = (
    h,
    Extends-trans laws e (Extends-connect laws root v g'),
    ground (arith, has_edge-connected laws root v g'),
  )

  spec_node-IsPlaced :
      (root : Vertex) (key : String) (g : G) → OnOk (IsPlaced root key g) (spec_node dag root key g)
  unfolding spec_node
  spec_node-IsPlaced root key g =
      OnOk-bind (λ v. hashcode v ≡ key) (IsPlaced root key g) (new_resource_node key update)
        (λ rn.
          if dag.has_vertex rn g
          then (latest_vertex dag key g >>= λ v. ok (v, dag.connect root v g))
          else ok (rn, dag.connect root rn (dag.add rn g)))
        (new_resource_node-hashcode laws key update)
        (λ rn h.
          OnOk-if (IsPlaced root key g) (dag.has_vertex rn g)
            (latest_vertex dag key g >>= λ v. ok (v, dag.connect root v g))
            (ok (rn, dag.connect root rn (dag.add rn g)))
            (λ _.
              OnOk-bind (λ v. hashcode v ≡ key) (IsPlaced root key g) (latest_vertex dag key g)
                (λ v. ok (v, dag.connect root v g)) (latest_vertex-hashcode laws key g)
                (λ v k. connect_root root v key g g (Extends-refl laws g) k))
            (λ _. connect_root root rn key g (dag.add rn g) (Extends-add laws rn g) h))

  -- What a round leaves: an edge from the root, and the resource's links.
  abbrev pub IsPlacedIn : Vertex → String → Resource → Parsed dag → Type 0
  IsPlacedIn root key r p =
      (dag.has_edge (hashcode root) key p.0 ≡ true) × IsLinked laws update [] key r p

  pub IsPlacedIn-Widens :
      (root : Vertex) (key : String) (r : Resource) (p p' : Parsed dag)
      → Widens dag p p'
      → IsPlacedIn root key r p
      → IsPlacedIn root key r p'
  IsPlacedIn-Widens root key r p p' w q =
      (w.grows.edges (hashcode root) key q.0, IsLinked-Widens laws update [] key r p p' w q.1)

  IsStep-IsRound :
      (root : Vertex) (key : String) (r : Resource) (p p' : Parsed dag) (q : Vertex × G)
      → IsPlaced root key p.0 q
      → IsStep laws update [] key r p q.1 p'
      → IsRound laws (spec_round dag root) (IsPlacedIn root) key r p p'
  IsStep-IsRound root key r p p' q placed s = record {
    grows = Extends-trans laws placed.1 s.grows;
    others = s.others;
    same_keys = s.same_keys;
    holds = (s.grows.edges (hashcode root) key placed.2, s.is_linked);
  }

  pub spec_round-IsRound :
      (root : Vertex) (key : String) (r : Resource) (p : Parsed dag)
      → OnOk
          (IsRound laws (spec_round dag root) (IsPlacedIn root) key r p)
          (spec_round dag root key r p)
  unfolding spec_round
  spec_round-IsRound root key r p =
      let Goal = IsRound laws (spec_round dag root) (IsPlacedIn root) key r p in
      OnOk-bind (IsPlaced root key p.0) Goal (spec_node dag root key p.0)
        (λ q. update_dependencies r >>= link_completed laws update [] key p q.0 q.1)
        (spec_node-IsPlaced root key p.0)
        (λ q placed.
          OnOk-bind (λ r'. update_dependencies r ≡ ok r') Goal (update_dependencies r)
            (link_completed laws update [] key p q.0 q.1)
            (OnOk-intro (λ r'. update_dependencies r ≡ ok r') (update_dependencies r) (λ r' e. e))
            (λ r' completed.
              OnOk-map (link_completed laws update [] key p q.0 q.1 r')
                (link_completed-IsStep laws update [] key r r' p q.0 q.1 placed.0 completed)
                (λ p' s. IsStep-IsRound root key r p p' q placed s)))

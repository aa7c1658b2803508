-- ===== src/Parser/Ordered.antt =====
-- The graph that `SpecParser.Parse` of pkg/engine/operation/parser/spec_parser.go returns.
use mathlib.Core.Path.{subst}
use kusion.Base.{String, Option, none, some, List, ◌≡◌, refl, true, false, is_nil, contains, arith}
use kusion.Base.GoMap.{get, keys, Visits, contains-visit, contains-keys}
use kusion.Control.{ok, ◌>>=◌, OnOk, OnOk-bind, Result, value, error}
use kusion.Models.{Resource, index}
use kusion.Graph.{
  Vertex, hashcode, Dag, IsDag, IsReducing, IsAcyclic, Reach, edge, reduction-IsAcyclic,
}
use kusion.Parser.{
  spec_round, each_resource, update_dependencies, Parsed, checked_root, reduced, parse_resources,
}
use kusion.Parser.Link.{dep_edge, goes_first}
use kusion.Parser.Rounds.{AreRounds, each_resource-AreRounds}
use kusion.Parser.Parsed.{IsPlacedIn, IsPlacedIn-Widens, spec_round-IsRound}

module _ {G : Type 0} {dag : Dag G} (laws : IsDag dag) where
  pub visited :
      {visit : List String → List String}
      → Visits visit
      → (key : String) (r : Resource) (rs : List Resource) → get key (index rs) ≡ some r
      → contains key (visit (keys (index rs))) ≡ true
  visited v key r rs found =
      ground (arith, contains-visit v (keys (index rs)) key, contains-keys key (index rs))

  -- The place of a resource in the graph that is walked: behind the root and behind its dependencies,
  -- all of which are resources of the index.
  pub record IsOrdered (root : Vertex) (key : String) (r : Resource) (p : Parsed dag) : Type 0 where
    pub linked : Resource
    pub completed : update_dependencies r ≡ ok linked
    pub root_first : Reach dag p.0 (hashcode root) key
    pub known :
        (dep : String) → contains dep linked.depends_on ≡ true → is_nil (get dep p.1) ≡ false
    pub dependencies_first :
        (dep : String) → contains dep linked.depends_on ≡ true → Reach dag p.0 dep key

  abbrev pub OrdersAll : Vertex → List Resource → Parsed dag → Type 0
  OrdersAll root rs p =
      (key : String) (r : Resource) → get key (index rs) ≡ some r → IsOrdered root key r p

  -- All resources are in their places, and no two of them go before each other.
  pub record IsPlan (root : Vertex) (rs : List Resource) (p : Parsed dag) : Type 0 where
    pub orders : OrdersAll root rs p
    pub acyclic : IsAcyclic dag p.0

  IsPlacedIn-IsOrdered :
      (reducing : IsReducing dag) (root : Vertex) (key : String) (r : Resource) (p : Parsed dag)
      → dag.validate p.0 ≡ none
      → IsPlacedIn laws root key r p
      → IsOrdered root key r (dag.transitive_reduction p.0, p.1)
  unfolding dep_edge goes_first
  IsPlacedIn-IsOrdered reducing root key r p valid (under_root, l) = record {
    linked = l.linked;
    completed = l.completed;
    root_first = reducing.reach-reduction p.0 (hashcode root) key valid (edge under_root);
    known = l.known;
    dependencies_first =
        λ dep h. reducing.reach-reduction p.0 dep key valid (edge (l.linked_to dep h));
  }

  pub reduced-OnOk :
      (P : Parsed dag → Type 0) (msg : String) (o : Option String) (p : Parsed dag)
      → (o ≡ none → P (dag.transitive_reduction p.0, p.1))
      → OnOk P (reduced dag msg o p)
  unfolding reduced
  reduced-OnOk P msg none p h = h refl
  reduced-OnOk P msg (some e) p h = tt

  pub checked_root-value :
      (r : Result Vertex) (root : Vertex) → r ≡ value root → OnOk (λ v. v ≡ root) (checked_root r)
  unfolding checked_root
  checked_root-value (value v) root h = cc
  checked_root-value (error e) root h = tt

  -- If parsing a spec's resources returns a graph, then the resource of each key can be reached from the
  -- root and from each of its dependencies, each dependency, explicit or implicit, is a resource of the
  -- index, and the graph has no cycle, whatever the order is in which the map of resources is visited.
  pub parse_resources-IsPlan :
      {visit : List String → List String}
      → IsReducing dag
      → Visits visit
      → (root : Vertex) (rs : List Resource) (g : G) → dag.root g ≡ value root
      → OnOk (IsPlan root rs) (parse_resources dag visit rs g)
  unfolding parse_resources
  parse_resources-IsPlan {visit} reducing v root rs g h =
      let start : Parsed dag = (g, index rs) in
      let order = visit (keys (index rs)) in
      OnOk-bind (λ r. r ≡ root) (IsPlan root rs) (checked_root (dag.root g))
        (λ r. each_resource dag (spec_round dag r) order start >>= λ p.
          reduced dag "Found circle dependency in models:" (dag.validate p.0) p)
        (checked_root-value (dag.root g) root h)
        (λ r e.
          OnOk-bind (AreRounds laws (spec_round dag r) (IsPlacedIn laws r) order start)
            (IsPlan root rs) (each_resource dag (spec_round dag r) order start)
            (λ p. reduced dag "Found circle dependency in models:" (dag.validate p.0) p)
            (each_resource-AreRounds laws (spec_round dag r) (IsPlacedIn laws r)
              (IsPlacedIn-Widens laws r) (spec_round-IsRound laws r) order start)
            (λ p rounds.
              reduced-OnOk (IsPlan root rs) "Found circle dependency in models:" (dag.validate p.0)
                p
                (λ valid. record {
                  orders = λ key s found.
                      subst (λ x. IsOrdered x key s (dag.transitive_reduction p.0, p.1)) e
                        (IsPlacedIn-IsOrdered reducing r key s p valid
                          (rounds.each key s (visited v key s rs found) found));
                  acyclic = reduction-IsAcyclic reducing p.0 valid;
                })))

-- ===== src/Parser/Removed.antt =====
-- The graph that `DeleteResourceParser.Parse` of pkg/engine/operation/parser/delete_resource_parser.go
-- returns.
use kusion.Base.{
  String, Option, none, some, List, ◌≡◌, true, false, not, ◌&&◌, is_nil, contains, if◌then◌else◌,
  arith,
}
use kusion.Base.GoMap.{get, keys, Visits}
use kusion.Control.{
  ok, failed, ◌>>=◌, OnOk, OnOk-bind, OnOk-if, OnOk-map, OnOk-intro, OnOk-any, value,
}
use kusion.Models.{Resource, index}
use kusion.Change.{delete}
use kusion.Graph.{
  Vertex, hashcode, new_resource_node, Dag, IsDag, IsReducing, IsAcyclic, Reach, edge,
  reduction-IsAcyclic,
}
use kusion.Parser.{each_resource, update_dependencies, latest_vertex, Parsed, checked_root, reduced}
use kusion.Parser.Link.{
  Extends, Extends-refl, Extends-trans, Extends-add, Extends-connect, latest_vertex-hashcode,
  dep_edge, goes_first,
}
use kusion.Parser.Rounds.{IsRound, AreRounds, each_resource-AreRounds}
use kusion.Parser.Completed.{IsLinked, IsLinked-Widens, link_completed, link_completed-IsStep}
use kusion.Parser.Ordered.{visited, reduced-OnOk, checked_root-value}
use kusion.Parser.Removal.{
  manifest_keys, prior_depends_on, blocker, mark_deleted, delete_node, delete_round, delete_all,
  parse_deleted, is_empty,
}

module _ {G : Type 0} {dag : Dag G} (laws : IsDag dag) where
  mark_deleted-Extends :
      (root rn : Vertex) (key : String) (o : Option String) (g : G)
      → OnOk (Extends dag g) (mark_deleted dag root rn key o g)
  unfolding mark_deleted
  mark_deleted-Extends root rn key none g =
      Extends-trans laws (Extends-add laws rn g) (Extends-connect laws root rn (dag.add rn g))
  mark_deleted-Extends root rn key (some v) g = tt

  module _ (root : Vertex) (manifest : List String) (dependents : String → List String) where
    delete_node-Extends :
        (key : String) (g : G)
        → OnOk (Extends dag g) (delete_node dag root manifest dependents key g)
    unfolding delete_node
    delete_node-Extends key g =
        OnOk-bind (λ v. Unit {0}) (Extends dag g) (new_resource_node key delete)
          (λ rn.
            if not (dag.has_vertex rn g) && not (contains key manifest)
            then mark_deleted dag root rn key (blocker manifest (dependents key)) g
            else ok g)
          (OnOk-any (new_resource_node key delete))
          (λ rn _.
            OnOk-if (Extends dag g) (not (dag.has_vertex rn g) && not (contains key manifest))
              (mark_deleted dag root rn key (blocker manifest (dependents key)) g) (ok g)
              (λ _. mark_deleted-Extends root rn key (blocker manifest (dependents key)) g)
              (λ _. Extends-refl laws g))

    delete_round-IsRound :
        (key : String) (r : Resource) (p : Parsed dag)
        → OnOk
            (IsRound laws
              (delete_round dag root manifest dependents)
              (IsLinked laws delete manifest)
              key
              r
              p)
            (delete_round dag root manifest dependents key r p)
    unfolding delete_round
    delete_round-IsRound key r p =
        let Goal =
          IsRound laws (delete_round dag root manifest dependents) (IsLinked laws delete manifest)
            key r p in
        OnOk-bind (Extends dag p.0) Goal (delete_node dag root manifest dependents key p.0)
          (λ g. update_dependencies r >>= λ r'.
            latest_vertex dag key g >>= λ rn. link_completed laws delete manifest key p rn g r')
          (delete_node-Extends key p.0)
          (λ g grows.
            OnOk-bind (λ r'. update_dependencies r ≡ ok r') Goal (update_dependencies r)
              (λ r'.
                latest_vertex dag key g >>= λ rn. link_completed laws delete manifest key p rn g r')
              (OnOk-intro (λ r'. update_dependencies r ≡ ok r') (update_dependencies r) (λ r' e. e))
              (λ r' completed.
                OnOk-bind (λ v. hashcode v ≡ key) Goal (latest_vertex dag key g)
                  (λ rn. link_completed laws delete manifest key p rn g r')
                  (latest_vertex-hashcode laws key g)
                  (λ rn named.
                    OnOk-map (link_completed laws delete manifest key p rn g r')
                      (link_completed-IsStep laws delete manifest key r r' p rn g named completed)
                      (λ p' s. record {
                        grows = Extends-trans laws grows s.grows;
                        others = s.others;
                        same_keys = s.same_keys;
                        holds = s.is_linked;
                      }))))

  -- The place of a recorded resource in the graph: before those of its dependencies that the manifest does
  -- not have, and behind the others.
  pub record IsRemovable (manifest : List String) (key : String) (r : Resource) (p : Parsed dag)
      : Type 0 where
    pub linked : Resource
    pub completed : update_dependencies r ≡ ok linked
    pub known :
        (dep : String) → contains dep linked.depends_on ≡ true → is_nil (get dep p.1) ≡ false
    pub goes_before :
        (dep : String)
        → contains dep linked.depends_on ≡ true
        → contains dep manifest ≡ false
        → Reach dag p.0 key dep
    pub goes_after :
        (dep : String)
        → contains dep linked.depends_on ≡ true
        → contains dep manifest ≡ true
        → Reach dag p.0 dep key

  IsLinked-IsRemovable :
      (reducing : IsReducing dag) (manifest : List String) (key : String) (r : Resource)
      (p : Parsed dag)
      → dag.validate p.0 ≡ none
      → IsLinked laws delete manifest key r p
      → IsRemovable manifest key r (dag.transitive_reduction p.0, p.1)
  unfolding dep_edge goes_first
  IsLinked-IsRemovable reducing manifest key r p valid l = record {
    linked = l.linked;
    completed = l.completed;
    known = l.known;
    goes_before = λ dep h out.
        reducing.reach-reduction p.0 key dep valid (edge (ground (arith, l.linked_to dep h)));
    goes_after = λ dep h inside.
        reducing.reach-reduction p.0 dep key valid (edge (ground (arith, l.linked_to dep h)));
  }

  abbrev pub RemovesAll : List String → List Resource → Parsed dag → Type 0
  RemovesAll manifest rs p =
      (key : String) (r : Resource) → get key (index rs) ≡ some r → IsRemovable manifest key r p

  -- All recorded resources are in their places, and no two of them go before each other.
  pub record IsRemovalPlan (manifest : List String) (rs : List Resource) (p : Parsed dag)
      : Type 0 where
    pub removes : RemovesAll manifest rs p
    pub acyclic : IsAcyclic dag p.0

  -- what the parse gives once the graph has vertices
  delete_all-IsRemovalPlan :
      (reducing : IsReducing dag) (visit : List String → List String)
      {visit' : List String → List String}
      → Visits visit'
      → (root : Vertex) (rs : List Resource) (g : G) → dag.root g ≡ value root
      → OnOk (IsRemovalPlan (manifest_keys (dag.vertices g)) rs) (delete_all dag visit visit' rs g)
  unfolding delete_all
  delete_all-IsRemovalPlan reducing visit {visit'} v root rs g h =
      let manifest = manifest_keys (dag.vertices g) in
      let dependents = prior_depends_on (index rs) (visit (keys (index rs))) in
      let order = visit' (keys (index rs)) in
      let start : Parsed dag = (g, index rs) in
      OnOk-bind (λ r. r ≡ root) (IsRemovalPlan manifest rs) (checked_root (dag.root g))
        (λ r. each_resource dag (delete_round dag r manifest dependents) order start >>= λ p.
          reduced dag "Found circle dependency in models." (dag.validate p.0) p)
        (checked_root-value laws (dag.root g) root h)
        (λ r e.
          OnOk-bind
            (AreRounds laws (delete_round dag r manifest dependents) (IsLinked laws delete manifest)
              order start)
            (IsRemovalPlan manifest rs)
            (each_resource dag (delete_round dag r manifest dependents) order start)
            (λ p. reduced dag "Found circle dependency in models." (dag.validate p.0) p)
            (each_resource-AreRounds laws (delete_round dag r manifest dependents)
              (IsLinked laws delete manifest) (IsLinked-Widens laws delete manifest)
              (delete_round-IsRound r manifest dependents) order start)
            (λ p rounds.
              reduced-OnOk laws (IsRemovalPlan manifest rs) "Found circle dependency in models."
                (dag.validate p.0) p
                (λ valid. record {
                  removes = λ key s found.
                      IsLinked-IsRemovable reducing manifest key s p valid
                        (rounds.each key s (visited laws v key s rs found) found);
                  acyclic = reduction-IsAcyclic reducing p.0 valid;
                })))

  -- If parsing the resources to delete returns a graph, then each recorded resource has its dependencies
  -- in the index, goes before those of them that the manifest, the resources of the graph at the start,
  -- does not have, and goes behind the others, and the graph has no cycle, whatever the orders are in
  -- which the index is visited. So a destroy, whose manifest is empty, deletes a resource before all that
  -- it depends on.
  pub parse_deleted-IsRemovalPlan :
      (reducing : IsReducing dag) (visit : List String → List String)
      {visit' : List String → List String}
      → Visits visit'
      → (root : Vertex) (rs : List Resource) (g : G) → dag.root g ≡ value root
      → OnOk
          (IsRemovalPlan (manifest_keys (dag.vertices g)) rs)
          (parse_deleted dag visit visit' rs g)
  unfolding parse_deleted
  parse_deleted-IsRemovalPlan reducing visit {visit'} v root rs g h =
      OnOk-if (IsRemovalPlan (manifest_keys (dag.vertices g)) rs) (is_empty (dag.vertices g))
        (failed _) (delete_all dag visit visit' rs g) (λ _. tt)
        (λ _. delete_all-IsRemovalPlan reducing visit v root rs g h)

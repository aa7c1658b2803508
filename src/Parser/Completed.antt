-- ===== src/Parser/Completed.antt =====
-- The end of a round in both parsers of pkg/engine/operation/parser: a resource gets all of its
-- dependencies, and its node is linked to theirs.
use kusion.Base.{String, true, false, List, ◌==◌, ◌≡◌, if◌then◌else◌, is_nil, contains, arith}
use kusion.Base.GoMap.{get, set, get-set}
use kusion.Control.{Outcome, ok, ◌>>=◌, OnOk, OnOk-bind}
use kusion.Models.{Resource}
use kusion.Change.{ActionType}
use kusion.Graph.{Vertex, hashcode, Dag, IsDag}
use kusion.Parser.{link_ref_nodes, update_dependencies, Parsed}
use kusion.Parser.Link.{Extends, dep_edge}
use kusion.Parser.Linked.{HasLinks, link_ref_nodes-HasLinks, dep_edge-Extends}
use kusion.Parser.Rounds.{Widens}

module _ {G : Type 0} {dag : Dag G} (laws : IsDag dag) (action : ActionType)
    (manifest : List String) where
  -- The resource's dependencies, explicit and implicit, are in the index, and its node is linked to theirs
  -- in the direction that the action and the manifest ask for.
  pub record IsLinked (key : String) (r : Resource) (p : Parsed dag) : Type 0 where
    pub linked : Resource
    pub completed : update_dependencies r ≡ ok linked
    pub known :
        (dep : String) → contains dep linked.depends_on ≡ true → is_nil (get dep p.1) ≡ false
    pub linked_to :
        (dep : String)
        → contains dep linked.depends_on ≡ true
        → dep_edge dag action manifest key dep p.0 ≡ true

  pub IsLinked-Widens :
      (key : String) (r : Resource) (p p' : Parsed dag)
      → Widens dag p p'
      → IsLinked key r p
      → IsLinked key r p'
  IsLinked-Widens key r p p' w l = record {
    linked = l.linked;
    completed = l.completed;
    known = λ dep h. w.known dep (l.known dep h);
    linked_to =
        λ dep h. dep_edge-Extends laws action manifest key dep p.0 p'.0 w.grows (l.linked_to dep h);
  }

  -- what is left of a round from a graph that holds the node
  pub record IsStep (key : String) (r : Resource) (p : Parsed dag) (g : G) (p' : Parsed dag)
      : Type 0 where
    pub grows : Extends dag g p'.0
    pub others : (k : String) → (key == k) ≡ false → get k p'.1 ≡ get k p.1
    pub same_keys :
        (k : String) → is_nil (get k p'.1) ≡ (if key == k then false else is_nil (get k p.1))
    pub is_linked : IsLinked key r p'

  abbrev pub link_completed : String → Parsed dag → Vertex → G → Resource → Outcome (Parsed dag)
  link_completed key p rn g r' =
      link_ref_nodes dag (set key r' p.1) rn action manifest r'.depends_on g >>= λ g'.
      ok (g', set key r' p.1)

  HasLinks-IsStep :
      (key : String) (r r' : Resource) (p : Parsed dag) (rn : Vertex) (g g' : G)
      → hashcode rn ≡ key
      → update_dependencies r ≡ ok r'
      → HasLinks laws (set key r' p.1) action manifest rn r'.depends_on g g'
      → IsStep key r p g (g', set key r' p.1)
  HasLinks-IsStep key r r' p rn g g' named completed links = record {
    grows = links.grows;
    others = λ k h. ground (arith, get-set key k r' p.1);
    same_keys = λ k. ground (arith, get-set key k r' p.1);
    is_linked = record {
      linked = r';
      completed = completed;
      known = links.known;
      linked_to = λ dep h. ground (arith, named, links.linked_to dep h);
    };
  }

  pub link_completed-IsStep :
      (key : String) (r r' : Resource) (p : Parsed dag) (rn : Vertex) (g : G)
      → hashcode rn ≡ key
      → update_dependencies r ≡ ok r'
      → OnOk (IsStep key r p g) (link_completed key p rn g r')
  link_completed-IsStep key r r' p rn g named completed =
      OnOk-bind (HasLinks laws (set key r' p.1) action manifest rn r'.depends_on g)
        (IsStep key r p g) (link_ref_nodes dag (set key r' p.1) rn action manifest r'.depends_on g)
        (λ g'. ok (g', set key r' p.1))
        (link_ref_nodes-HasLinks laws (set key r' p.1) rn action manifest r'.depends_on g)
        (λ g' links. HasLinks-IsStep key r r' p rn g g' named completed links)

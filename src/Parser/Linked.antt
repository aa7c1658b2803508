-- ===== src/Parser/Linked.antt =====
-- What `LinkRefNodes` of pkg/engine/operation/parser/parser.go ends with, over all the keys it is given.
use kusion.Base.{
  String, Bool, true, false, List, [], ◌∷◌, ◌≡◌, refl, if◌then◌else◌, is_nil, contains, arith,
  eq_iff, if_both,
}
use kusion.Base.GoMap.{GoMap, get}
use kusion.Control.{Outcome, ok, failed, ◌>>=◌, OnOk, OnOk-bind, OnOk-map, OnOk-if, OnOk-any}
use kusion.Models.{Resource}
use kusion.Change.{ActionType, delete, is_action}
use kusion.Graph.{Vertex, hashcode, new_base_node, new_resource_node, Dag, IsDag}
use kusion.Parser.{latest_vertex, parent_in, link_delete, link_update, link_one, link_ref_nodes}
use kusion.Parser.Link.{
  Extends, goes_first, dep_edge, Extends-refl, Extends-trans, Extends-add, Extends-connect,
  has_edge-connected, latest_vertex-hashcode, new_resource_node-hashcode,
}

module _ {G : Type 0} {dag : Dag G} (laws : IsDag dag) where
  abbrev IsParent : String → G → Vertex × G → Type 0
  IsParent key g p = (hashcode p.0 ≡ key) × Extends dag g p.1

  latest_vertex-paired :
      (key : String) (g : G) → OnOk (IsParent key g) (latest_vertex dag key g >>= λ v. ok (v, g))
  latest_vertex-paired key g =
      OnOk-bind (λ v. hashcode v ≡ key) (IsParent key g) (latest_vertex dag key g) (λ v. ok (v, g))
        (latest_vertex-hashcode laws key g) (λ v e. (e, Extends-refl laws g))

  -- The parent that is linked has the key, and the graph still has what it had.
  parent_in-Extends :
      (key : String) (parent : Vertex) (g : G)
      → hashcode parent ≡ key
      → OnOk (IsParent key g) (parent_in dag key parent g)
  unfolding parent_in
  parent_in-Extends key parent g h =
      if_both (OnOk (IsParent key g)) (dag.has_vertex parent g)
        (latest_vertex dag key g >>= λ v. ok (v, g)) (ok (parent, dag.add parent g))
        (latest_vertex-paired key g) (h, Extends-add laws parent g)

  -- What linking one dependency does.
  abbrev Linked : ActionType → List String → Vertex → String → G → G → Type 0
  Linked action manifest rn dep g g' =
      Extends dag g g' × (dep_edge dag action manifest (hashcode rn) dep g' ≡ true)

  connect_before :
      (v rn : Vertex) (g : G) (action : ActionType) (manifest : List String) (dep : String)
      (base : G)
      → Extends dag base g
      → goes_first action manifest dep ≡ false
      → hashcode v ≡ dep
      → Linked action manifest rn dep base (dag.connect v rn g)
  unfolding dep_edge
  connect_before v rn g action manifest dep base e h k = (
    Extends-trans laws e (Extends-connect laws v rn g),
    ground (arith, has_edge-connected laws v rn g),
  )

  connect_after :
      (v rn : Vertex) (g : G) (action : ActionType) (manifest : List String) (dep : String)
      (base : G)
      → Extends dag base g
      → goes_first action manifest dep ≡ true
      → hashcode v ≡ dep
      → Linked action manifest rn dep base (dag.connect rn v g)
  unfolding dep_edge
  connect_after v rn g action manifest dep base e h k = (
    Extends-trans laws e (Extends-connect laws rn v g),
    ground (arith, has_edge-connected laws rn v g),
  )

  link_update-Linked :
      (rn : Vertex) (key : String) (parent : Vertex) (g : G) (action : ActionType)
      (manifest : List String)
      → is_action action delete ≡ false
      → hashcode parent ≡ key
      → OnOk (Linked action manifest rn key g) (link_update dag rn key parent g)
  unfolding link_update goes_first
  link_update-Linked rn key parent g action manifest na h =
      OnOk-bind (IsParent key g) (Linked action manifest rn key g) (parent_in dag key parent g)
        (λ p. ok (dag.connect p.0 rn p.1)) (parent_in-Extends key parent g h)
        (λ p q. connect_before p.0 rn p.1 action manifest key g q.1 (ground arith) q.0)

  link_delete-Linked :
      (rn : Vertex) (b : Bool) (key : String) (parent : Vertex) (g : G) (action : ActionType)
      (manifest : List String)
      → is_action action delete ≡ true
      → contains key manifest ≡ b
      → hashcode parent ≡ key
      → OnOk (Linked action manifest rn key g) (link_delete dag rn b key parent g)
  unfolding link_delete goes_first
  link_delete-Linked rn true key parent g action manifest na c h =
      OnOk-bind (λ v. hashcode v ≡ key) (Linked action manifest rn key g) (latest_vertex dag key g)
        (λ v. ok (dag.connect v rn g)) (latest_vertex-hashcode laws key g)
        (λ v q. connect_before v rn g action manifest key g (Extends-refl laws g) (ground arith) q)
  link_delete-Linked rn false key parent g action manifest na c h =
      OnOk-bind (IsParent key g) (Linked action manifest rn key g) (parent_in dag key parent g)
        (λ p. ok (dag.connect rn p.0 p.1)) (parent_in-Extends key parent g h)
        (λ p q. connect_after p.0 rn p.1 action manifest key g q.1 (ground arith) q.0)

  module _ (rn : Vertex) (action : ActionType) (manifest : List String) (key : String) (g : G) where
    abbrev linked : Vertex → Outcome G
    linked parent =
        if is_action action delete
        then link_delete dag rn (contains key manifest) key parent g
        else link_update dag rn key parent g

    linked-Linked :
        (parent : Vertex)
        → hashcode parent ≡ key
        → OnOk (Linked action manifest rn key g) (linked parent)
    linked-Linked parent h =
        OnOk-if (Linked action manifest rn key g) (is_action action delete)
          (link_delete dag rn (contains key manifest) key parent g)
          (link_update dag rn key parent g)
          (λ d. link_delete-Linked rn (contains key manifest) key parent g action manifest d refl h)
          (λ d. link_update-Linked rn key parent g action manifest d h)

  abbrev LinkedKey : GoMap Resource → ActionType → List String → Vertex → String → G → G → Type 0
  LinkedKey idx action manifest rn key g g' =
      (is_nil (get key idx) ≡ false) × Linked action manifest rn key g g'

  link_one-Linked :
      (idx : GoMap Resource) (rn : Vertex) (action : ActionType) (manifest : List String)
      (key : String) (g : G)
      → OnOk (LinkedKey idx action manifest rn key g) (link_one dag idx rn action manifest key g)
  unfolding link_one
  link_one-Linked idx rn action manifest key g =
      OnOk-if (LinkedKey idx action manifest rn key g) (is_nil (get key idx)) (failed _)
        (new_resource_node key action >>= λ parent.
          new_base_node key >>= λ base. linked rn action manifest key g parent)
        (λ _. tt)
        (λ there.
          OnOk-bind (λ v. hashcode v ≡ key) (LinkedKey idx action manifest rn key g)
            (new_resource_node key action)
            (λ parent. new_base_node key >>= λ base. linked rn action manifest key g parent)
            (new_resource_node-hashcode laws key action)
            (λ parent named.
              OnOk-bind (λ a. Unit {0}) (LinkedKey idx action manifest rn key g) (new_base_node key)
                (λ base. linked rn action manifest key g parent) (OnOk-any (new_base_node key))
                (λ base _.
                  OnOk-map (linked rn action manifest key g parent)
                    (linked-Linked rn action manifest key g parent named) (λ g' l. (there, l)))))

  -- What holds once the dependencies `keys` are linked.
  pub record HasLinks (idx : GoMap Resource) (action : ActionType) (manifest : List String)
      (rn : Vertex) (keys : List String) (g g' : G) : Type 0 where
    pub grows : Extends dag g g'
    pub known : (k : String) → contains k keys ≡ true → is_nil (get k idx) ≡ false
    pub linked_to :
        (k : String)
        → contains k keys ≡ true
        → dep_edge dag action manifest (hashcode rn) k g' ≡ true

  pub dep_edge-Extends :
      (action : ActionType) (manifest : List String) (key dep : String) (g g' : G)
      → Extends dag g g'
      → dep_edge dag action manifest key dep g ≡ true
      → dep_edge dag action manifest key dep g' ≡ true
  unfolding dep_edge
  dep_edge-Extends action manifest key dep g g' e h =
      ground (arith, e.edges key dep, e.edges dep key)

  HasLinks-cons :
      (idx : GoMap Resource) (action : ActionType) (manifest : List String) (rn : Vertex)
      (key : String) (keys : List String) (g g' g'' : G)
      → LinkedKey idx action manifest rn key g g'
      → HasLinks idx action manifest rn keys g' g''
      → HasLinks idx action manifest rn (key ∷ keys) g g''
  unfolding contains
  HasLinks-cons idx action manifest rn key keys g g' g'' l rest = record {
    grows = Extends-trans laws l.1.0 rest.grows;
    known = λ k h. ground (arith, eq_iff key k, l.0, rest.known k);
    linked_to = λ k h. ground (
      arith,
      eq_iff key k,
      dep_edge-Extends action manifest (hashcode rn) key g' g'' rest.grows l.1.1,
      rest.linked_to k,
    );
  }

  -- If `LinkRefNodes` returns, then each of the keys is that of a known resource and is linked to the
  -- node in the direction that the action and the manifest ask for, and nothing of the graph is lost.
  pub link_ref_nodes-HasLinks :
      (idx : GoMap Resource) (rn : Vertex) (action : ActionType) (manifest : List String)
      (keys : List String) (g : G)
      → OnOk
          (HasLinks idx action manifest rn keys g)
          (link_ref_nodes dag idx rn action manifest keys g)
  unfolding link_ref_nodes contains
  link_ref_nodes-HasLinks idx rn action manifest [] g = record {
    grows = Extends-refl laws g;
    known = λ k h. cc;
    linked_to = λ k h. cc;
  }
  link_ref_nodes-HasLinks idx rn action manifest (key ∷ keys) g =
      OnOk-bind (LinkedKey idx action manifest rn key g)
        (HasLinks idx action manifest rn (key ∷ keys) g) (link_one dag idx rn action manifest key g)
        (link_ref_nodes dag idx rn action manifest keys)
        (link_one-Linked idx rn action manifest key g)
        (λ g' l.
          OnOk-map (link_ref_nodes dag idx rn action manifest keys g')
            (link_ref_nodes-HasLinks idx rn action manifest keys g')
            (λ g'' rest. HasLinks-cons idx action manifest rn key keys g g' g'' l rest))

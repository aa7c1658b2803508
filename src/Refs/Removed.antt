-- ===== src/Refs/Removed.antt =====
-- What `removeNestedField` of pkg/engine/operation/graph/resource_node.go removes, and what it leaves.
use mathlib.Core.Path.{subst}
use kusion.Base.{
  String, Bool, true, false, List, [], ◌∷◌, ◌++◌, ◌==◌, ◌≡◌, refl, arith, eq_iff, if◌then◌else◌,
  Bool-cases, inl, inr,
}
use kusion.Value.{
  Value, null, bool, num, str, list, object, Items, nil, cons, Fields, end, field, delete_field,
}
use kusion.Refs.{remove_nested_field, remove_in_items, remove_in_fields}

-- The values at a path of one name and more. The path leads through maps by their keys, and through all
-- the elements of a list.
unfoldable mutual
  pub values_at : Value → String → List String → List Value
  values_at (object fs) k ks = values_in fs k ks
  values_at (list vs) k ks = values_of vs k ks
  values_at v k ks = []

  pub values_of : Items → String → List String → List Value
  values_of nil k ks = []
  values_of (cons v vs) k ks = values_at v k ks ++ values_of vs k ks

  pub values_in : Fields → String → List String → List Value
  values_in end k ks = []
  values_in (field i v fs) k [] =
      let behind = values_in fs k [] in if i == k then v ∷ [] else behind
  values_in (field i v fs) k (j ∷ js) =
      let inside = values_at v j js in
      let behind = values_in fs k (j ∷ js) in if i == k then inside else behind

-- The paths part before either ends.
unfoldable pub diverge : List String → List String → Bool
diverge (k ∷ ks) (j ∷ js) = if k == j then diverge ks js else true
diverge _ _ = false

deleted_self : (fs : Fields) (k : String) → values_in (delete_field k fs) k [] ≡ []
unfolding values_in delete_field
deleted_self end k = refl
deleted_self (field i v fs) k = ground (arith, deleted_self fs k)

deleted_other :
    (fs : Fields) (k i : String) (is : List String)
    → (k == i) ≡ false
    → values_in (delete_field k fs) i is ≡ values_in fs i is
unfolding values_in delete_field
deleted_other end k i is h = refl
deleted_other (field l v fs) k i [] h =
    ground (arith, eq_iff l k, eq_iff l i, eq_iff k i, deleted_other fs k i [] h)
deleted_other (field l v fs) k i (j ∷ js) h =
    ground (arith, eq_iff l k, eq_iff l i, eq_iff k i, deleted_other fs k i (j ∷ js) h)

mutual
  unfolding values_at remove_nested_field

  pub removed_self :
      (v : Value) (k : String) (ks : List String) → values_at (remove_nested_field v k ks) k ks ≡ []
  removed_self (object fs) k [] = deleted_self fs k
  removed_self (object fs) k (j ∷ js) = fields_self fs k j js
  removed_self (list vs) k ks = items_self vs k ks
  removed_self null k ks = refl
  removed_self (bool b) k ks = refl
  removed_self (num n) k ks = refl
  removed_self (str s) k ks = refl

  items_self :
      (vs : Items) (k : String) (ks : List String) → values_of (remove_in_items vs k ks) k ks ≡ []
  items_self nil k ks = refl
  items_self (cons v vs) k ks = rw (removed_self v k ks) (items_self vs k ks)

  fields_self :
      (fs : Fields) (k j : String) (js : List String)
      → values_in (remove_in_fields fs k j js) k (j ∷ js) ≡ []
  fields_self end k j js = refl
  fields_self (field i v fs) k j js = ground (arith, removed_self v j js, fields_self fs k j js)

same_first :
    (l k i : String) (b : Bool)
    → (l == k) ≡ true
    → (l == i) ≡ true
    → (if k == i then b else true) ≡ true
    → b ≡ true
same_first l k i b e f h = ground (arith, eq_iff l k, eq_iff l i, eq_iff k i)

mutual
  unfolding values_at remove_nested_field diverge

  pub removed_other :
      (v : Value) (k : String) (ks : List String) (i : String) (is : List String)
      → diverge (k ∷ ks) (i ∷ is) ≡ true
      → values_at (remove_nested_field v k ks) i is ≡ values_at v i is
  removed_other (object fs) k [] i is h = deleted_other fs k i is (ground arith)
  removed_other (object fs) k (j ∷ js) i is h = fields_other fs k j js i is h
  removed_other (list vs) k ks i is h = items_other vs k ks i is h
  removed_other null k ks i is h = refl
  removed_other (bool b) k ks i is h = refl
  removed_other (num n) k ks i is h = refl
  removed_other (str s) k ks i is h = refl

  items_other :
      (vs : Items) (k : String) (ks : List String) (i : String) (is : List String)
      → diverge (k ∷ ks) (i ∷ is) ≡ true
      → values_of (remove_in_items vs k ks) i is ≡ values_of vs i is
  items_other nil k ks i is h = refl
  items_other (cons v vs) k ks i is h =
      rw (removed_other v k ks i is h, items_other vs k ks i is h) refl

  fields_other :
      (fs : Fields) (k j : String) (js : List String) (i : String) (is : List String)
      → diverge (k ∷ j ∷ js) (i ∷ is) ≡ true
      → values_in (remove_in_fields fs k j js) i is ≡ values_in fs i is
  fields_other end k j js i is h = refl
  fields_other (field l v fs) k j js i [] h =
      ground (arith, eq_iff l k, eq_iff l i, eq_iff k i, fields_other fs k j js i [] h)
  fields_other (field l v fs) k j js i (m ∷ ms) h = elim (Bool-cases (l == k)) [
    | inl same ↦ elim (Bool-cases (l == i)) [
      | inl here ↦ rw (same, here) (removed_other v j js m ms (same_first l k i _ same here h))
      | inr there ↦ rw (same, there) refl
    ]
    | inr other ↦ elim (Bool-cases (l == i)) [
      | inl here ↦ rw (other, here) refl
      | inr there ↦ rw (other, there) (fields_other fs k j js i (m ∷ ms) h)
    ]
  ]

-- A removed path leads to no value, through the elements of lists neither, and a path that parts from it
-- leads to the values that it led to.
pub values_at-remove_nested_field :
    (v : Value) (k : String) (ks : List String)
    → (values_at (remove_nested_field v k ks) k ks ≡ [])
      × ((i : String) (is : List String)
          → diverge (k ∷ ks) (i ∷ is) ≡ true
          → values_at (remove_nested_field v k ks) i is ≡ values_at v i is)
values_at-remove_nested_field v k ks = (removed_self v k ks, removed_other v k ks)

deleted_all :
    (fs : Fields) (k : String) (ks : List String) → values_in (delete_field k fs) k ks ≡ []
unfolding values_in delete_field
deleted_all fs k [] = deleted_self fs k
deleted_all end k (j ∷ js) = refl
deleted_all (field i v fs) k (j ∷ js) = ground (arith, deleted_all fs k (j ∷ js))

deleted_none :
    (fs : Fields) (k i : String) (is : List String)
    → values_in fs i is ≡ []
    → values_in (delete_field k fs) i is ≡ []
deleted_none fs k i is h = elim (Bool-cases (k == i)) [
  | inl same ↦
      let e : k ≡ i = ground (arith, eq_iff k i) in
      subst (λ j. values_in (delete_field k fs) j is ≡ []) e (deleted_all fs k is)
  | inr other ↦ rw (deleted_other fs k i is other) h
]

append_none {ℓ} : {A : Type ℓ} (xs ys : List A) → xs ++ ys ≡ [] → (xs ≡ []) × (ys ≡ [])
append_none [] ys h = (refl, h)
append_none (x ∷ xs) ys h = cc

mutual
  unfolding values_at remove_nested_field

  -- Removing a path adds nothing: what led to no value leads to none.
  pub removed_none :
      (v : Value) (k : String) (ks : List String) (i : String) (is : List String)
      → values_at v i is ≡ []
      → values_at (remove_nested_field v k ks) i is ≡ []
  removed_none (object fs) k [] i is h = deleted_none fs k i is h
  removed_none (object fs) k (j ∷ js) i is h = fields_none fs k j js i is h
  removed_none (list vs) k ks i is h = items_none vs k ks i is h
  removed_none null k ks i is h = h
  removed_none (bool b) k ks i is h = h
  removed_none (num n) k ks i is h = h
  removed_none (str s) k ks i is h = h

  items_none :
      (vs : Items) (k : String) (ks : List String) (i : String) (is : List String)
      → values_of vs i is ≡ []
      → values_of (remove_in_items vs k ks) i is ≡ []
  items_none nil k ks i is h = h
  items_none (cons v vs) k ks i is h =
      let both = append_none (values_at v i is) (values_of vs i is) h in
      rw (removed_none v k ks i is both.0) (items_none vs k ks i is both.1)

  fields_none :
      (fs : Fields) (k j : String) (js : List String) (i : String) (is : List String)
      → values_in fs i is ≡ []
      → values_in (remove_in_fields fs k j js) i is ≡ []
  fields_none end k j js i is h = h
  fields_none (field l v fs) k j js i [] h = elim (Bool-cases (l == i)) [
    | inl here ↦ ground arith
    | inr there ↦ ground (arith, fields_none fs k j js i [] (ground arith))
  ]
  fields_none (field l v fs) k j js i (m ∷ ms) h = elim (Bool-cases (l == i)) [
    | inl here ↦ ground (arith, removed_none v j js m ms (ground arith))
    | inr there ↦ ground (arith, fields_none fs k j js i (m ∷ ms) (ground arith))
  ]

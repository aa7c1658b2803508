-- ===== src/Refs/Nested.antt =====
-- When `ImplicitReplaceFun` of pkg/engine/operation/graph/resource_node.go panics.
use kusion.Base.{
  String, Bool, true, false, Option, none, some, List, [], ◌∷◌, ◌≡◌, refl, arith, Option-cases, inl,
  inr, ◌++◌,
}
use kusion.Control.{panicked}
use kusion.Value.{Value, null, bool, num, str, list, object, get_field}
use kusion.Refs.{walk_path}

-- The value at a path of names through maps.
unfoldable pub value_at : Value → List String → Option Value
value_at v [] = some v
value_at (object fs) (k ∷ ks) = elim (get_field k fs) [ none ↦ none | some w ↦ value_at w ks ]
value_at _ (k ∷ ks) = none

-- A value that is there and is no map.
abbrev pub is_leaf : Value → Bool
is_leaf (object fs) = false
is_leaf null = false
is_leaf _ = true

value_at-null : (ks : List String) (u : Value) → value_at null ks ≡ some u → is_leaf u ≡ false
unfolding value_at
value_at-null [] u e = ground arith
value_at-null (k ∷ ks) u e = cc

-- The walk of an implicit reference panics, and does not return an error, when a part of its path
-- follows on a value that is no map.
pub walk_path-panics :
    (msg : String) (v u : Value) (ks : List String) (j : String) (js : List String)
    → value_at v ks ≡ some u
    → is_leaf u ≡ true
    → walk_path msg v (ks ++ j ∷ js) ≡ panicked "interface conversion"
unfolding value_at walk_path
walk_path-panics msg (object fs) u [] j js e l = ground arith
walk_path-panics msg null u [] j js e l = refl
walk_path-panics msg (bool b) u [] j js e l = refl
walk_path-panics msg (num n) u [] j js e l = refl
walk_path-panics msg (str s) u [] j js e l = refl
walk_path-panics msg (list vs) u [] j js e l = refl
walk_path-panics msg (object fs) u (k ∷ ks) j js e l = elim (Option-cases (get_field k fs)) [
  | inl n ↦ ground arith
  | inr (w, n) ↦ ground (arith, value_at-null ks u, walk_path-panics msg w u ks j js)
]
walk_path-panics msg null u (k ∷ ks) j js e l = cc
walk_path-panics msg (bool b) u (k ∷ ks) j js e l = cc
walk_path-panics msg (num n) u (k ∷ ks) j js e l = cc
walk_path-panics msg (str s) u (k ∷ ks) j js e l = cc
walk_path-panics msg (list vs) u (k ∷ ks) j js e l = cc

-- ===== src/Backend/Merged.antt =====
-- `MergeConfig` and the checks of `BackendFromConfig` of pkg/engine/backend/backend.go.
use kusion.Base.{
  String, Option, none, some, List, [], ◌∷◌, ◌==◌, ◌≡◌, refl, if◌then◌else◌, contains, arith,
  eq_iff,
}
use kusion.Base.GoMap.{GoMap, get, keys, get-set, Visits, contains-visit, contains-keys}
use kusion.Value.{Value}
use kusion.Backend.{set_if, copy_keys, merge_config}

abbrev pub or_else : Option Value → Option Value → Option Value
or_else none o = o
or_else (some v) o = some v

get-set_if :
    (k j : String) (o : Option Value) (m : GoMap Value)
    → get k (set_if j o m) ≡ (if j == k then or_else o (get k m) else get k m)
unfolding set_if
get-set_if k j none m = ground arith
get-set_if k j (some v) m = get-set j k v m

or_else-or_else : (o p : Option Value) → or_else o (or_else o p) ≡ or_else o p
or_else-or_else none p = refl
or_else-or_else (some v) p = refl

get-copy_keys :
    (k : String) (from : GoMap Value) (ks : List String) (m : GoMap Value)
    → get k (copy_keys from ks m)
      ≡ (if contains k ks then or_else (get k from) (get k m) else get k m)
unfolding copy_keys contains
get-copy_keys k from [] m = refl
get-copy_keys k from (j ∷ ks) m = ground (
  arith,
  eq_iff j k,
  get-copy_keys k from ks (set_if j (get j from) m),
  get-set_if k j (get j from) m,
  or_else-or_else (get k from) (get k m),
)

get-copied :
    {visit : List String → List String}
    → Visits visit
    → (k : String) (from m : GoMap Value)
    → get k (copy_keys from (visit (keys from)) m) ≡ or_else (get k from) (get k m)
get-copied {visit} v k from m = ground (
  arith,
  get-copy_keys k from (visit (keys from)) m,
  contains-visit v (keys from) k,
  contains-keys k from,
)

-- In a merged configuration a key has the command line's value, or else the project's, whatever the
-- orders are in which the two maps are ranged over.
pub get-merge_config :
    {visit : List String → List String}
    → Visits visit
    → (k : String) (config override : GoMap Value)
    → get k (merge_config visit config override) ≡ or_else (get k override) (get k config)
unfolding merge_config get
get-merge_config {visit} v k config override = ground (
  arith,
  get-copied v k override (copy_keys config (visit (keys config)) []),
  get-copied v k config [],
)

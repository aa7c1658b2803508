-- ===== src/Base/GoMap.antt =====
-- Go's maps with text keys. An entry that is set again keeps its place. Where the source ranges
-- over a map, the order is the runtime's choice: see `Visits`.
use Prim.Native.String.{String}
use mathlib.Core.Path.{◌≡◌, refl}
use mathlib.Core.Bool.{not}
use mathlib.Core.Option.{Option, none, some}
use mathlib.Core.List.{List, [], ◌∷◌}
use native.Mathlib.Omega.{arith}
use text.Mathlib.Text.{◌==◌}
use text.Mathlib.TextEquality.{eq_iff}
use kusion.Base.Tests.{if◌then◌else◌, is_nil, ltb}
use kusion.Base.Lists.{contains, count}

abbrev pub GoMap {ℓ} : Type ℓ → Type ℓ
GoMap V = List (String × V)

module _ {ℓ} {V : Type ℓ} where
  unfoldable pub get : String → GoMap V → Option V
  get k [] = none
  get k ((j, v) ∷ m) = if j == k then some v else get k m

  unfoldable pub set : String → V → GoMap V → GoMap V
  set k v [] = (k, v) ∷ []
  set k v ((j, w) ∷ m) = if j == k then (k, v) ∷ m else (j, w) ∷ set k v m

  unfoldable pub delete : String → GoMap V → GoMap V
  delete k [] = []
  delete k ((j, w) ∷ m) = let rest = delete k m in if j == k then rest else (j, w) ∷ rest

  unfoldable pub keys : GoMap V → List String
  keys [] = []
  keys ((j, v) ∷ m) = j ∷ keys m

  pub get-set :
      (k j : String) (v : V) (m : GoMap V)
      → get j (set k v m) ≡ (if k == j then some v else get j m)
  unfolding get set
  get-set k j v [] = refl
  get-set k j v ((i, w) ∷ m) = ground (arith, eq_iff k j, eq_iff i k, eq_iff i j, get-set k j v m)

  pub get-delete :
      (k j : String) (m : GoMap V) → get j (delete k m) ≡ (if k == j then none else get j m)
  unfolding get delete
  get-delete k j [] = ground arith
  get-delete k j ((i, w) ∷ m) = ground (arith, eq_iff k j, eq_iff i k, eq_iff i j, get-delete k j m)

  pub contains-keys : (k : String) (m : GoMap V) → contains k (keys m) ≡ not (is_nil (get k m))
  unfolding contains keys get
  contains-keys k [] = refl
  contains-keys k ((j, v) ∷ m) = ground (arith, contains-keys k m)

-- A map of pointers: a missing key and a nil pointer read alike.
abbrev pub deref {ℓ} : {V : Type ℓ} → Option (Option V) → Option V
deref none = none
deref (some p) = p

-- The order in which `range` visits the keys of a map: any order of them.
pub record Visits (visit : List String → List String) : Type 0 where
  pub each : (ks : List String) (k : String) → count k (visit ks) ≡ count k ks

pub contains-count : (k : String) (ks : List String) → contains k ks ≡ ltb 0 (count k ks)
unfolding contains count
contains-count k [] = refl
contains-count k (j ∷ js) = ground (arith, contains-count k js)

pub contains-visit :
    {visit : List String → List String}
    → Visits visit
    → (ks : List String) (k : String) → contains k (visit ks) ≡ contains k ks
contains-visit {visit} v ks k = cc (contains-count k (visit ks), contains-count k ks, v.each ks k)

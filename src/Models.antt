-- ===== src/Models.antt =====
-- pkg/engine/models: resources, their index by key, and the order of resources.
use Prim.Native.Nat.{Ordering}
use Prim.Native.String.{compare}
use kusion.Base.{
  String, Bool, true, false, Option, none, some, List, [], ◌∷◌, ◌==◌, ◌≡◌, refl, if◌then◌else◌, ap,
  ◌∙◌,
}
use kusion.Base.GoMap.{GoMap, get, set, get-set}
use kusion.Value.{Fields}

pub record Resource : Type 0 where
  pub id : String
  pub type : String
  -- a nil map is `none`
  pub attributes : Option Fields
  pub depends_on : List String
  pub extensions : Option Fields

abbrev pub resource_key : Resource → String
resource_key r = r.id

-- A nil `Resources` is `none`.
pub record Spec : Type 0 where
  pub resources : Option (List Resource)

-- `range` over a nil slice makes no round
abbrev pub listed : Option (List Resource) → List Resource
listed none = []
listed (some rs) = rs

-- the loop of `Index`: a later resource with the same key replaces the earlier one
unfoldable pub index_from : GoMap Resource → List Resource → GoMap Resource
index_from m [] = m
index_from m (r ∷ rs) = index_from (set (resource_key r) r m) rs

unfoldable pub index : List Resource → GoMap Resource
unfolding index_from
index rs = index_from [] rs

-- `Less` of the sort.Interface
unfoldable pub less : Resource → Resource → Bool
less a b =
    if a.id == b.id then false else elim (compare a.id b.id) [ Ordering.lt ↦ true | _ ↦ false ]

-- The last resource of a list with a key.
unfoldable pub last_with : String → List Resource → Option Resource → Option Resource
last_with k [] found = found
last_with k (r ∷ rs) found = last_with k rs (if resource_key r == k then some r else found)

pub get-index_from :
    (k : String) (m : GoMap Resource) (rs : List Resource)
    → get k (index_from m rs) ≡ last_with k rs (get k m)
unfolding index_from last_with
get-index_from k m [] = refl
get-index_from k m (r ∷ rs) =
    get-index_from k (set r.id r m) rs ∙ ap (last_with k rs) (get-set r.id k r m)

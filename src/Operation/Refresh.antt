-- ===== src/Operation/Refresh.antt =====
-- What refreshing the index of one resource keeps.
use kusion.Base.{String, Option, none, some, ◌≡◌, arith, eq_iff}
use kusion.Base.GoMap.{GoMap, get, deref, get-set}
use kusion.Models.{Resource}
use kusion.Change.{ActionType, undefined, delete}
use kusion.Operation.{Operation, refresh_resource_index}

-- What an action leaves under a resource's key.
abbrev pub outcome_of : ActionType → Option Resource → Option Resource
outcome_of delete r = none
outcome_of _ r = r

-- Every index entry is under its resource's own key.
abbrev pub IsKeyed : GoMap (Option Resource) → Type 0
IsKeyed idx = (k : String) (r : Resource) → deref (get k idx) ≡ some r → r.id ≡ k

-- A refresh with a resource of that key keeps the index keyed, whatever the action.
pub refresh_resource_index-IsKeyed :
    (key : String) (r : Option Resource) (a : ActionType) (o : Operation)
    → ((s : Resource) → r ≡ some s → s.id ≡ key)
    → IsKeyed o.state_resource_index
    → IsKeyed (refresh_resource_index key r a o).1.state_resource_index
unfolding refresh_resource_index
refresh_resource_index-IsKeyed key r undefined o own h k s e = h k s e
refresh_resource_index-IsKeyed key r a o own h k s e =
    ground
      (arith, get-set key k (outcome_of a r) o.state_resource_index, eq_iff key k, own s, h k s)

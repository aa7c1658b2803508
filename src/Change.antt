-- ===== src/Change.antt =====
-- pkg/engine/operation/models/operation_type.go, action.go and change.go, and the counters of
-- pkg/cmd/apply/options.go: the actions on resources, and the order of a preview's changes.
pub mod Order
pub mod Summary
use kusion.Base.{
  ℕ, suc, ◌+◌, String, Bool, true, false, Option, none, some, List, [], ◌∷◌, ◌++◌, ◌==◌, ◌≡◌, refl,
  arith, if◌then◌else◌, length, map,
}
use kusion.Base.Text.{◌<>◌}
use kusion.Base.GoMap.{GoMap, get, set, keys}
use kusion.Control.{Outcome, ok, failed, panicked, ◌>>=◌}
use kusion.Models.{Resource}

pub data OperationType : Type 0 where
  undefined_operation apply apply_preview destroy destroy_preview : OperationType

pub data ActionType : Type 0 where
  undefined un_change create update delete : ActionType

unfoldable pub action_string : ActionType → String
action_string undefined = "Undefined"
action_string un_change = "UnChange"
action_string create = "Create"
action_string update = "Update"
action_string delete = "Delete"

unfoldable pub ing : ActionType → String
ing create = "Creating"
ing update = "Updating"
ing delete = "Deleting"
ing _ = "Unchanged"

-- `c.Action == a`
abbrev pub is_action : ActionType → ActionType → Bool
is_action undefined undefined = true
is_action un_change un_change = true
is_action create create = true
is_action update update = true
is_action delete delete = true
is_action _ _ = false

pub record ChangeStep : Type 0 where
  pub id : String
  pub action : ActionType
  pub from : Option Resource
  pub to : Option Resource

abbrev pub new_change_step : String → ActionType → Option Resource → Option Resource → ChangeStep
new_change_step id op from to = record { id = id; action = op; from = from; to = to }

-- The filters `CreateChangeStepFilter` and so on.
abbrev pub change_step_filter : ActionType → ChangeStep → Bool
change_step_filter a c = is_action c.action a

pub record ChangeOrder : Type 0 where
  pub step_keys : List String
  -- a nil map is `none`
  pub change_steps : Option (GoMap ChangeStep)

abbrev pub steps_of : ChangeOrder → GoMap ChangeStep
steps_of o = elim o.change_steps [ none ↦ [] | some m ↦ m ]

unfoldable pub get_step : ChangeOrder → String → Option ChangeStep
get_step o key = get key (steps_of o)

-- The inner loop of `Values`: whether no filter stops it. A filter reads `c.Action`, which
-- panics on a nil step.
unfoldable pub passes : List (ChangeStep → Bool) → Option ChangeStep → Outcome Bool
passes [] v = ok true
passes (f ∷ fs) none = panicked "nil pointer dereference"
passes (f ∷ fs) (some c) = let rest = passes fs (some c) in if f c then rest else ok false

abbrev keep_if {ℓ} : {A : Type ℓ} → Bool → A → List A → List A
keep_if true v vs = v ∷ vs
keep_if false v vs = vs

values_from :
    ChangeOrder → List (ChangeStep → Bool) → List String → Outcome (List (Option ChangeStep))
unfolding passes get_step
values_from o filters [] = ok []
values_from o filters (key ∷ rest) = do
  keep ← passes filters (get_step o key)
  vs ← values_from o filters rest
  ok (keep_if keep (get_step o key) vs)

unfoldable pub values : ChangeOrder → List (ChangeStep → Bool) → Outcome (List (Option ChangeStep))
unfolding values_from
values o filters = values_from o filters o.step_keys

-- The loop of `AllUnChange`, also that of `allUnChange` in the apply command, over the map's
-- keys in the order `range` takes.
all_un_change_from : GoMap ChangeStep → List String → Bool
all_un_change_from steps [] = true
all_un_change_from steps (k ∷ ks) = elim (get k steps) [
  | none ↦ all_un_change_from steps ks
  | some v ↦ if is_action v.action un_change then all_un_change_from steps ks else false
]

unfoldable pub all_un_change : (List String → List String) → ChangeOrder → Bool
unfolding all_un_change_from keys
all_un_change visit o = all_un_change_from (steps_of o) (visit (keys (steps_of o)))

-- Counters of the apply command.
pub record LineSummary : Type 0 where
  pub created : ℕ
  pub updated : ℕ
  pub deleted : ℕ

unfoldable pub count_line : LineSummary → ActionType → LineSummary
count_line ls create = record ls { created = ls.created + 1 }
count_line ls update = record ls { updated = ls.updated + 1 }
count_line ls delete = record ls { deleted = ls.deleted + 1 }
count_line ls _ = ls

-- The update under the lock in `updateChangeOrder` of graph/resource_node.go. An operation
-- with no order gets a fresh one that is local to the call, so it stays without.
unfoldable pub record_step :
    String
    → ActionType
    → Option Resource
    → Option Resource
    → Option ChangeOrder
    → Option ChangeOrder
record_step id action plan live none = none
record_step id action plan live (some o) = some (record {
  step_keys = o.step_keys ++ id ∷ [];
  change_steps = some (set id (new_change_step id action plan live) (steps_of o));
})

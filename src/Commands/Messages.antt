-- ===== src/Commands/Messages.antt =====
-- The goroutines of pkg/cmd/apply/options.go and destroy/options.go that receive the messages of an
-- operation, up to the closing of the channel, and count. A message that names no step is a nil pointer
-- in every case of the switch, and the panic ends the receiver.
use kusion.Base.{ℕ, ◌+◌, none, some, List, [], ◌∷◌, ◌≡◌, refl, ◌∙◌, arith}
use kusion.Base.GoMap.{GoMap, get}
use kusion.Control.{nil_dereference}
use kusion.Models.{Resource, resource_key}
use kusion.Change.{ActionType, ChangeStep, LineSummary, count_line}
use kusion.Change.Summary.{count_lines}
use kusion.Operation.{OpResult, started, success, failed_result, skip, Message}
use kusion.Machine.{Attempt, returned, panics}

counted : OpResult → ActionType → LineSummary → LineSummary
counted success action ls = count_line ls action
counted skip action ls = count_line ls action
counted failed_result action ls = ls
counted started action ls = ls

unfoldable pub receive : GoMap ChangeStep → List Message → LineSummary → Attempt LineSummary
unfolding counted
receive steps [] ls = returned ls
receive steps (m ∷ ms) ls = elim (get m.resource_id steps) [
  | none ↦ panics nil_dereference
  | some step ↦ receive steps ms (counted m.op_result step.action ls)
]

-- the messages of a dry run, which are those of a success of every planned resource
unfoldable pub dry_run_messages : List Resource → List Message
dry_run_messages [] = []
dry_run_messages (r ∷ rs) =
    record { resource_id = resource_key r; op_result = success } ∷ dry_run_messages rs

counted_deleted : OpResult → ℕ → ℕ
counted_deleted success deleted = deleted + 1
counted_deleted skip deleted = deleted + 1
counted_deleted failed_result deleted = deleted
counted_deleted started deleted = deleted

unfoldable pub receive_deleted : GoMap ChangeStep → List Message → ℕ → Attempt ℕ
unfolding counted_deleted
receive_deleted steps [] deleted = returned deleted
receive_deleted steps (m ∷ ms) deleted = elim (get m.resource_id steps) [
  | none ↦ panics nil_dereference
  | some step ↦ receive_deleted steps ms (counted_deleted m.op_result deleted)
]

receive-step :
    (steps : GoMap ChangeStep) (m : Message) (ms : List Message) (ls : LineSummary)
    (step : ChangeStep)
    → get m.resource_id steps ≡ some step
    → receive steps (m ∷ ms) ls ≡ receive steps ms (counted m.op_result step.action ls)
unfolding receive
receive-step steps m ms ls step found = ground arith

-- The steps of a list of resources, in their order
abbrev AreSteps : GoMap ChangeStep → List Resource → List ActionType → Type 0
AreSteps steps [] [] = Unit
AreSteps steps (r ∷ rs) (a ∷ as') =
    ((step : ChangeStep) × (get (resource_key r) steps ≡ some step) × (step.action ≡ a))
    × AreSteps steps rs as'
AreSteps steps rs as' = ⊥

-- A dry run counts the action of each planned resource, where each has a step.
dry_run-counts :
    (steps : GoMap ChangeStep) (rs : List Resource) (actions : List ActionType) (ls : LineSummary)
    → AreSteps steps rs actions
    → receive steps (dry_run_messages rs) ls ≡ returned (count_lines ls actions)
unfolding receive dry_run_messages count_lines counted
dry_run-counts steps [] [] ls s = refl
dry_run-counts steps [] (a ∷ as') ls s = absurd s
dry_run-counts steps (r ∷ rs) [] ls s = absurd s
dry_run-counts steps (r ∷ rs) (a ∷ as') ls ((step, found, same), s) =
    receive-step steps (record { resource_id = resource_key r; op_result = success })
      (dry_run_messages rs) ls step found
    ∙ rw same (dry_run-counts steps rs as' (count_line ls a) s)

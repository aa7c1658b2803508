-- ===== src/Examples/Nodes.antt =====
-- The execution of a node, and the saving of the state, at the small project.
use kusion.Base.{String, Option, none, some, [], ◌∷◌, ◌≡◌, inl, refl, arith, eq_iff}
use kusion.Base.Text.{split}
use kusion.Value.{end, delete_field}
use kusion.Base.GoMap.{GoMap, get, deref}
use kusion.Control.{ok, Result, value}
use kusion.Models.{Resource, listed}
use kusion.Change.{apply, apply_preview, update, undefined}
use kusion.Refs.{replace_fields, replace_implicit, replace_secret}
use kusion.Models.{index}
use kusion.States.{new_state, State}
use kusion.Operation.{Operation, next_state, update_state}
use kusion.Operation.Refresh.{IsKeyed}
use kusion.Operation.Saved.{update_state-reads_back}
use kusion.Node.{Run, ThreeWay, pre_execute, execute_rest, execute, compute_action_type}
use kusion.Node.Planning.{Fits, compute_action_type-Fits}
use kusion.Node.Previewing.{SurvivesDryRun, execute-preview_is_dry}
use kusion.Node.Keyed.{IsReady}
use kusion.Node.Applying.{IsSound, IsSaved, execute-IsSaved}
use kusion.Examples.Data.{
  db, memory-IsSaving, in_order-Visits, echo-IsHonest, engine, operation, run, nothing-IsKeyed,
  World, in_order, memory, echo,
}

engine-IsSound : IsSound engine
engine-IsSound = record {
  honest = λ t rt e. ground (arith, echo-IsHonest);
  saving = memory-IsSaving;
  visits = in_order-Visits;
}

apply-IsReady : IsReady (operation apply)
unfolding get
apply-IsReady = record { real = inl refl; prior = λ k r e. ground arith; state = nothing-IsKeyed }

abbrev applied : Run World
applied = (execute engine (run apply update db)).1

db_executes : execute engine (run apply update db) ≡ (ok tt, applied)
unfolding execute pre_execute replace_fields replace_implicit replace_secret execute_rest get
db_executes = refl

execute-IsSaved_example : IsSaved engine applied
execute-IsSaved_example =
    execute-IsSaved engine (run apply update db) applied engine-IsSound apply-IsReady db_executes

-- an index with one live resource and a deleted one
abbrev db_index : GoMap (Option Resource)
db_index = ("web", none) ∷ ("db", some db) ∷ []

db_index-IsKeyed : IsKeyed db_index
unfolding get
db_index-IsKeyed k r e = ground (arith, eq_iff "web" k, eq_iff "db" k)

abbrev holding : Operation
holding = record (operation apply) { state_resource_index = db_index }

abbrev saved : Operation
saved = record holding { result_state = next_state in_order db_index (new_state "v1") }

db_updates :
    update_state memory in_order holding none
    ≡ (value tt, saved, some (next_state in_order db_index (new_state "v1")))
unfolding update_state
db_updates = refl

update_state-reads_back_example :
    (◌≡◌ {A = Result (Option State)}
      (value (some saved.result_state))
      (value (some saved.result_state)))
    × ((k : String) → get k (index (listed saved.result_state.resources)) ≡ deref (get k db_index))
update_state-reads_back_example =
    update_state-reads_back memory-IsSaving in_order-Visits holding saved none
      (some saved.result_state) db_index-IsKeyed db_updates

abbrev three : ThreeWay
three = (some db, some db, some db)

-- the host is ignored
abbrev ignoring : Run World
ignoring =
    let r = run apply undefined db in record r { op = record r.op { ignore_fields = "host" ∷ [] } }

abbrev without_host : Resource
without_host = record db { attributes = some end }

abbrev computed : Run World
computed = (compute_action_type engine three ignoring).1

db_computes :
    compute_action_type engine three ignoring
    ≡ (ok (some without_host, some without_host), computed)
unfolding compute_action_type split delete_field
db_computes = refl

compute_action_type-Fits_example :
    Fits engine apply three ignoring (some without_host, some without_host) computed.node.action
compute_action_type-Fits_example =
    compute_action_type-Fits engine three ignoring computed (some without_host, some without_host)
      db_computes

-- nothing is recorded
abbrev IsEmpty : World → Type 0
IsEmpty w = w ≡ none

echo-SurvivesDryRun : SurvivesDryRun IsEmpty echo
echo-SurvivesDryRun = record { read = λ request w h. h; dry_run = λ request w d h. h }

execute-preview_is_dry_example :
    ((execute engine (run apply_preview update db)).1.world ≡ none)
    × ((execute engine (run apply_preview update db)).1.op.result_state ≡ new_state "v1")
execute-preview_is_dry_example =
    execute-preview_is_dry IsEmpty engine (run apply_preview update db)
      (λ t rt e. ground (arith, echo-SurvivesDryRun)) (inl refl) refl

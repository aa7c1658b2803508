-- ===== src/Commands/Reading.antt =====
-- What the commands of pkg/cmd rely on, and what their steps keep.
use kusion.Base.{String, Option, none, some, ◌≡◌, refl}
use kusion.Control.{Outcome, ok, failed, panicked, Result, value, error}
use kusion.Change.{ChangeOrder}
use kusion.Models.{Spec}
use kusion.States.{State, StateQuery, StateStorage}
use kusion.Runtime.{Stack}
use kusion.Operations.Dry.{OnlyCalls, SurvivesPreview}
use kusion.Status.{Status}
use kusion.Vals.{SecretStores}
use kusion.Projects.{Project}
use kusion.Machine.{Task, Leaves, ◌>>=◌}
use kusion.Commands.{Shell, attempt, answered, unless_failing, changes_of, found_state, generated}
use kusion.Commands.Running.{storage_of}

-- `Q` is kept by what a command does before it asks: compiling the spec, reading the recorded state, and
-- previewing over any storage that the project's backend may be.
pub record SurvivesReading {W G : Type 0} (Q : W → Type 0) (sh : Shell W G) : Type 1 where
  pub generated :
      (project : Project) (stack : Stack) (w : W) → Q w → Q (sh.generate project stack w).1
  pub latest :
      (project : Project) (storage : StateStorage W) (q : StateQuery) (w : W)
      → storage_of sh project ≡ value storage
      → Q w
      → Q (storage.get_latest_state q w).1
  pub walks :
      (project : Project) (storage : StateStorage W) (stores : Option SecretStores)
      → storage_of sh project ≡ value storage
      → OnlyCalls (sh.engine storage stores)
  pub previewed :
      (project : Project) (storage : StateStorage W) (stores : Option SecretStores)
      → storage_of sh project ≡ value storage
      → SurvivesPreview Q (sh.engine storage stores)

module _ {W : Type 0} (Q : W → Type 0) where
  pub attempt-Leaves :
      {A B : Type 0} (r : Result A) (next : A → Task W B)
      → ((a : A) → r ≡ value a → Leaves Q (next a))
      → Leaves Q (attempt r >>= next)
  unfolding attempt
  attempt-Leaves (error e) next k = record { at = λ w h. h }
  attempt-Leaves (value a) next k = k a refl

  pub answered-Q :
      {A : Type 0} (what : String) (status_text : Status → String) (r : Outcome A × W)
      → Q r.1
      → Q (answered what status_text r).1
  unfolding answered
  answered-Q what t (ok a, w) h = h
  answered-Q what t (failed s, w) h = h
  answered-Q what t (panicked p, w) h = h

  pub unless_failing-Leaves : (e : Option String) → Leaves Q (unless_failing e)
  unfolding unless_failing
  unless_failing-Leaves none = record { at = λ w h. h }
  unless_failing-Leaves (some e) = record { at = λ w h. h }

  pub changes_of-Leaves : (order : Option ChangeOrder) → Leaves Q (changes_of order)
  unfolding changes_of
  changes_of-Leaves none = record { at = λ w h. h }
  changes_of-Leaves (some order) = record { at = λ w h. h }

  pub found_state-Q : (r : Result (Option State) × W) → Q r.1 → Q (found_state r).1
  unfolding found_state
  found_state-Q (value (some s), w) h = h
  found_state-Q (value none, w) h = h
  found_state-Q (error e, w) h = h

  pub generated-Q : (r : Result (Option Spec) × W) → Q r.1 → Q (generated r).1
  unfolding generated
  generated-Q (value sp, w) h = h
  generated-Q (error e, w) h = h

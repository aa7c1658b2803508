-- ===== src/Commands.antt =====
-- pkg/cmd/apply/options.go, destroy/options.go and preview/options.go: the commands, as they put the
-- search for the project, the backend and the operations together. What is printed is left out. The
-- compiler of specs, the progress bar and the watch operation are parameters, and so is the terminal,
-- as the list of the answers that its prompts get.
pub mod Running
pub mod Reading
pub mod Messages
pub mod Unconfirmed
use kusion.Base.{
  ℕ, String, Bool, true, false, not, ◌&&◌, Option, none, some, List, [], ◌∷◌, ◌==◌, length, is_nil,
  if◌then◌else◌,
}
use kusion.Base.Text.{◌<>◌, split, has_prefix}
use kusion.Base.GoMap.{get}
use kusion.Status.{Status}
use kusion.Control.{Outcome, ok, failed, panicked, Result, value, error, nil_dereference}
use kusion.Models.{Resource, Spec, listed, resource_key}
use kusion.Change.{
  OperationType, undefined_operation, apply_preview, destroy_preview, ChangeOrder, ChangeStep,
  steps_of, all_un_change, is_action, un_change,
}
use kusion.States.{State, StateQuery, StateStorage}
use kusion.Runtime.{Stack}
use kusion.Operation.{Operation, Request}
use kusion.Operations.{Setup, preview, apply_spec, destroy_all}
use kusion.Backend.{Backend, BackendOps, backend_from_config}
use kusion.Vals.{SecretStores, is_valid}
use kusion.Projects.{Tree, Project, detect_project_and_stack}
use kusion.Machine.{Attempt, returned, errs, panics, Task, give, fail, panic, ◌>>=◌, ◌>>◌}

-- What the commands are run with. `engine` is the engine over a storage and the secret stores.
pub record Shell (W G : Type 0) : Type 0 where
  pub tree : Tree
  pub work_dir : String
  pub visit : List String → List String
  pub get_backend : String → Option (Backend (StateStorage W))
  pub backend_ops : BackendOps
  pub engine : StateStorage W → Option SecretStores → Setup W G
  pub generate : Project → Stack → W → Result (Option Spec) × W
  pub progress_error : ℕ → Option String
  pub watch : Request → W → Option String × W
  pub status_text : Status → String
  pub marshal_error : ChangeOrder → Option String
  pub answers : List (Result String)

pub record Flags : Type 0 where
  pub operator : String
  pub detail : Bool
  pub all : Bool
  pub yes : Bool
  pub dry_run : Bool
  pub watch : Bool
  pub output : String
  pub ignore_fields : List String
  pub arguments : List String

second_part : List String → String → String
second_part (a ∷ b ∷ rest) cluster = b
second_part parts cluster = cluster

-- `ParseClusterArgument`: the last one counts, up to a second `=`
unfoldable pub parse_cluster_from : String → List String → String
unfolding second_part split has_prefix
parse_cluster_from cluster [] = cluster
parse_cluster_from cluster (a ∷ as') =
    let skipped = parse_cluster_from cluster as' in
    let set = parse_cluster_from (second_part (split b'=' a) cluster) as' in
    if has_prefix a "cluster=" then set else skipped

unfoldable pub parse_cluster_argument : List String → String
unfolding parse_cluster_from
parse_cluster_argument args = parse_cluster_from "" args

-- The prompt of a command, and behind "details" the prompt of `PromptDetails`, over the answers that
-- are left. At their end the prompt fails.
unfoldable pub ask : Bool → List (Result String) → Result Bool
ask details [] = error "EOF"
ask details (error e ∷ rest) = error e
ask true (value target ∷ rest) = ask false rest
ask false (value input ∷ rest) =
    let again = ask true rest in
    if input == "yes" then value true else if input == "details" then again else value false

-- whether an operation goes on, where it asks unless `--yes` is given
unfoldable pub confirm : Bool → List (Result String) → Result Bool
unfolding ask
confirm true answers = value true
confirm false answers = ask false answers

-- The loop of the preview command over the answers of `PromptDetails`, up to "cancel", which is the empty
-- target: its error.
unfoldable pub browse : List (Result String) → Option String
browse [] = some "EOF"
browse (error e ∷ rest) = some e
browse (value target ∷ rest) = let again = browse rest in if target == "" then none else again

-- the fields of an operation that are not set are those of its zero value
zero_state : State
zero_state = record {
  id = 0;
  tenant = "";
  project = "";
  stack = "";
  cluster = "";
  version = 0;
  kusion_version = "";
  serial = 0;
  operator = "";
  resources = none;
  create_time = 0;
  modified_time = 0;
}

unfoldable pub new_operation : OperationType → Stack → List String → Option ChangeOrder → Operation
unfolding zero_state
new_operation ty stack ignored order = record {
  operation_type = ty;
  ctx_resource_index = [];
  prior_state_resource_index = [];
  state_resource_index = [];
  ignore_fields = ignored;
  change_order = order;
  stack = stack;
  messages = [];
  result_state = zero_state;
}

abbrev pub no_changes : ChangeOrder
no_changes = record { step_keys = []; change_steps = some [] }

module _ {W : Type 0} where
  unfoldable pub attempt : {A : Type 0} → Result A → Task W A
  attempt (value a) = give a
  attempt (error e) = fail e

  -- a status of an operation as the error of a command
  unfoldable pub answered :
      {A : Type 0} → String → (Status → String) → Outcome A × W → Attempt A × W
  answered what status_text (ok a, w) = (returned a, w)
  answered what status_text (failed s, w) = (errs (what <> status_text s), w)
  answered what status_text (panicked p, w) = (panics p, w)

  unfoldable pub unless_failing : Option String → Task W (Unit {0})
  unless_failing none = give tt
  unless_failing (some e) = fail e

  -- `opsmodels.NewChanges`, whose order the next line reads
  unfoldable pub changes_of : Option ChangeOrder → Task W ChangeOrder
  changes_of none = panic nil_dereference
  changes_of (some order) = give order

  -- The state that is to be destroyed; any error is answered in the same words.
  unfoldable pub found_state : Result (Option State) × W → Attempt State × W
  found_state (value (some s), w) = (returned s, w)
  found_state (value none, w) = (errs "can not find State in this stack", w)
  found_state (error e, w) = (errs "can not find State in this stack", w)

  unfoldable pub generated : Result (Option Spec) × W → Attempt (Option Spec) × W
  generated (value sp, w) = (returned sp, w)
  generated (error e, w) = (errs e, w)

  unfoldable pub watched : Option String × W → Attempt (Unit {0}) × W
  watched (none, w) = (returned tt, w)
  watched (some e, w) = (errs e, w)

-- ===== src/Examples/Run.antt =====
-- The commands in the project of Examples/Directories, over the engine of Examples/Touching.
use mathlib.Core.Path.{subst}
use kusion.Base.{String, true, false, none, some, List, [], ◌∷◌, ◌≡◌, refl, sym, ◌∙◌}
use kusion.Control.{value}
use kusion.States.{StateStorage, new_state}
use kusion.Backend.{
  Backend, valid_backend_config, parse_options, configured, unless_error, backend_from_config,
}
use kusion.Operations.Dry.{SurvivesPreview}
use kusion.Projects.{Project}
use kusion.Graph.ListDag.{ListGraph}
use kusion.Cluster.{SurvivesQueries}
use kusion.Runtimes.Supported.{supported-SurvivesPreview}
use kusion.Operation.{init_states}
use kusion.Commands.{Shell, Flags, confirm}
use kusion.Commands.Running.{storage_of, apply_run, destroy_run}
use kusion.Commands.Reading.{SurvivesReading}
use kusion.Commands.Unconfirmed.{destroy_run-only_previews, apply_run-only_previews}
use kusion.Examples.Data.{World, in_order, memory, db}
use kusion.Examples.Directories.{tree}
use kusion.Examples.Touching.{
  connect, machine, setup, walk-keeps, cluster, value_inj, IsStill, cluster-SurvivesQueries,
  machine-SurvivesLocal,
}

abbrev in_memory : Backend (StateStorage World)
in_memory = record {
  has_attribute = λ name. true;
  to_cty = λ config. none;
  configure = λ config. value memory;
}

-- someone who looks at the differences and says no
abbrev shell : Shell World ListGraph
shell = record {
  tree = tree;
  work_dir = "/shop/dev";
  visit = in_order;
  get_backend = λ type. some in_memory;
  backend_ops = record { config = none; type = "" };
  engine = λ storage stores. record setup { storage = storage };
  generate = λ project stack w. (value (some (record { resources = some (db ∷ []) })), w);
  progress_error = λ steps. none;
  watch = λ request w. (none, w);
  status_text = λ s. "";
  marshal_error = λ order. none;
  answers = value "details" ∷ value "all" ∷ value "no" ∷ [];
}

abbrev flags : Flags
flags = record {
  operator = "";
  detail = false;
  all = false;
  yes = false;
  dry_run = false;
  watch = false;
  output = "";
  ignore_fields = [];
  arguments = [];
}

abbrev recorded : World
recorded = some (record (new_state "v1") { resources = some (db ∷ []) })

all_valid : (ks : List String) → valid_backend_config in_order (λ name. true) ks ≡ none
unfolding valid_backend_config
all_valid [] = refl
all_valid (k ∷ ks) = all_valid ks

storage_inj : (a b : StateStorage World) → value a ≡ value b → a ≡ b
storage_inj a b e = cc

-- Whatever the project configures, its states are kept in memory.
in_memory_storage : (project : Project) → storage_of shell project ≡ value memory
unfolding storage_of backend_from_config parse_options configured unless_error
in_memory_storage project = rw all_valid refl

is_memory :
    (project : Project) (storage : StateStorage World)
    → storage_of shell project ≡ value storage
    → memory ≡ storage
is_memory project storage e = storage_inj memory storage (sym (in_memory_storage project) ∙ e)

module _ (start : World) where
  shell-SurvivesReading : SurvivesReading (IsStill start) shell
  unfolding init_states
  shell-SurvivesReading = record {
    generated = λ project stack w h. h;
    latest = λ project storage q w e h.
        subst (λ st. IsStill start (StateStorage.get_latest_state st q w).1)
          (is_memory project storage e) h;
    walks = λ project storage stores e. record { keeps = walk-keeps };
    previewed = λ project storage stores e.
        subst (λ st. SurvivesPreview (IsStill start) (shell.engine st stores))
          (is_memory project storage e)
          (supported-SurvivesPreview connect machine (IsStill start) setup refl (λ q v h. h)
            (λ v c k.
              subst (SurvivesQueries (IsStill start)) (value_inj cluster c k)
                (cluster-SurvivesQueries start))
            (machine-SurvivesLocal start));
  }

refuses : confirm false shell.answers ≡ value true → false ≡ true
unfolding confirm
refuses h = cc

destroy_run-only_previews_example : (destroy_run shell flags recorded).1 ≡ recorded
destroy_run-only_previews_example =
    destroy_run-only_previews (IsStill recorded) shell flags (shell-SurvivesReading recorded)
      refuses recorded refl

apply_run-only_previews_example : (apply_run shell flags none).1 ≡ none
apply_run-only_previews_example =
    apply_run-only_previews (IsStill none) shell flags (shell-SurvivesReading none) refuses none
      refl

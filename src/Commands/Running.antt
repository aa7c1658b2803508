-- ===== src/Commands/Running.antt =====
-- `Run` of pkg/cmd/apply/options.go, destroy/options.go and preview/options.go.
use kusion.Base.{
  String, Bool, true, false, not, ◌&&◌, Option, none, some, List, [], ◌∷◌, ◌==◌, length,
  if◌then◌else◌,
}
use kusion.Base.GoMap.{GoMap, get}
use kusion.Control.{Result, nil_dereference}
use kusion.Models.{Resource, Spec, listed, resource_key}
use kusion.Change.{
  undefined_operation, apply_preview, destroy_preview, ChangeOrder, ChangeStep, steps_of,
  all_un_change, is_action, un_change,
}
use kusion.States.{State, StateQuery, StateStorage}
use kusion.Runtime.{Stack}
use kusion.Operation.{Request}
use kusion.Operations.{preview, apply_spec, destroy_all}
use kusion.Backend.{backend_from_config}
use kusion.Vals.{is_valid}
use kusion.Projects.{Project, detect_project_and_stack}
use kusion.Machine.{Attempt, returned, errs, panics, Task, give, fail, ◌>>=◌, ◌>>◌}
use kusion.Commands.{
  Shell, Flags, parse_cluster_argument, confirm, new_operation, no_changes, attempt, answered,
  unless_failing, changes_of, found_state, generated, watched, browse,
}

abbrev json_output : String
json_output = "json"

unfoldable pub no_resources : Option (List Resource) → Bool
no_resources none = true
no_resources (some []) = true
no_resources (some (r ∷ rs)) = false

unfoldable pub no_resources_in : Option Spec → Bool
unfolding no_resources
no_resources_in none = true
no_resources_in (some sp) = no_resources sp.resources

-- the resources whose step changes something; a resource without a step is a nil pointer
unfoldable pub to_be_watched : GoMap ChangeStep → List Resource → Attempt (List Resource)
to_be_watched steps [] = returned []
to_be_watched steps (r ∷ rs) =
    let rest = to_be_watched steps rs in
    elim (get (resource_key r) steps) [
      | none ↦ panics nil_dereference
      | some v ↦
          if is_action v.action un_change
          then rest
          else elim rest [ returned xs ↦ returned (r ∷ xs) | errs e ↦ errs e | panics p ↦ panics p ]
    ]

module _ {W : Type 0} where
  -- what a confirmed command goes on with
  unfoldable pub if_confirmed : Bool → Task W (Unit {0}) → Task W (Unit {0})
  if_confirmed true task = task
  if_confirmed false task = give tt

module _ {W G : Type 0} (sh : Shell W G) where
  unfoldable pub storage_of : Project → Result (StateStorage W)
  storage_of project =
      backend_from_config sh.visit sh.get_backend sh.tree.join_path project.config.backend
        sh.backend_ops sh.work_dir

  unfoldable pub generate_spec : Project → Stack → Task W (Option Spec)
  unfolding generated
  generate_spec project stack w = generated (sh.generate project stack w)

module _ {W G : Type 0} (sh : Shell W G) (flags : Flags) where
  request_of : Project → Stack → String → Option Spec → Request
  request_of project stack cluster sp = record {
    tenant = project.config.tenant;
    project = project.config.name;
    stack = stack;
    cluster = cluster;
    operator = flags.operator;
    spec = sp;
  }

  -- `preview` of the destroy command
  unfoldable pub preview_destroy : Project → Stack → StateStorage W → Spec → Task W ChangeOrder
  unfolding request_of new_operation answered changes_of
  preview_destroy project stack storage sp =
      (λ w. answered "preview failed, status: " sh.status_text (
        preview (sh.engine storage none) (request_of project stack "" (some sp))
          (new_operation destroy_preview stack [] (some no_changes)) w))
      >>= changes_of

  -- `destroy` of the destroy command
  unfoldable pub destroy_resources :
      Project → Stack → StateStorage W → Spec → ChangeOrder → Task W (Unit {0})
  unfolding request_of new_operation answered unless_failing
  destroy_resources project stack storage sp order =
      unless_failing (sh.progress_error (length order.step_keys)) >> λ w.
      answered "destroy failed, status: " sh.status_text (
        destroy_all (sh.engine storage none) (request_of project stack "" (some sp))
          (new_operation undefined_operation stack [] none) w)

  -- With `--detail` the differences are shown, and nothing else is done.
  unfoldable pub destroy_previewed : Project → Stack → StateStorage W → Spec → Task W (Unit {0})
  unfolding preview_destroy attempt if_confirmed destroy_resources
  destroy_previewed project stack storage sp = preview_destroy project stack storage sp >>= λ order.
      if flags.detail
      then give tt
      else (attempt (confirm flags.yes sh.answers) >>= λ go.
          if_confirmed go (destroy_resources project stack storage sp order))

  unfoldable pub destroy_found : Project → Stack → StateStorage W → State → Task W (Unit {0})
  unfolding no_resources destroy_previewed
  destroy_found project stack storage latest =
      if no_resources latest.resources
      then give tt
      else destroy_previewed project stack storage (record { resources = latest.resources })

  query_for_destroy : Project → Stack → StateQuery
  query_for_destroy project stack = record {
    tenant = project.config.tenant;
    stack = stack.name;
    project = project.config.name;
    cluster = "";
  }

  unfoldable pub destroy_run : Task W (Unit {0})
  unfolding attempt storage_of found_state query_for_destroy destroy_found
  destroy_run = attempt (detect_project_and_stack sh.tree sh.work_dir) >>= λ (project, stack).
      attempt (storage_of sh project) >>= λ storage.
      (λ w. found_state (storage.get_latest_state (query_for_destroy project stack) w))
      >>= destroy_found project stack storage

  -- `Preview` of the preview command, which the apply command shares
  unfoldable pub preview_apply : Project → Stack → StateStorage W → Option Spec → Task W ChangeOrder
  unfolding request_of new_operation answered changes_of
  preview_apply project stack storage sp =
      if not (is_valid project.config.secret_stores)
      then fail "no secret store is provided"
      else ((λ w. answered "preview failed.\n" sh.status_text (
            preview (sh.engine storage project.config.secret_stores)
              (request_of project stack (parse_cluster_argument flags.arguments) sp)
              (new_operation apply_preview stack flags.ignore_fields (some no_changes)) w))
          >>= changes_of)

  -- the engine's part of `Apply`: none of it in a dry run
  unfoldable pub apply_for_real : Project → Stack → StateStorage W → Option Spec → Task W (Unit {0})
  unfolding request_of new_operation answered
  apply_for_real project stack storage sp =
      if flags.dry_run
      then give tt
      else ((λ w. answered "apply failed, status:\n" sh.status_text (
            apply_spec (sh.engine storage project.config.secret_stores)
              (request_of project stack (parse_cluster_argument flags.arguments) sp)
              (new_operation undefined_operation stack [] none) w))
          >>= λ _. give tt)

  -- `Apply`
  unfoldable pub apply_changes :
      Project → Stack → StateStorage W → Option Spec → ChangeOrder → Task W (Unit {0})
  unfolding unless_failing apply_for_real
  apply_changes project stack storage sp order =
      if not (is_valid project.config.secret_stores)
      then fail "no secret store is provided"
      else (unless_failing (sh.progress_error (length order.step_keys))
          >> apply_for_real project stack storage sp)

  -- `Watch`
  watch_changes : Project → Stack → List Resource → ChangeOrder → Task W (Unit {0})
  unfolding request_of watched
  watch_changes project stack resources order =
      if flags.dry_run
      then give tt
      else ((λ w. (to_be_watched (steps_of order) resources, w)) >>= λ rs. λ w.
          watched
            (sh.watch (request_of project stack "" (some (record { resources = some rs }))) w))

  unfoldable pub watch_if : Project → Stack → List Resource → ChangeOrder → Task W (Unit {0})
  unfolding watch_changes
  watch_if project stack resources order =
      if flags.dry_run
      then give tt
      else if flags.watch
      then watch_changes project stack resources order
      else give tt

  unfoldable pub spec_resources : Option Spec → List Resource
  spec_resources none = []
  spec_resources (some sp) = listed sp.resources

  unfoldable pub apply_confirmed :
      Project → Stack → StateStorage W → Option Spec → ChangeOrder → Task W (Unit {0})
  unfolding apply_changes watch_if spec_resources
  apply_confirmed project stack storage sp order =
      apply_changes project stack storage sp order
      >> watch_if project stack (spec_resources sp) order

  -- behind the preview: with `--detail` and `--all` the differences are shown, and without `--yes`
  -- nothing else is done
  unfoldable pub apply_previewed :
      Project → Stack → StateStorage W → Option Spec → ChangeOrder → Task W (Unit {0})
  unfolding attempt if_confirmed apply_confirmed
  apply_previewed project stack storage sp order =
      if all_un_change sh.visit order
      then give tt
      else if flags.detail && flags.all && not flags.yes
      then give tt
      else (attempt (confirm flags.yes sh.answers) >>= λ go.
          if_confirmed go (apply_confirmed project stack storage sp order))

  -- a stack without resources, and a stack with some over the storage of its project
  unfoldable pub with_changes :
      Project
      → Stack
      → (StateStorage W → Option Spec → ChangeOrder → Task W (Unit {0}))
      → Option Spec
      → Task W (Unit {0})
  unfolding no_resources_in attempt storage_of preview_apply
  with_changes project stack next sp =
      if no_resources_in sp
      then give tt
      else (attempt (storage_of sh project) >>= λ storage.
          preview_apply project stack storage sp >>= next storage sp)

  unfoldable pub apply_run : Task W (Unit {0})
  unfolding attempt generate_spec with_changes apply_previewed
  apply_run = attempt (detect_project_and_stack sh.tree sh.work_dir) >>= λ (project, stack).
      generate_spec sh project stack
      >>= with_changes project stack (λ storage. apply_previewed project stack storage)

  unfoldable pub preview_previewed : ChangeOrder → Task W (Unit {0})
  unfolding unless_failing browse
  preview_previewed order =
      if flags.output == json_output
      then unless_failing (sh.marshal_error order)
      else if all_un_change sh.visit order
      then give tt
      else if flags.detail
      then unless_failing (browse sh.answers)
      else give tt

  unfoldable pub preview_run : Task W (Unit {0})
  unfolding attempt generate_spec with_changes preview_previewed
  preview_run = attempt (detect_project_and_stack sh.tree sh.work_dir) >>= λ (project, stack).
      generate_spec sh project stack
      >>= with_changes project stack (λ storage sp order. preview_previewed order)

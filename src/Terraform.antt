-- ===== src/Terraform.antt =====
-- pkg/engine/runtime/terraform/terraform_runtime.go and tfops/state.go: the runtime of Terraform
-- resources.
pub mod Output
pub mod Values
pub mod Workspace
pub mod Lawful
pub mod Unheard
use kusion.Base.{String, Bool, true, false, Option, none, some, List, [], ◌∷◌}
use kusion.Base.Text.{◌<>◌}
use kusion.Status.{Status, new_error_status}
use kusion.Control.{Outcome, ok, panicked, nil_dereference}
use kusion.Value.{str, Fields, end, field}
use kusion.Models.{Resource, resource_key}
use kusion.Runtime.{Runtime, Stack, ReadRequest, ApplyRequest, Response}
use kusion.Machine.{
  Machine, Task, Attempt, returned, errs, panics, give, fail, panic, then_do, ◌>>=◌, ◌>>◌, Stat,
  found, missing, broken, TfResource, StateRepresentation, PlanRepresentation,
}
use kusion.Terraform.Workspace.{
  WorkSpace, write_hcl, write_tf_state, init_workspace, get_provider, apply, plan, refresh_only,
  destroy,
}

abbrev pub answer_with : Option Resource → Response
answer_with r = record { resource = r; status = none }

-- `models.Resource{}`
abbrev pub empty_resource : Resource
empty_resource = record {
  id = "";
  type = "";
  attributes = none;
  depends_on = [];
  extensions = none;
}

-- the fields of `r`, with the attributes of an object
unfoldable pub with_attributes : Resource → Option Fields → Resource
with_attributes r attrs = record {
  id = r.id;
  type = r.type;
  attributes = attrs;
  depends_on = r.depends_on;
  extensions = r.extensions;
}

-- `ConvertTFState` of a state with values takes the first resource, and panics on none.
first_resource : String → List TfResource → Attempt Resource
first_resource addr [] = panics "index out of range [0]"
first_resource addr (t ∷ ts) = returned (record {
  id = t.name;
  type = "Terraform";
  attributes = t.attribute_values;
  depends_on = [];
  extensions = some (field "resourceType" (str t.type) (field "provider" (str addr) end));
})

unfoldable pub convert_tf_state : Option StateRepresentation → String → Attempt Resource
unfolding first_resource
convert_tf_state none addr = returned empty_resource
convert_tf_state (some s) addr = elim s.values [
  | none ↦ returned empty_resource
  | some ts ↦ first_resource addr ts
]

has_values : Option StateRepresentation → Bool
has_values none = false
has_values (some s) = elim s.values [ none ↦ false | some ts ↦ true ]

-- What a method answers when a step of it returns an error.
respond : {W : Type 0} → Attempt Response × W → Outcome Response × W
respond (returned r, w) = (ok r, w)
respond (errs e, w) = (ok (record { resource = none; status = some (new_error_status e) }), w)
respond (panics p, w) = (panicked p, w)

report : {W A : Type 0} → Attempt A × W → Outcome (Option Status) × W
report (returned a, w) = (ok none, w)
report (errs e, w) = (ok (some (new_error_status e)), w)
report (panics p, w) = (panicked p, w)

module _ {W : Type 0} (m : Machine W) where
  unfoldable pub workspace_at : Stack → Resource → WorkSpace
  workspace_at stack r = record {
    resource = r;
    stack_dir = stack.path;
    tf_cache_dir = m.join_path stack.path ("." <> resource_key r);
  }

  module _ (ws : WorkSpace) where
    init_if : Stat → Task W (Unit {0})
    init_if found = give tt
    init_if (broken e) = fail e
    init_if missing = init_workspace m ws

    init_once : Task W (Unit {0})
    unfolding init_if
    init_once w = init_if (m.stat (m.join_path ws.tf_cache_dir ".terraform.lock.hcl") w) w

    unfoldable pub set_up : Task W (Unit {0})
    unfolding init_once
    set_up = write_hcl m ws >> init_once

    planned : Resource → Option PlanRepresentation → Task W Response
    unfolding with_attributes
    planned r none = panic nil_dereference
    planned r (some p) = elim p.planned_values [
      | [] ↦ give (answer_with (some empty_resource))
      | t ∷ ts ↦ give (answer_with (some (with_attributes r t.attribute_values)))
    ]

    dry_run : Resource → Task W Response
    unfolding planned
    dry_run r = plan m ws >>= planned r

    converted : Resource → Option StateRepresentation → String → Task W Response
    unfolding convert_tf_state with_attributes
    converted r state addr w =
        then_do (convert_tf_state state addr, w)
          (λ c. give (answer_with (some (with_attributes r c.attributes))))

    convert : Resource → Option StateRepresentation → Task W Response
    unfolding converted
    convert r state = get_provider m ws >>= converted r state

    real_run : Resource → Task W Response
    unfolding convert
    real_run r = apply m ws >>= convert r

    apply_in : Bool → Resource → Task W Response
    unfolding set_up dry_run real_run
    apply_in true r = set_up >> dry_run r
    apply_in false r = set_up >> real_run r

    -- A state without values is no resource.
    read_values : Bool → Resource → Option StateRepresentation → Task W Response
    unfolding convert
    read_values false r state = give (answer_with none)
    read_values true r state = convert r state

    read_back : Resource → Option StateRepresentation → Task W Response
    unfolding has_values read_values
    read_back r state = read_values (has_values state) r state

    read_in : Resource → Resource → Task W Response
    unfolding set_up read_back
    read_in r prior = do
      set_up
      write_tf_state m ws prior
      state ← refresh_only m ws
      read_back r state

    destroy_in : Task W (Unit {0})
    destroy_in = destroy m ws >> m.remove_all ws.tf_cache_dir

  apply_plan : Option Resource → Stack → Bool → W → Outcome Response × W
  unfolding respond apply_in workspace_at
  apply_plan none stack dry w = (panicked nil_dereference, w)
  apply_plan (some r) stack dry w = respond (apply_in (workspace_at stack r) dry r w)

  -- Without a plan the prior resource is read, its attributes left out; without a prior one nothing is.
  read_prior : Option Resource → Option Resource → Stack → W → Outcome Response × W
  unfolding respond read_in workspace_at with_attributes
  read_prior planned none stack w = (ok (answer_with none), w)
  read_prior none (some prior) stack w =
      let r = with_attributes prior none in respond (read_in (workspace_at stack r) r prior w)
  read_prior (some r) (some prior) stack w = respond (read_in (workspace_at stack r) r prior w)

  -- `Import` answers nil, after the log line that reads the id
  import_none : Option Resource → W → Outcome (Option Response) × W
  import_none none w = (panicked nil_dereference, w)
  import_none (some r) w = (ok none, w)

  delete_prior : Option Resource → Stack → W → Outcome (Option Status) × W
  unfolding report destroy_in workspace_at
  delete_prior none stack w = (panicked nil_dereference, w)
  delete_prior (some r) stack w = report (destroy_in (workspace_at stack r) w)

  unfoldable pub terraform_runtime : Runtime W
  unfolding apply_plan read_prior import_none delete_prior
  terraform_runtime = record {
    apply = λ request. apply_plan request.plan_resource request.stack request.dry_run;
    read = λ request. read_prior request.plan_resource request.prior_resource request.stack;
    import_resource = import_none;
    delete = delete_prior;
  }

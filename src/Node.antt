-- ===== src/Node.antt =====
-- pkg/engine/operation/graph/resource_node.go: the execution of one resource node. A node is
-- executed in a `Run`: the operation, the node itself and the world of the runtimes and the storage.
mod Steps
pub mod Keyed
mod Answers
pub mod Ignored
pub mod Planning
pub mod Applying
pub mod Previewing
use kusion.Base.{
  ℕ, zero, suc, String, Bool, true, false, Option, none, some, List, [], ◌∷◌, ◌≡◌, if◌then◌else◌,
  is_nil, nat_eq, length,
}
use kusion.Base.Text.{◌<>◌, split}
use kusion.Base.GoMap.{GoMap, get, set, deref}
use kusion.Status.{Status, is_err, new_error_status}
use kusion.Control.{
  Outcome, ok, failed, panicked, Result, value, error, ◌>>=◌, Exec, pure, lift, gets, continue,
  ◌>=>◌, unless_err, nil_dereference,
}
use kusion.Value.{Fields, delete_field}
use kusion.Models.{Resource, resource_key}
use kusion.Change.{
  OperationType, undefined_operation, apply, apply_preview, destroy, destroy_preview, ActionType,
  undefined, un_change, create, update, delete, is_action, record_step,
}
use kusion.Runtime.{Runtime, ReadRequest, ApplyRequest, Response}
use kusion.States.{StateStorage}
use kusion.Operation.{Operation, refresh_resource_index, update_state}
use kusion.Refs.{ImplicitFun, SecretFun, replace_fields, implicit_replace_fun, remove_in_fields}

pub record ResourceNode : Type 0 where
  pub id : String
  pub action : ActionType
  pub resource : Resource

-- What the nodes call: the runtimes by resource type, the state storage, the order in which maps are
-- ranged over, the secret stores, and the number of differences that a report of two resources has.
pub record Engine (W : Type 0) : Type 0 where
  pub runtimes : String → Option (Runtime W)
  pub storage : StateStorage W
  pub visit : List String → List String
  pub secrets : SecretFun
  pub to_report : Option Resource → Option Resource → Result ℕ

pub record Run (W : Type 0) : Type 0 where
  pub op : Operation
  pub node : ResourceNode
  pub world : W

-- Attributes are a map; a nil map has no entry to replace.
unfoldable pub replace_attributes :
    ImplicitFun → SecretFun → Option Fields → Outcome (Option Fields)
replace_attributes f g none = ok none
replace_attributes f g (some fs) = do (refs, gs) ← replace_fields f g fs; ok (some gs)

-- A deleted resource's node points into the prior state, so its attributes are written there too, and
-- into the index of the state to be saved, which holds the same pointers.
abbrev pub with_attributes : Option Fields → Resource → Resource
with_attributes attrs r = record r { attributes = attrs }

abbrev shared : String → Option Fields → GoMap Resource → GoMap Resource
shared key attrs m = elim (get key m) [ none ↦ m | some r ↦ set key (with_attributes attrs r) m ]

abbrev shared_pointer : String → Option Fields → GoMap (Option Resource) → GoMap (Option Resource)
shared_pointer key attrs m = elim (deref (get key m)) [
  | none ↦ m
  | some r ↦ set key (some (with_attributes attrs r)) m
]

unfoldable pub write_through : String → Option Fields → Operation → Operation
write_through key attrs o = record o {
  prior_state_resource_index = shared key attrs o.prior_state_resource_index;
  state_resource_index = shared_pointer key attrs o.state_resource_index;
}

-- `removeNestedField` at an attribute map; `strings.Split` gives one part at least
remove_from : Option Fields → List String → Option Fields
remove_from none splits = none
remove_from (some fs) [] = some fs
remove_from (some fs) (k ∷ []) = some (delete_field k fs)
remove_from (some fs) (k ∷ j ∷ js) = some (remove_in_fields fs k j js)

-- `removeNestedField(r.Attributes, splits...)`, whose field access panics on a nil resource
remove_field : List String → Option Resource → Outcome (Option Resource)
remove_field splits none = panicked nil_dereference
remove_field splits (some r) = ok (some (record r { attributes = remove_from r.attributes splits }))

-- The loop over the ignored fields, which changes both resources in place.
pub remove_fields :
    List String → Option Resource → Option Resource → Outcome (Option Resource × Option Resource)
unfolding remove_field remove_from split
remove_fields [] live dry_run = ok (live, dry_run)
remove_fields (f ∷ fs) live dry_run = do
  live' ← remove_field (split b'.' f) live
  dry_run' ← remove_field (split b'.' f) dry_run
  remove_fields fs live' dry_run'

-- The runtime call of `applyResource`: the resource to record, unless it fails. A deletion that
-- answers with a status logs the planned resource's id, which panics where none is planned.
delete_answer : Option Resource → Option Status → Outcome (Option Resource)
unfolding unless_err
delete_answer planed none = ok none
delete_answer none (some s) = panicked nil_dereference
delete_answer (some r) (some s) = unless_err (some s) (ok none)

pub apply_answer : Response → Outcome (Option Resource)
unfolding unless_err
apply_answer response = unless_err response.status (ok response.resource)

import_answer : Option Response → Outcome (Option Resource)
unfolding unless_err
import_answer none = panicked nil_dereference
import_answer (some response) = unless_err response.status (ok response.resource)

abbrev from_result : Result (Unit {0}) → Outcome (Unit {0})
from_result (value u) = ok u
from_result (error e) = failed (new_error_status e)

-- `len(report.Diffs) == 0`
abbrev action_of_diffs : ℕ → ActionType
action_of_diffs zero = un_change
action_of_diffs (suc n) = update

-- the planned, prior and live resource
abbrev pub ThreeWay : Type 0
ThreeWay = Option Resource × Option Resource × Option Resource

-- the dry-run resource, and the live one as the ignored fields leave it
abbrev pub Planned : Type 0
Planned = Option Resource × Option Resource

module _ {W : Type 0} where
  set_action : ActionType → Run W → Run W
  set_action a run = record run { node = record run.node { action = a } }

  unfoldable pub write_attributes : Option Fields → Exec (Run W) (Unit {0})
  unfolding write_through
  write_attributes attrs run =
      let n = run.node in
      let key = resource_key n.resource in
      let n' = record n { resource = with_attributes attrs n.resource } in
      if is_action n.action delete
      then (ok tt, record run { node = n'; op = write_through key attrs run.op })
      else (ok tt, record run { node = n' })

  abbrev has_prior : Run W → Bool
  has_prior run = elim run.op.prior_state_resource_index [ [] ↦ false | x ∷ xs ↦ true ]

module _ {W : Type 0} where
  read_live : Option Resource → Option Resource → Option (Runtime W) → Exec (Run W) ThreeWay
  unfolding unless_err
  read_live planed prior none run = (panicked nil_dereference, run)
  read_live planed prior (some rt) run =
      let request : ReadRequest = record {
        prior_resource = prior;
        plan_resource = planed;
        stack = run.op.stack;
      } in
      let (answer, w) = rt.read request run.world in
      (
        answer >>= λ response. unless_err response.status (ok (planed, prior, response.resource)),
        record run { world = w },
      )

  by_report : Option Resource → Option Resource → Result ℕ → Exec (Run W) Planned
  unfolding set_action
  by_report dry_run live (error e) run = (failed (new_error_status e), run)
  by_report dry_run live (value n) run = (ok (dry_run, live), set_action (action_of_diffs n) run)

  dry_run_apply : Resource → Option Resource → Option (Runtime W) → Exec (Run W) (Option Resource)
  unfolding apply_answer
  dry_run_apply planed prior none run = (panicked nil_dereference, run)
  dry_run_apply planed prior (some rt) run =
      let request : ApplyRequest = record {
        prior_resource = prior;
        plan_resource = some planed;
        stack = run.op.stack;
        dry_run = true;
      } in
      let (answer, w) = rt.apply request run.world in
      (answer >>= apply_answer, record run { world = w })

  real_apply : ThreeWay → Runtime W → Exec (Run W) (Option Resource)
  unfolding apply_answer
  real_apply (planed, prior, live) rt run =
      let request : ApplyRequest = record {
        prior_resource = prior;
        plan_resource = planed;
        stack = run.op.stack;
        dry_run = false;
      } in
      let (answer, w) = rt.apply request run.world in
      (answer >>= apply_answer, record run { world = w })

  real_delete : ThreeWay → Runtime W → Exec (Run W) (Option Resource)
  unfolding delete_answer
  real_delete (planed, prior, live) rt run =
      let (answer, w) = rt.delete prior run.op.stack run.world in
      (answer >>= delete_answer planed, record run { world = w })

  -- A resource that is as planned and is not recorded yet is imported.
  keep_or_import : ThreeWay → Runtime W → Exec (Run W) (Option Resource)
  unfolding import_answer
  keep_or_import (planed, some r, live) rt run = (ok (some r), run)
  keep_or_import (planed, none, live) rt run =
      let (answer, w) = rt.import_resource planed run.world in
      (answer >>= import_answer, record run { world = w })

  call_for : ActionType → ThreeWay → Runtime W → Exec (Run W) (Option Resource)
  unfolding real_apply real_delete keep_or_import
  call_for undefined three rt run = (ok none, run)
  call_for un_change three rt run = keep_or_import three rt run
  call_for create three rt run = real_apply three rt run
  call_for update three rt run = real_apply three rt run
  call_for delete three rt run = real_delete three rt run

  -- Without a runtime of the type, only the call of a method panics.
  call_without : ActionType → ThreeWay → Exec (Run W) (Option Resource)
  call_without undefined three run = (ok none, run)
  call_without un_change (planed, some r, live) run = (ok (some r), run)
  call_without a three run = (panicked nil_dereference, run)

  unfoldable pub call_runtime : ThreeWay → Option (Runtime W) → Exec (Run W) (Option Resource)
  unfolding call_for call_without
  call_runtime three none run = call_without run.node.action three run
  call_runtime three (some rt) run = call_for run.node.action three rt run

  refresh : Option Resource → Exec (Run W) (Unit {0})
  unfolding refresh_resource_index
  refresh r run =
      let key = resource_key run.node.resource in
      let (done, o) = refresh_resource_index key r run.node.action run.op in
      (done, record run { op = o })

  update_change_order : Planned → Exec (Run W) (Unit {0})
  unfolding record_step
  update_change_order (dry_run, live) run =
      let order = record_step run.node.id run.node.action live dry_run run.op.change_order in
      (ok tt, record run { op = record run.op { change_order = order } })

  unfoldable pub preview_resource : Planned → Exec (Run W) (Unit {0})
  unfolding refresh update_change_order
  preview_resource planned run = continue (refresh planned.0 run) (λ _. update_change_order planned)

module _ {W : Type 0} (eng : Engine W) where
  replace_in : ImplicitFun → Exec (Run W) (Unit {0})
  unfolding replace_attributes write_attributes
  replace_in f run =
      continue (replace_attributes f eng.secrets run.node.resource.attributes, run) write_attributes

  abbrev all_refs : Run W → ImplicitFun
  all_refs run = some (implicit_replace_fun run.op.ctx_resource_index)

  -- At the first preview implicit references stay as they are.
  pre_execute_for : OperationType → Exec (Run W) (Unit {0})
  unfolding replace_in
  pre_execute_for apply_preview run =
      if has_prior run then replace_in (all_refs run) run else replace_in none run
  pre_execute_for apply run = replace_in (all_refs run) run
  pre_execute_for _ run = (ok tt, run)

  unfoldable pub pre_execute : Exec (Run W) (Unit {0})
  unfolding pre_execute_for
  pre_execute run = pre_execute_for run.op.operation_type run

  -- A node whose resource is gone from the spec plans nothing.
  unfoldable pub init_three_way_diff_data : Exec (Run W) ThreeWay
  unfolding read_live
  init_three_way_diff_data run =
      let n = run.node in
      let planed = if is_action n.action delete then none else some n.resource in
      let prior = get (resource_key n.resource) run.op.prior_state_resource_index in
      read_live planed prior (eng.runtimes n.resource.type) run

  compare_resources : Option Resource → Option Resource → Exec (Run W) Planned
  unfolding by_report remove_fields
  compare_resources dry_run live run =
      continue (remove_fields run.op.ignore_fields live dry_run, run)
        λ both. by_report both.1 both.0 (eng.to_report both.0 both.1)

  plan_apply : Option Resource → Option Resource → Option Resource → Exec (Run W) Planned
  unfolding compare_resources dry_run_apply set_action
  plan_apply none prior live run = (ok (none, live), set_action delete run)
  plan_apply (some planed) none none run = (ok (some planed, none), set_action create run)
  plan_apply (some planed) prior live run =
      continue (dry_run_apply planed prior (eng.runtimes run.node.resource.type) run)
        λ dry_run. compare_resources dry_run live

  compute_for : OperationType → ThreeWay → Exec (Run W) Planned
  unfolding plan_apply
  compute_for destroy (planed, prior, live) run = (ok (planed, live), set_action delete run)
  compute_for destroy_preview (planed, prior, live) run = (ok (planed, live), set_action delete run)
  compute_for apply (planed, prior, live) run = plan_apply planed prior live run
  compute_for apply_preview (planed, prior, live) run = plan_apply planed prior live run
  compute_for undefined_operation three run =
      (failed (new_error_status "unknown operation: 0"), run)

  unfoldable pub compute_action_type : ThreeWay → Exec (Run W) Planned
  unfolding compute_for
  compute_action_type three run = compute_for run.op.operation_type three run

  save_state : Exec (Run W) (Unit {0})
  unfolding update_state
  save_state run =
      let (done, o, w) = update_state eng.storage eng.visit run.op run.world in
      (from_result done, record run { op = o; world = w })

  apply_with : ThreeWay → Option (Runtime W) → Exec (Run W) (Unit {0})
  unfolding call_runtime refresh save_state
  apply_with three found run =
      continue (call_runtime three found run) (λ res. refresh res >=> λ _. save_state)

  unfoldable pub apply_resource : ThreeWay → Exec (Run W) (Unit {0})
  unfolding apply_with
  apply_resource three run = apply_with three (eng.runtimes run.node.resource.type) run

  perform_for : OperationType → ThreeWay → Planned → Exec (Run W) (Unit {0})
  unfolding preview_resource apply_resource
  perform_for apply_preview three planned run = preview_resource planned run
  perform_for destroy_preview three planned run = preview_resource planned run
  perform_for apply (planed, prior, live) planned run =
      apply_resource (planed, prior, planned.1) run
  perform_for destroy (planed, prior, live) planned run =
      apply_resource (planed, prior, planned.1) run
  perform_for undefined_operation three planned run =
      (failed (new_error_status "unknown operation: 0"), run)

  unfoldable pub perform : ThreeWay → Planned → Exec (Run W) (Unit {0})
  unfolding perform_for
  perform three planned run = perform_for run.op.operation_type three planned run

  -- what follows on `PreExecute`
  unfoldable pub execute_rest : Exec (Run W) (Unit {0})
  unfolding init_three_way_diff_data compute_action_type perform
  execute_rest = init_three_way_diff_data >=> λ three.
      compute_action_type three >=> λ planned. perform three planned

  unfoldable pub execute : Exec (Run W) (Unit {0})
  execute = pre_execute >=> λ _. execute_rest

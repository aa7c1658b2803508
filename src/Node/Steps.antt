-- ===== src/Node/Steps.antt =====
-- The steps of a node that leave the operation and the node's resource alone.
use mathlib.Core.Path.{subst, sym}
use kusion.Base.{ℕ, Option, none, some, ◌≡◌, arith}
use kusion.Control.{Result, value, error, Keeps, continue-keeps}
use kusion.Models.{Resource}
use kusion.Change.{
  OperationType, undefined_operation, apply, apply_preview, destroy, destroy_preview, ActionType,
  create, delete,
}
use kusion.Operation.{Operation}
use kusion.Runtime.{Runtime}
use kusion.Node.{
  Engine, Run, ThreeWay, set_action, by_report, compare_resources, dry_run_apply, plan_apply,
  compute_for, compute_action_type, remove_fields, read_live, init_three_way_diff_data,
  call_runtime, call_without,
}

module _ {W : Type 0} (o : Operation) (r : Resource) where
  -- The operation and the resource are these.
  pub record IsAt (run : Run W) : Type 0 where
    pub op : run.op ≡ o
    pub resource : run.node.resource ≡ r

  read_live-IsAt :
      (planed prior : Option Resource) (rt : Option (Runtime W))
      → Keeps IsAt (read_live planed prior rt)
  unfolding read_live
  read_live-IsAt planed prior none = record { at = λ s h. h }
  read_live-IsAt planed prior (some rt) = record {
    at = λ s h. record { op = h.op; resource = h.resource };
  }

  call_without-keeps :
      (a : ActionType) (three : ThreeWay) (s : Run W) → (call_without a three s).1 ≡ s
  unfolding call_without
  call_without-keeps a three s = ground arith

  pub call_runtime-IsAt :
      (three : ThreeWay) (found : Option (Runtime W)) → Keeps IsAt (call_runtime three found)
  unfolding call_runtime
  call_runtime-IsAt three none = record {
    at = λ s h. subst IsAt (sym (call_without-keeps s.node.action three s)) h;
  }
  call_runtime-IsAt three (some rt) = record {
    at = λ s h. record { op = ground (arith, h.op); resource = ground (arith, h.resource) };
  }

  dry_run_apply-IsAt :
      (p : Resource) (prior : Option Resource) (rt : Option (Runtime W))
      → Keeps IsAt (dry_run_apply p prior rt)
  unfolding dry_run_apply
  dry_run_apply-IsAt p prior none = record { at = λ s h. h }
  dry_run_apply-IsAt p prior (some rt) = record {
    at = λ s h. record { op = h.op; resource = h.resource };
  }

  set_action-IsAt : (a : ActionType) (s : Run W) → IsAt s → IsAt (set_action a s)
  unfolding set_action
  set_action-IsAt a s h = record { op = h.op; resource = h.resource }

  by_report-IsAt : (d l : Option Resource) (n : Result ℕ) → Keeps IsAt (by_report d l n)
  unfolding by_report
  by_report-IsAt d l (value n) = record { at = λ s h. set_action-IsAt _ s h }
  by_report-IsAt d l (error e) = record { at = λ s h. h }

  module _ (eng : Engine W) where
    pub init-IsAt : Keeps IsAt (init_three_way_diff_data eng)
    unfolding init_three_way_diff_data
    init-IsAt = record { at = λ s h. (read_live-IsAt _ _ _).at s h }

    compare_resources-IsAt : (d l : Option Resource) → Keeps IsAt (compare_resources eng d l)
    unfolding compare_resources
    compare_resources-IsAt d l = record {
      at = λ s h.
          continue-keeps (remove_fields s.op.ignore_fields l d, s) _ h
            (λ both. by_report-IsAt both.1 both.0 (eng.to_report both.0 both.1));
    }

    plan_apply-IsAt :
        (planed prior live : Option Resource) → Keeps IsAt (plan_apply eng planed prior live)
    unfolding plan_apply
    plan_apply-IsAt none prior live = record { at = λ s h. set_action-IsAt delete s h }
    plan_apply-IsAt (some p) none none = record { at = λ s h. set_action-IsAt create s h }
    plan_apply-IsAt (some p) (some q) live = record {
      at = λ s h.
          continue-keeps (dry_run_apply p (some q) (eng.runtimes s.node.resource.type) s) _
            ((dry_run_apply-IsAt p (some q) (eng.runtimes s.node.resource.type)).at s h)
            (λ d. compare_resources-IsAt d live);
    }
    plan_apply-IsAt (some p) none (some l) = record {
      at = λ s h.
          continue-keeps (dry_run_apply p none (eng.runtimes s.node.resource.type) s) _
            ((dry_run_apply-IsAt p none (eng.runtimes s.node.resource.type)).at s h)
            (λ d. compare_resources-IsAt d (some l));
    }

    compute_for-IsAt :
        (ty : OperationType) (three : ThreeWay) → Keeps IsAt (compute_for eng ty three)
    unfolding compute_for
    compute_for-IsAt apply (planed, prior, live) = record {
      at = (plan_apply-IsAt planed prior live).at;
    }
    compute_for-IsAt apply_preview (planed, prior, live) = record {
      at = (plan_apply-IsAt planed prior live).at;
    }
    compute_for-IsAt destroy three = record { at = λ s h. set_action-IsAt delete s h }
    compute_for-IsAt destroy_preview three = record { at = λ s h. set_action-IsAt delete s h }
    compute_for-IsAt undefined_operation three = record { at = λ s h. h }

    pub compute_action_type-IsAt : (three : ThreeWay) → Keeps IsAt (compute_action_type eng three)
    unfolding compute_action_type
    compute_action_type-IsAt three = record {
      at = λ s h. (compute_for-IsAt s.op.operation_type three).at s h;
    }

-- ===== src/Node/Previewing.antt =====
-- A preview only reads and dry-runs.
use kusion.Base.{ℕ, String, true, Option, none, some, ◌≡◌, ◌⊎◌, inl, inr, refl, arith, if_both}
use kusion.Control.{Outcome, Result, value, error, continue, Keeps, Keeps-bind, continue-keeps}
use kusion.Models.{Resource}
use kusion.Value.{Fields}
use kusion.Change.{
  OperationType, undefined_operation, apply, apply_preview, destroy, destroy_preview, ActionType,
  create, delete, is_action,
}
use kusion.Operation.{refresh_resource_index}
use kusion.Runtime.{Runtime, ReadRequest, ApplyRequest}
use kusion.States.{State}
use kusion.Refs.{ImplicitFun}
use kusion.Node.{
  Engine, Run, ThreeWay, Planned, set_action, by_report, compare_resources, dry_run_apply,
  plan_apply, compute_for, compute_action_type, remove_fields, read_live, init_three_way_diff_data,
  refresh, update_change_order, preview_resource, perform_for, perform, write_through,
  write_attributes, replace_attributes, replace_in, has_prior, all_refs, pre_execute_for,
  pre_execute, execute_rest, execute,
}

-- `Q` holds of the world after a read and after a dry run.
pub record SurvivesDryRun {W : Type 0} (Q : W → Type 0) (rt : Runtime W) : Type 0 where
  pub read : (request : ReadRequest) (w : W) → Q w → Q (rt.read request w).1
  pub dry_run :
      (request : ApplyRequest) (w : W) → request.dry_run ≡ true → Q w → Q (rt.apply request w).1

abbrev pub IsPreview : OperationType → Type 0
IsPreview ty = (ty ≡ apply_preview) ⊎ (ty ≡ destroy_preview)

module _ {W : Type 0} (Q : W → Type 0) (saved : State) where
  pub record IsDry (run : Run W) : Type 0 where
    pub preview : IsPreview run.op.operation_type
    pub world : Q run.world
    pub state : run.op.result_state ≡ saved

  abbrev IsDryAt {ℓ} : {A : Type ℓ} → Outcome A × Run W → Type 0
  IsDryAt q = IsDry q.1

  write_attributes-IsDry : (attrs : Option Fields) → Keeps IsDry (write_attributes attrs)
  unfolding write_attributes write_through
  write_attributes-IsDry attrs = record {
    at = λ s h.
        if_both (λ (q : Outcome (Unit {0}) × Run W). IsDry q.1) (is_action s.node.action delete) _ _
          (record { preview = h.preview; world = h.world; state = h.state })
          (record { preview = h.preview; world = h.world; state = h.state });
  }

  set_action-IsDry : (a : ActionType) (s : Run W) → IsDry s → IsDry (set_action a s)
  unfolding set_action
  set_action-IsDry a s h = record { preview = h.preview; world = h.world; state = h.state }

  by_report-IsDry : (d l : Option Resource) (n : Result ℕ) → Keeps IsDry (by_report d l n)
  unfolding by_report
  by_report-IsDry d l (value n) = record { at = λ s h. set_action-IsDry _ s h }
  by_report-IsDry d l (error e) = record { at = λ s h. h }

  refresh-IsDry : (res : Option Resource) → Keeps IsDry (refresh res)
  unfolding refresh refresh_resource_index
  refresh-IsDry res = record {
    at = λ s h. record {
      preview = ground (arith, h.preview);
      world = h.world;
      state = ground (arith, h.state);
    };
  }

  update_change_order-IsDry : (p : Planned) → Keeps IsDry (update_change_order p)
  unfolding update_change_order
  update_change_order-IsDry p = record {
    at = λ s h. record { preview = h.preview; world = h.world; state = h.state };
  }

  preview_resource-IsDry : (p : Planned) → Keeps IsDry (preview_resource p)
  unfolding preview_resource
  preview_resource-IsDry p = record {
    at = λ s h.
        continue-keeps (refresh p.0 s) (λ _. update_change_order p) ((refresh-IsDry p.0).at s h)
          (λ _. update_change_order-IsDry p);
  }

  module _ (eng : Engine W)
      (survives : (t : String) (rt : Runtime W)
        → eng.runtimes t ≡ some rt
        → SurvivesDryRun Q rt) where
    replace_in-IsDry : (f : ImplicitFun) → Keeps IsDry (replace_in eng f)
    unfolding replace_in
    replace_in-IsDry f = record {
      at = λ s h.
          continue-keeps (replace_attributes f eng.secrets s.node.resource.attributes, s)
            write_attributes h write_attributes-IsDry;
    }

    pre_execute_for-IsDry : (ty : OperationType) → Keeps IsDry (pre_execute_for eng ty)
    unfolding pre_execute_for
    pre_execute_for-IsDry apply = record { at = λ s h. (replace_in-IsDry (all_refs eng s)).at s h }
    pre_execute_for-IsDry apply_preview = record {
      at = λ s h.
          if_both (λ (q : Outcome (Unit {0}) × Run W). IsDry q.1) (has_prior s) _ _
            ((replace_in-IsDry (all_refs eng s)).at s h) ((replace_in-IsDry none).at s h);
    }
    pre_execute_for-IsDry undefined_operation = record { at = λ s h. h }
    pre_execute_for-IsDry destroy = record { at = λ s h. h }
    pre_execute_for-IsDry destroy_preview = record { at = λ s h. h }

    pre_execute-IsDry : Keeps IsDry (pre_execute eng)
    unfolding pre_execute
    pre_execute-IsDry = record { at = λ s h. (pre_execute_for-IsDry s.op.operation_type).at s h }

    read_live-IsDry :
        (planed prior : Option Resource) (rt : Option (Runtime W))
        → ((r : Runtime W) → rt ≡ some r → SurvivesDryRun Q r)
        → Keeps IsDry (read_live planed prior rt)
    unfolding read_live
    read_live-IsDry planed prior none sv = record { at = λ s h. h }
    read_live-IsDry planed prior (some rt) sv = record {
      at = λ s h. record {
        preview = h.preview;
        world = (sv rt refl).read _ s.world h.world;
        state = h.state;
      };
    }

    init-IsDry : Keeps IsDry (init_three_way_diff_data eng)
    unfolding init_three_way_diff_data
    init-IsDry = record {
      at = λ s h.
          (read_live-IsDry _ _ (eng.runtimes s.node.resource.type)
              (survives s.node.resource.type)).at
            s h;
    }

    dry_run_apply-IsDry :
        (p : Resource) (prior : Option Resource) (rt : Option (Runtime W))
        → ((r : Runtime W) → rt ≡ some r → SurvivesDryRun Q r)
        → Keeps IsDry (dry_run_apply p prior rt)
    unfolding dry_run_apply
    dry_run_apply-IsDry p prior none sv = record { at = λ s h. h }
    dry_run_apply-IsDry p prior (some rt) sv = record {
      at = λ s h. record {
        preview = h.preview;
        world = (sv rt refl).dry_run _ s.world refl h.world;
        state = h.state;
      };
    }

    compare_resources-IsDry : (d l : Option Resource) → Keeps IsDry (compare_resources eng d l)
    unfolding compare_resources
    compare_resources-IsDry d l = record {
      at = λ s h.
          continue-keeps (remove_fields s.op.ignore_fields l d, s) _ h
            (λ both. by_report-IsDry both.1 both.0 (eng.to_report both.0 both.1));
    }

    plan_with_dry_run :
        (p : Resource) (prior live : Option Resource) (s : Run W)
        → IsDry s
        → IsDryAt (
            continue
              (dry_run_apply p prior (eng.runtimes s.node.resource.type) s)
              (λ d. compare_resources eng d live))
    plan_with_dry_run p prior live s h =
        continue-keeps (dry_run_apply p prior (eng.runtimes s.node.resource.type) s) _
          ((dry_run_apply-IsDry p prior (eng.runtimes s.node.resource.type)
              (survives s.node.resource.type)).at
            s h)
          (λ d. compare_resources-IsDry d live)

    plan_apply-IsDry :
        (planed prior live : Option Resource) → Keeps IsDry (plan_apply eng planed prior live)
    unfolding plan_apply
    plan_apply-IsDry none prior live = record { at = λ s h. set_action-IsDry delete s h }
    plan_apply-IsDry (some p) none none = record { at = λ s h. set_action-IsDry create s h }
    plan_apply-IsDry (some p) (some q) live = record { at = plan_with_dry_run p (some q) live }
    plan_apply-IsDry (some p) none (some l) = record { at = plan_with_dry_run p none (some l) }

    compute_for-IsDry :
        (ty : OperationType) (three : ThreeWay) → Keeps IsDry (compute_for eng ty three)
    unfolding compute_for
    compute_for-IsDry apply (planed, prior, live) = record {
      at = (plan_apply-IsDry planed prior live).at;
    }
    compute_for-IsDry apply_preview (planed, prior, live) = record {
      at = (plan_apply-IsDry planed prior live).at;
    }
    compute_for-IsDry destroy three = record { at = λ s h. set_action-IsDry delete s h }
    compute_for-IsDry destroy_preview three = record { at = λ s h. set_action-IsDry delete s h }
    compute_for-IsDry undefined_operation three = record { at = λ s h. h }

    compute-IsDry : (three : ThreeWay) → Keeps IsDry (compute_action_type eng three)
    unfolding compute_action_type
    compute-IsDry three = record {
      at = λ s h. (compute_for-IsDry s.op.operation_type three).at s h;
    }

    perform_for-IsDry :
        (ty : OperationType) (three : ThreeWay) (p : Planned) (s : Run W)
        → IsPreview ty
        → IsDry s
        → IsDryAt (perform_for eng ty three p s)
    unfolding perform_for
    perform_for-IsDry apply_preview three p s ty h = (preview_resource-IsDry p).at s h
    perform_for-IsDry destroy_preview three p s ty h = (preview_resource-IsDry p).at s h
    perform_for-IsDry apply three p s ty h = absurd (elim ty [ inl e ↦ cc | inr e ↦ cc ])
    perform_for-IsDry destroy three p s ty h = absurd (elim ty [ inl e ↦ cc | inr e ↦ cc ])
    perform_for-IsDry undefined_operation three p s ty h =
        absurd (elim ty [ inl e ↦ cc | inr e ↦ cc ])

    perform-IsDry : (three : ThreeWay) (p : Planned) → Keeps IsDry (perform eng three p)
    unfolding perform
    perform-IsDry three p = record {
      at = λ s h. perform_for-IsDry s.op.operation_type three p s h.preview h;
    }

    pub execute-IsDry : Keeps IsDry (execute eng)
    unfolding execute execute_rest
    execute-IsDry = Keeps-bind (pre_execute eng) _ pre_execute-IsDry λ _.
        Keeps-bind (init_three_way_diff_data eng) _ init-IsDry λ three.
          Keeps-bind (compute_action_type eng three) _ (compute-IsDry three) (perform-IsDry three)

-- What every read and every dry run of the runtimes leaves true of the world is left true by the execution
-- of a node in a preview, also where it ends in an error or a panic; and the operation's result state
-- stays as it is.
pub execute-preview_is_dry :
    {W : Type 0} (Q : W → Type 0) (eng : Engine W) (run : Run W)
    → ((t : String) (rt : Runtime W) → eng.runtimes t ≡ some rt → SurvivesDryRun Q rt)
    → IsPreview run.op.operation_type
    → Q run.world
    → Q (execute eng run).1.world × ((execute eng run).1.op.result_state ≡ run.op.result_state)
execute-preview_is_dry Q eng run survives ty h =
    let dry =
      (execute-IsDry Q run.op.result_state eng survives).at run
        (record { preview = ty; world = h; state = refl }) in
    (dry.world, dry.state)

-- ===== src/Terraform/Lawful.antt =====
-- The Terraform runtime keeps what the engine relies on.
use kusion.Base.{String, Bool, true, false, Option, none, some, ◌≡◌, arith}
use kusion.Control.{ok, OnOk, OnOk-ok}
use kusion.Models.{Resource}
use kusion.Runtime.{IsHonest, IsUnder, Stack, Response}
use kusion.Node.Previewing.{SurvivesDryRun}
use kusion.Machine.{
  Machine, Attempt, returned, errs, panics, Stat, found, missing, broken, StateRepresentation,
  PlanRepresentation, SurvivesLocal, Leaves, Leaves-bind, Leaves-answer, OnReturned,
  then_do-returned,
}
use kusion.Terraform.Workspace.{
  WorkSpace, write_hcl, write_tf_state, get_provider, apply, plan, refresh_only,
}
use kusion.Terraform.Workspace.Local.{write_hcl-Leaves, write_tf_state-Leaves}
use kusion.Terraform.Workspace.Commands.{
  init_workspace-Leaves, get_provider-Leaves, refresh_only-Leaves, plan-Leaves,
}
use kusion.Terraform.{
  with_attributes, convert_tf_state, has_values, respond, workspace_at, init_if, init_once, set_up,
  planned, dry_run, converted, convert, real_run, apply_in, read_values, read_back, read_in,
  apply_plan, read_prior, import_none, terraform_runtime,
}

respond-own :
    {W : Type 0} (id : String) (r : Attempt Response × W)
    → OnReturned (IsUnder id) r.0
    → OnOk (IsUnder id) (respond r).0
unfolding respond
respond-own id (returned a, w) h = h
respond-own id (errs e, w) h = λ r f. cc
respond-own id (panics p, w) h = tt

respond-world : {W : Type 0} (Q : W → Type 0) (r : Attempt Response × W) → Q r.1 → Q (respond r).1
unfolding respond
respond-world Q (returned a, w) h = h
respond-world Q (errs e, w) h = h
respond-world Q (panics p, w) h = h

module _ {W : Type 0} (m : Machine W) where
  module _ (ws : WorkSpace) (p : Resource) where
    converted-own :
        (state : Option StateRepresentation) (addr : String) (w : W)
        → OnReturned (IsUnder p.id) (converted m ws p state addr w).0
    unfolding converted with_attributes
    converted-own state addr w =
        then_do-returned (IsUnder p.id) (convert_tf_state state addr, w) _ (λ c w' r e. cc)

    convert-own :
        (state : Option StateRepresentation) (w : W)
        → OnReturned (IsUnder p.id) (convert m ws p state w).0
    unfolding convert
    convert-own state w =
        then_do-returned (IsUnder p.id) (get_provider m ws w) (converted m ws p state)
          (converted-own state)

    real_run-own : (w : W) → OnReturned (IsUnder p.id) (real_run m ws p w).0
    unfolding real_run
    real_run-own w =
        then_do-returned (IsUnder p.id) (apply m ws w) (convert m ws p) (λ s w'. convert-own s w')

    apply_in-own : (w : W) → OnReturned (IsUnder p.id) (apply_in m ws false p w).0
    unfolding apply_in
    apply_in-own w =
        then_do-returned (IsUnder p.id) (set_up m ws w) (λ _. real_run m ws p)
          (λ u w'. real_run-own w')

  apply_plan-own :
      (p : Resource) (stack : Stack) (w : W)
      → OnOk (IsUnder p.id) (apply_plan m (some p) stack false w).0
  unfolding apply_plan
  apply_plan-own p stack w =
      respond-own p.id (apply_in m (workspace_at m stack p) false p w)
        (apply_in-own (workspace_at m stack p) p w)

  import_none-never :
      (p : Option Resource) (w : W) (response : Response)
      → (import_none m p w).0 ≡ ok (some response)
      → ⊥
  unfolding import_none
  import_none-never none w response e = cc
  import_none-never (some p) w response e = cc

  pub terraform-IsHonest : IsHonest (terraform_runtime m)
  unfolding terraform_runtime
  terraform-IsHonest = record {
    apply_own = λ request w p r response dry planed.
        rw (dry, planed)
          (λ answer e.
            OnOk-ok (IsUnder p.id) _ response (apply_plan-own p request.stack w) answer r e);
    import_own = λ p r w response answer e. absurd (import_none-never (some p) w response answer);
  }

module _ {W : Type 0} (Q : W → Type 0) (m : Machine W) (local : SurvivesLocal Q m) where
  module _ (ws : WorkSpace) where
    init_if-Leaves : (s : Stat) → Leaves Q (init_if m ws s)
    unfolding init_if
    init_if-Leaves found = record { at = λ w h. h }
    init_if-Leaves (broken e) = record { at = λ w h. h }
    init_if-Leaves missing = init_workspace-Leaves Q m local ws

    set_up-Leaves : Leaves Q (set_up m ws)
    unfolding set_up init_once
    set_up-Leaves =
        Leaves-bind (write_hcl m ws) (λ _. init_once m ws) (write_hcl-Leaves Q m local ws)
          λ _. record { at = λ w h. (init_if-Leaves (m.stat _ w)).at w h }

    planned_of-Leaves : (r : Resource) (p : PlanRepresentation) → Leaves Q (planned m ws r (some p))
    unfolding planned
    planned_of-Leaves r p = record { at = λ w h. ground arith }

    planned-Leaves : (r : Resource) (p : Option PlanRepresentation) → Leaves Q (planned m ws r p)
    unfolding planned
    planned-Leaves r none = record { at = λ w h. h }
    planned-Leaves r (some p) = planned_of-Leaves r p

    apply_in-Leaves : (r : Resource) → Leaves Q (apply_in m ws true r)
    unfolding apply_in dry_run
    apply_in-Leaves r =
        Leaves-bind (set_up m ws) (λ _. dry_run m ws r) set_up-Leaves
          λ _.
            Leaves-bind (plan m ws) (planned m ws r) (plan-Leaves Q m local ws) (planned-Leaves r)

    convert-Leaves : (r : Resource) (s : Option StateRepresentation) → Leaves Q (convert m ws r s)
    unfolding convert converted
    convert-Leaves r s =
        Leaves-bind (get_provider m ws) (converted m ws r s) (get_provider-Leaves Q m local ws)
          λ addr.
            Leaves-bind _ _ (Leaves-answer (convert_tf_state s addr)) λ c. record { at = λ w h. h }

    read_values-Leaves :
        (b : Bool) (r : Resource) (s : Option StateRepresentation)
        → Leaves Q (read_values m ws b r s)
    unfolding read_values
    read_values-Leaves true r s = convert-Leaves r s
    read_values-Leaves false r s = record { at = λ w h. h }

    read_back-Leaves :
        (r : Resource) (s : Option StateRepresentation) → Leaves Q (read_back m ws r s)
    unfolding read_back
    read_back-Leaves r s = read_values-Leaves (has_values s) r s

    read_in-Leaves : (r prior : Resource) → Leaves Q (read_in m ws r prior)
    unfolding read_in
    read_in-Leaves r prior = Leaves-bind (set_up m ws) _ set_up-Leaves λ _.
        Leaves-bind (write_tf_state m ws prior) _ (write_tf_state-Leaves Q m local ws prior) λ _.
          Leaves-bind (refresh_only m ws) (read_back m ws r) (refresh_only-Leaves Q m local ws)
            (read_back-Leaves r)

  read_prior-Q :
      (p prior : Option Resource) (stack : Stack) (w : W) → Q w → Q (read_prior m p prior stack w).1
  unfolding read_prior
  read_prior-Q p none stack w h = h
  read_prior-Q none (some prior) stack w h =
      respond-world Q _ ((read_in-Leaves _ (with_attributes prior none) prior).at w h)
  read_prior-Q (some r) (some prior) stack w h =
      respond-world Q _ ((read_in-Leaves _ r prior).at w h)

  apply_plan-Q :
      (p : Option Resource) (stack : Stack) (w : W) → Q w → Q (apply_plan m p stack true w).1
  unfolding apply_plan
  apply_plan-Q none stack w h = h
  apply_plan-Q (some r) stack w h = respond-world Q _ ((apply_in-Leaves _ r).at w h)

  pub terraform-SurvivesDryRun : SurvivesDryRun Q (terraform_runtime m)
  unfolding terraform_runtime
  terraform-SurvivesDryRun = record {
    read =
        λ request w h. read_prior-Q request.plan_resource request.prior_resource request.stack w h;
    dry_run = λ request w dry h. rw dry (apply_plan-Q request.plan_resource request.stack w h);
  }

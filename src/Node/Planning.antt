-- ===== src/Node/Planning.antt =====
-- Which action a node computes from the planned, the prior and the live resource.
use mathlib.Core.Path.{subst}
use kusion.Base.{ℕ, zero, suc, true, Option, none, some, ◌≡◌, ◌≢◌, ◌⊎◌, inl, inr, refl, arith}
use kusion.Control.{Outcome, ok, Result, value, error, continue, continue-eq-ok, bind-eq-ok}
use kusion.Runtime.{Runtime, Response}
use kusion.Node.Answers.{apply_answer-resource}
use kusion.Node.Ignored.{Ignores, remove_fields-Ignores}
use kusion.Models.{Resource}
use kusion.Change.{
  OperationType, undefined_operation, apply, apply_preview, destroy, destroy_preview, ActionType,
  undefined, un_change, create, update, delete,
}
use kusion.Node.{
  Engine, Run, ThreeWay, Planned, set_action, by_report, compare_resources, dry_run_apply,
  plan_apply, compute_for, compute_action_type, remove_fields, apply_answer,
}

-- Why a node has its action: what it is given, and what the report of the live resource
-- against the dry run compares.
module _ {W : Type 0} (eng : Engine W) where
  abbrev Exists : ThreeWay → Type 0
  Exists (planed, prior, live) = (planed ≢ none) × ((prior ≢ none) ⊎ (live ≢ none))

  -- the runtime of the node's type answers the dry run of the planned resource with `dry_run`
  abbrev DryRuns : ThreeWay → Run W → Option Resource → Type 0
  DryRuns three run dry_run =
      (rt : Runtime W) × (response : Response) × (eng.runtimes run.node.resource.type ≡ some rt)
      × ((rt.apply
            (record {
              prior_resource = three.1;
              plan_resource = three.0;
              stack = run.op.stack;
              dry_run = true;
            })
            run.world).0
          ≡ ok response)
      × (response.resource ≡ dry_run)

  -- The resources that are compared are the live one and the dry run's answer, both without the ignored
  -- fields.
  abbrev Compares : ThreeWay → Run W → Planned → Type 0
  Compares three run p =
      (dry_run : Option Resource) × DryRuns three run dry_run
      × Ignores run.op.ignore_fields three.2 p.1
      × Ignores run.op.ignore_fields dry_run p.0

  -- Why an action is taken, from the run that the computation starts in.
  abbrev pub Explains : ThreeWay → Run W → Planned → ActionType → Type 0
  Explains three run p delete = (three.0 ≡ none) × (p ≡ (none, three.2))
  Explains three run p create =
      (three.0 ≢ none) × (three.1 ≡ none) × (three.2 ≡ none) × (p ≡ (three.0, none))
  Explains three run p un_change =
      Exists three × Compares three run p × (eng.to_report p.1 p.0 ≡ value 0)
  Explains three run p update =
      Exists three × Compares three run p × ((n : ℕ) × (eng.to_report p.1 p.0 ≡ value (suc n)))
  Explains three run p undefined = ⊥

  explained :
      (three : ThreeWay) (start : Run W) (dry_run live : Option Resource) (a : ActionType)
      (run t : Run W) (p : Planned)
      → ◌≡◌ {A = Outcome Planned × Run W} (ok (dry_run, live), set_action a run) (ok p, t)
      → Explains three start (dry_run, live) a
      → Explains three start p t.node.action
  unfolding set_action
  explained three start dry_run live a run t p h x =
      let same : ◌≡◌ {A = Planned} (dry_run, live) p = cc in
      let moved : set_action a run ≡ t = cc in
      subst (λ q. Explains three start q t.node.action) same
        (subst (λ s. Explains three start (dry_run, live) s.node.action) moved x)

  by_report-explains :
      (three : ThreeWay) (start : Run W) (dry_run live : Option Resource) (r : Result ℕ)
      (run t : Run W) (p : Planned)
      → Exists three
      → Compares three start (dry_run, live)
      → eng.to_report live dry_run ≡ r
      → by_report dry_run live r run ≡ (ok p, t)
      → Explains three start p t.node.action
  unfolding by_report set_action
  by_report-explains three start dry_run live (value zero) run t p x c e h =
      explained three start dry_run live un_change run t p h (x, c, e)
  by_report-explains three start dry_run live (value (suc n)) run t p x c e h =
      explained three start dry_run live update run t p h (x, c, (n, e))
  by_report-explains three start dry_run live (error m) run t p x c e h = cc

  compared :
      (three : ThreeWay) (start : Run W) (dry_run : Option Resource) (run t : Run W) (p : Planned)
      → Exists three
      → DryRuns three start dry_run
      → run.op ≡ start.op
      → compare_resources eng dry_run three.2 run ≡ (ok p, t)
      → Explains three start p t.node.action
  unfolding compare_resources
  compared three start dry_run run t p x d same h =
      let (both, e, k) =
        continue-eq-ok (remove_fields run.op.ignore_fields three.2 dry_run, run) _ h in
      let ignored =
        subst (λ o. Ignores o.ignore_fields three.2 both.0 × Ignores o.ignore_fields dry_run both.1)
          same (remove_fields-Ignores run.op.ignore_fields three.2 dry_run both e) in
      by_report-explains three start both.1 both.0 (eng.to_report both.0 both.1) run t p x
        (dry_run, d, ignored.0, ignored.1) refl k

  dry_run_apply-DryRuns :
      (r : Resource) (prior live : Option Resource) (found : Option (Runtime W)) (run : Run W)
      (d : Option Resource)
      → eng.runtimes run.node.resource.type ≡ found
      → (dry_run_apply r prior found run).0 ≡ ok d
      → DryRuns (some r, prior, live) run d × ((dry_run_apply r prior found run).1.op ≡ run.op)
  unfolding dry_run_apply
  dry_run_apply-DryRuns r prior live none run d is e = cc
  dry_run_apply-DryRuns r prior live (some rt) run d is e =
      let (response, answer, k) = bind-eq-ok (rt.apply _ run.world).0 apply_answer e in
      ((rt, response, is, answer, apply_answer-resource response d k), refl)

  dry_run-explains :
      (r : Resource) (prior live : Option Resource) (run t : Run W) (p : Planned)
      → Exists (some r, prior, live)
      → continue
          (dry_run_apply r prior (eng.runtimes run.node.resource.type) run)
          (λ dry_run. compare_resources eng dry_run live)
        ≡ (ok p, t)
      → Explains (some r, prior, live) run p t.node.action
  dry_run-explains r prior live run t p x h =
      let found = eng.runtimes run.node.resource.type in
      let (d, e, k) = continue-eq-ok (dry_run_apply r prior found run) _ h in
      let runs = dry_run_apply-DryRuns r prior live found run d refl e in
      compared (some r, prior, live) run d _ t p x runs.0 runs.1 k

  plan_apply-explains :
      (planed prior live : Option Resource) (run t : Run W) (p : Planned)
      → plan_apply eng planed prior live run ≡ (ok p, t)
      → Explains (planed, prior, live) run p t.node.action
  unfolding plan_apply set_action
  plan_apply-explains none prior live run t p h =
      explained (none, prior, live) run none live delete run t p h (refl, refl)
  plan_apply-explains (some r) none none run t p h =
      explained (some r, none, none) run (some r) none create run t p h
        ((λ z. cc), refl, refl, refl)
  plan_apply-explains (some r) (some q) live run t p h =
      dry_run-explains r (some q) live run t p ((λ z. cc), inl (λ z. cc)) h
  plan_apply-explains (some r) none (some l) run t p h =
      dry_run-explains r none (some l) run t p ((λ z. cc), inr (λ z. cc)) h

  abbrev pub Fits : OperationType → ThreeWay → Run W → Planned → ActionType → Type 0
  Fits apply three run p a = Explains three run p a
  Fits apply_preview three run p a = Explains three run p a
  Fits destroy three run p a = (a ≡ delete) × (p ≡ (three.0, three.2))
  Fits destroy_preview three run p a = (a ≡ delete) × (p ≡ (three.0, three.2))
  Fits undefined_operation three run p a = ⊥

  compute_for-Fits :
      (ty : OperationType) (three : ThreeWay) (run t : Run W) (p : Planned)
      → compute_for eng ty three run ≡ (ok p, t)
      → Fits ty three run p t.node.action
  unfolding compute_for set_action
  compute_for-Fits apply (planed, prior, live) run t p h =
      plan_apply-explains planed prior live run t p h
  compute_for-Fits apply_preview (planed, prior, live) run t p h =
      plan_apply-explains planed prior live run t p h
  compute_for-Fits destroy three run t p h = ground arith
  compute_for-Fits destroy_preview three run t p h = ground arith
  compute_for-Fits undefined_operation three run t p h = cc

  -- When a node computes its action without an error, the action is the one that fits: always a
  -- deletion when destroying, with the planned and the live resource given on, and otherwise a deletion exactly for what is not planned, a creation
  -- for what is planned and neither recorded nor live, and no change or an update for the rest, as
  -- the report has no difference or some. What is reported, and given on, is the live resource against
  -- the answer of the runtime to a dry run of the planned resource: of both, no ignored field leads to a
  -- value, in the elements of lists neither, while a path that parts from all of them leads to the values
  -- that it led to, and the rest of the resource is as it was.
  pub compute_action_type-Fits :
      (three : ThreeWay) (run t : Run W) (p : Planned)
      → compute_action_type eng three run ≡ (ok p, t)
      → Fits run.op.operation_type three run p t.node.action
  unfolding compute_action_type
  compute_action_type-Fits three run t p h = compute_for-Fits run.op.operation_type three run t p h

-- ===== src/Node/Applying.antt =====
-- What a node's successful execution leaves behind when it applies or destroys.
use mathlib.Core.Path.{subst}
use kusion.Base.{String, Option, none, some, ◌≡◌, ◌≢◌, ◌⊎◌, inl, inr, refl, sym, ap, ◌∙◌, arith}
use kusion.Base.GoMap.{get, deref, Visits}
use kusion.Control.{Outcome, ok, Result, value, error, continue-eq-ok}
use kusion.Models.{Resource, index, listed}
use kusion.Change.{
  OperationType, undefined_operation, apply, apply_preview, destroy, destroy_preview, ActionType,
  undefined, un_change, create, update, delete,
}
use kusion.Operation.{Operation, after_apply, update_state}
use kusion.Operation.Refresh.{IsKeyed, refresh_resource_index-IsKeyed}
use kusion.Operation.Saved.{update_state-reads_back}
use kusion.States.{State, query_for, IsSaving}
use kusion.Runtime.{Runtime, IsHonest}
use kusion.Node.{
  Engine, Run, ThreeWay, Planned, init_three_way_diff_data, compute_action_type, call_runtime,
  refresh, save_state, from_result, apply_with, apply_resource, perform_for, perform, pre_execute,
  execute_rest, execute,
}
use kusion.Node.Keyed.{IsReady, IsReadyAt, IsOwn, pre_execute-IsReadyAt, init-IsOwn}
use kusion.Node.Answers.{call_runtime-own}
use kusion.Node.Steps.{IsAt, init-IsAt, compute_action_type-IsAt, call_runtime-IsAt}
use kusion.Node.Planning.{Fits, compute_action_type-Fits}

-- The engine's parts keep their promises.
pub record IsSound {W : Type 0} (eng : Engine W) : Type 0 where
  pub honest : (t : String) (rt : Runtime W) → eng.runtimes t ≡ some rt → IsHonest rt
  pub saving : IsSaving eng.storage
  pub visits : Visits eng.visit

-- What is saved is what the operation holds: the latest state of its tenant, project, stack and
-- cluster is the operation's result state, whose resources, indexed by key, are the operation's index.
pub record IsSaved {W : Type 0} (eng : Engine W) (run : Run W) : Type 0 where
  pub latest :
      (eng.storage.get_latest_state (query_for run.op.result_state) run.world).0
      ≡ value (some run.op.result_state)
  pub resources :
      (k : String)
      → get k (index (listed run.op.result_state.resources))
        ≡ deref (get k run.op.state_resource_index)
  pub keyed : IsKeyed run.op.state_resource_index

module _ {W : Type 0} where
  update_state-index :
      (o : Operation) (r : Result (Unit {0}) × State × W)
      → (after_apply o r).1.state_resource_index ≡ o.state_resource_index
  update_state-index o (value u, s, w) = refl
  update_state-index o (error e, s, w) = refl

  saved-eq :
      (s t : Run W) (r : Result (Unit {0}) × Operation × W)
      → ◌≡◌ {A = Outcome (Unit {0}) × Run W}
          (from_result r.0, record s { op = r.1; world = r.2 })
          (ok tt, t)
      → r ≡ (value tt, t.op, t.world)
  saved-eq s t (value u, o, w) e = ground arith
  saved-eq s t (error m, o, w) e = ground arith

module _ {W : Type 0} (eng : Engine W) (sound : IsSound eng) where
  save_state-IsSaved :
      (s t : Run W)
      → IsKeyed s.op.state_resource_index
      → save_state eng s ≡ (ok tt, t)
      → IsSaved eng t
  unfolding save_state update_state
  save_state-IsSaved s t h e =
      let r = update_state eng.storage eng.visit s.op s.world in
      let done : r ≡ (value tt, t.op, t.world) = saved-eq s t r e in
      let same : t.op.state_resource_index ≡ s.op.state_resource_index =
        sym (ap (λ q. q.1.state_resource_index) done) ∙ update_state-index s.op _ in
      record {
        latest =
            (update_state-reads_back sound.saving sound.visits s.op t.op s.world t.world h done).0;
        resources = λ k.
            (update_state-reads_back sound.saving sound.visits s.op t.op s.world t.world h done).1 k
            ∙ ap (λ m. deref (get k m)) (sym same);
        keyed = subst IsKeyed (sym same) h;
      }

  refresh-IsKeyed :
      (res : Option Resource) (s : Run W)
      → ((r : Resource) → res ≡ some r → r.id ≡ s.node.resource.id)
      → IsKeyed s.op.state_resource_index
      → IsKeyed (refresh res s).1.op.state_resource_index
  unfolding refresh
  refresh-IsKeyed res s own h =
      refresh_resource_index-IsKeyed s.node.resource.id res s.node.action s.op own h

  apply_with-IsSaved :
      (three : ThreeWay) (rt : Option (Runtime W)) (s t : Run W)
      → ((r : Runtime W) → rt ≡ some r → IsHonest r)
      → IsOwn s.node.resource.id three
      → (s.node.action ≡ delete) ⊎ ((p : Resource) × (three.0 ≡ some p))
      → IsKeyed s.op.state_resource_index
      → apply_with eng three rt s ≡ (ok tt, t)
      → IsSaved eng t
  unfolding apply_with
  apply_with-IsSaved three rt s t hon own x h e =
      let (res, called, f) = continue-eq-ok (call_runtime three rt s) _ e in
      let s1 = (call_runtime three rt s).1 in
      let here =
        (call_runtime-IsAt s.op s.node.resource three rt).at s
          (record { op = refl; resource = refl }) in
      let (u, refreshed, g) = continue-eq-ok (refresh res s1) (λ _. save_state eng) f in
      save_state-IsSaved (refresh res s1).1 t
        (refresh-IsKeyed res s1
          (λ r q.
            call_runtime-own s.node.resource.id rt three s res r hon own x called q
            ∙ ap (λ n. n.id) (sym here.resource))
          (subst (λ o. IsKeyed o.state_resource_index) (sym here.op) h))
        g

  present : (o : Option Resource) → o ≢ none → (r : Resource) × (o ≡ some r)
  present none h = absurd (h refl)
  present (some r) h = (r, refl)

  planned_or_delete :
      (ty : OperationType) (three : ThreeWay) (run : Run W) (p : Planned) (a : ActionType)
      → (ty ≡ apply) ⊎ (ty ≡ destroy)
      → Fits eng ty three run p a
      → (a ≡ delete) ⊎ ((r : Resource) × (three.0 ≡ some r))
  planned_or_delete apply three run p create x f = inr (present three.0 f.0)
  planned_or_delete apply three run p update x f = inr (present three.0 f.0.0)
  planned_or_delete apply three run p un_change x f = inr (present three.0 f.0.0)
  planned_or_delete apply three run p delete x f = inl refl
  planned_or_delete apply three run p undefined x f = absurd f
  planned_or_delete destroy three run p a x f = inl f.0
  planned_or_delete apply_preview three run p a x f = absurd (elim x [ inl e ↦ cc | inr e ↦ cc ])
  planned_or_delete destroy_preview three run p a x f = absurd (elim x [ inl e ↦ cc | inr e ↦ cc ])
  planned_or_delete undefined_operation three run p a x f =
      absurd (elim x [ inl e ↦ cc | inr e ↦ cc ])

  perform_for-IsSaved :
      (ty : OperationType) (three : ThreeWay) (planned : Planned) (s t : Run W)
      → (ty ≡ apply) ⊎ (ty ≡ destroy)
      → IsOwn s.node.resource.id three
      → (s.node.action ≡ delete) ⊎ ((p : Resource) × (three.0 ≡ some p))
      → IsKeyed s.op.state_resource_index
      → perform_for eng ty three planned s ≡ (ok tt, t)
      → IsSaved eng t
  unfolding perform_for apply_resource
  perform_for-IsSaved apply (planed, prior, live) planned s t ty own x h e =
      apply_with-IsSaved (planed, prior, planned.1) (eng.runtimes s.node.resource.type) s t
        (sound.honest s.node.resource.type) (record { planed = own.planed; prior = own.prior }) x h
        e
  perform_for-IsSaved destroy (planed, prior, live) planned s t ty own x h e =
      apply_with-IsSaved (planed, prior, planned.1) (eng.runtimes s.node.resource.type) s t
        (sound.honest s.node.resource.type) (record { planed = own.planed; prior = own.prior }) x h
        e
  perform_for-IsSaved apply_preview three planned s t ty own x h e =
      absurd (elim ty [ inl e ↦ cc | inr e ↦ cc ])
  perform_for-IsSaved destroy_preview three planned s t ty own x h e =
      absurd (elim ty [ inl e ↦ cc | inr e ↦ cc ])
  perform_for-IsSaved undefined_operation three planned s t ty own x h e =
      absurd (elim ty [ inl e ↦ cc | inr e ↦ cc ])

  execute_rest-IsSaved :
      (s t : Run W)
      → IsReadyAt s.node.resource.id s
      → execute_rest eng s ≡ (ok tt, t)
      → IsSaved eng t
  unfolding execute_rest perform
  execute_rest-IsSaved s t r e =
      let (three, read, f) = continue-eq-ok (init_three_way_diff_data eng s) _ e in
      let s1 = (init_three_way_diff_data eng s).1 in
      let start : IsAt s.op s.node.resource s = record { op = refl; resource = refl } in
      let at1 = (init-IsAt s.op s.node.resource eng).at s start in
      let (planned, computed, g) = continue-eq-ok (compute_action_type eng three s1) _ f in
      let s2 = (compute_action_type eng three s1).1 in
      let at2 = (compute_action_type-IsAt s.op s.node.resource eng three).at s1 at1 in
      let fits = compute_action_type-Fits eng three s1 s2 planned (λ i. (computed i, s2)) in
      let key : s2.node.resource.id ≡ s.node.resource.id = ap (λ n. n.id) at2.resource in
      let ty2 : (s2.op.operation_type ≡ apply) ⊎ (s2.op.operation_type ≡ destroy) =
        subst (λ o. (o.operation_type ≡ apply) ⊎ (o.operation_type ≡ destroy)) (sym at2.op)
          r.ready.real in
      let ty1 : (s1.op.operation_type ≡ apply) ⊎ (s1.op.operation_type ≡ destroy) =
        subst (λ o. (o.operation_type ≡ apply) ⊎ (o.operation_type ≡ destroy)) (sym at1.op)
          r.ready.real in
      perform_for-IsSaved s2.op.operation_type three planned s2 t ty2
        (subst (λ k. IsOwn k three) (sym key) (init-IsOwn eng s.node.resource.id s three r read))
        (planned_or_delete s1.op.operation_type three s1 planned s2.node.action ty1 fits)
        (subst (λ o. IsKeyed o.state_resource_index) (sym at2.op) r.ready.state) g

-- When a node of an apply or a destroy is executed without an error, with honest runtimes and a storage
-- that keeps its promise, the operation's index of resources is saved: the latest state of the result
-- state's tenant, project, stack and cluster is the result state, its resources, indexed by key, are
-- that index, and the index is still keyed by the resources' ids.
pub execute-IsSaved :
    {W : Type 0} (eng : Engine W) (run t : Run W)
    → IsSound eng
    → IsReady run.op
    → execute eng run ≡ (ok tt, t)
    → IsSaved eng t
unfolding execute
execute-IsSaved eng run t sound ready e =
    let (u, pre, f) = continue-eq-ok (pre_execute eng run) _ e in
    let s = (pre_execute eng run).1 in
    let at =
      (pre_execute-IsReadyAt eng run.node.resource.id).at run
        (record { ready = ready; keyed = refl }) in
    execute_rest-IsSaved eng sound s t (record { ready = at.ready; keyed = refl }) f

-- ===== src/Node/Keyed.antt =====
-- The indexes stay keyed by the resources' ids while a node is executed.
use kusion.Base.{
  String, Bool, true, false, Option, none, some, ◌≡◌, ◌⊎◌, inl, inr, sym, ◌∙◌, arith, eq_iff,
  Option-cases, if◌then◌else◌, if_both,
}
use kusion.Base.GoMap.{GoMap, get, deref, get-set}
use kusion.Control.{Outcome, ok, Keeps, continue-keeps, unless_err-eq-ok, bind-eq-ok}
use kusion.Models.{Resource, resource_key}
use kusion.Value.{Fields}
use kusion.Change.{
  OperationType, undefined_operation, apply, apply_preview, destroy, destroy_preview, delete,
  is_action,
}
use kusion.Operation.{Operation}
use kusion.Operation.Refresh.{IsKeyed}
use kusion.Runtime.{Runtime}
use kusion.Node.{
  Engine, Run, ThreeWay, with_attributes, shared, shared_pointer, write_through, write_attributes,
  replace_attributes, replace_in, pre_execute_for, pre_execute, read_live, init_three_way_diff_data,
  has_prior, all_refs,
}
use kusion.Refs.{ImplicitFun}

abbrev pub IsKeyed! : GoMap Resource → Type 0
IsKeyed! m = (k : String) (r : Resource) → get k m ≡ some r → r.id ≡ k

-- An operation that changes the infrastructure, with its indexes by the resources' ids.
pub record IsReady (o : Operation) : Type 0 where
  pub real : (o.operation_type ≡ apply) ⊎ (o.operation_type ≡ destroy)
  pub prior : IsKeyed! o.prior_state_resource_index
  pub state : IsKeyed o.state_resource_index

shared-IsKeyed :
    (key : String) (attrs : Option Fields) (m : GoMap Resource)
    → IsKeyed! m
    → IsKeyed! (shared key attrs m)
shared-IsKeyed key attrs m h k r e = elim (Option-cases (get key m)) [
  | inl n ↦ ground (arith, h k r)
  | inr (q, n) ↦
      ground (arith, h k r, h key q n, eq_iff key k, get-set key k (with_attributes attrs q) m)
]

shared_pointer-IsKeyed :
    (key : String) (attrs : Option Fields) (m : GoMap (Option Resource))
    → IsKeyed m
    → IsKeyed (shared_pointer key attrs m)
shared_pointer-IsKeyed key attrs m h k r e = elim (Option-cases (deref (get key m))) [
  | inl n ↦ ground (arith, h k r)
  | inr (q, n) ↦
      ground
        (arith, h k r, h key q n, eq_iff key k, get-set key k (some (with_attributes attrs q)) m)
]

write_through-IsReady :
    (key : String) (attrs : Option Fields) (o : Operation)
    → IsReady o
    → IsReady (write_through key attrs o)
unfolding write_through
write_through-IsReady key attrs o h = record {
  real = h.real;
  prior = shared-IsKeyed key attrs o.prior_state_resource_index h.prior;
  state = shared_pointer-IsKeyed key attrs o.state_resource_index h.state;
}

if_planed :
    (b : Bool) (n p : Resource) (key : String)
    → n.id ≡ key
    → (if b then none else some n) ≡ some p
    → p.id ≡ key
if_planed true n p key k e = cc
if_planed false n p key k e = ground arith

-- The planned and the prior resource of a node are under its key.
pub record IsOwn (key : String) (three : ThreeWay) : Type 0 where
  pub planed : (p : Resource) → three.0 ≡ some p → p.id ≡ key
  pub prior : (p : Resource) → three.1 ≡ some p → p.id ≡ key

module _ {W : Type 0} where
  -- Replacing attributes keeps the operation ready and the node's key.
  pub record IsReadyAt (key : String) (run : Run W) : Type 0 where
    pub ready : IsReady run.op
    pub keyed : run.node.resource.id ≡ key

  write_attributes-IsReadyAt :
      (key : String) (attrs : Option Fields) → Keeps (IsReadyAt key) (write_attributes attrs)
  unfolding write_attributes
  write_attributes-IsReadyAt key attrs = record {
    at = λ s h.
        if_both (λ (q : Outcome (Unit {0}) × Run W). IsReadyAt key q.1)
          (is_action s.node.action delete) _ _
          (record {
            ready = write_through-IsReady s.node.resource.id attrs s.op h.ready;
            keyed = h.keyed;
          })
          (record { ready = h.ready; keyed = h.keyed });
  }

  module _ (eng : Engine W) (key : String) where
    replace_in-IsReadyAt : (f : ImplicitFun) → Keeps (IsReadyAt key) (replace_in eng f)
    unfolding replace_in
    replace_in-IsReadyAt f = record {
      at = λ s h.
          continue-keeps (replace_attributes f eng.secrets s.node.resource.attributes, s)
            write_attributes h (write_attributes-IsReadyAt key);
    }

    pre_execute_for-IsReadyAt :
        (ty : OperationType) → Keeps (IsReadyAt key) (pre_execute_for eng ty)
    unfolding pre_execute_for
    pre_execute_for-IsReadyAt apply = record {
      at = λ s h. (replace_in-IsReadyAt (all_refs eng s)).at s h;
    }
    pre_execute_for-IsReadyAt apply_preview = record {
      at = λ s h.
          if_both (λ (q : Outcome (Unit {0}) × Run W). IsReadyAt key q.1) (has_prior s) _ _
            ((replace_in-IsReadyAt (all_refs eng s)).at s h) ((replace_in-IsReadyAt none).at s h);
    }
    pre_execute_for-IsReadyAt undefined_operation = record { at = λ s h. h }
    pre_execute_for-IsReadyAt destroy = record { at = λ s h. h }
    pre_execute_for-IsReadyAt destroy_preview = record { at = λ s h. h }

    pub pre_execute-IsReadyAt : Keeps (IsReadyAt key) (pre_execute eng)
    unfolding pre_execute
    pre_execute-IsReadyAt = record {
      at = λ s h. (pre_execute_for-IsReadyAt s.op.operation_type).at s h;
    }

  read_live-three :
      (planed prior : Option Resource) (rt : Option (Runtime W)) (s : Run W) (three : ThreeWay)
      → (read_live planed prior rt s).0 ≡ ok three
      → (three.0 ≡ planed) × (three.1 ≡ prior)
  unfolding read_live
  read_live-three planed prior none s three h = cc
  read_live-three planed prior (some rt) s three h =
      let (response, e, f) = bind-eq-ok (rt.read _ s.world).0 _ h in
      let g = unless_err-eq-ok response.status (ok (planed, prior, response.resource)) three f in
      ground arith

  module _ (eng : Engine W) where
    pub init-IsOwn :
        (key : String) (s : Run W) (three : ThreeWay)
        → IsReadyAt key s
        → (init_three_way_diff_data eng s).0 ≡ ok three
        → IsOwn key three
    unfolding init_three_way_diff_data
    init-IsOwn key s three h e =
        let n = s.node in
        let planed = if is_action n.action delete then none else some n.resource in
        let prior = get (resource_key n.resource) s.op.prior_state_resource_index in
        let (same, recorded) =
          read_live-three planed prior (eng.runtimes n.resource.type) s three e in
        record {
          planed =
              λ p f. if_planed (is_action n.action delete) n.resource p key h.keyed (sym same ∙ f);
          prior = λ p f. h.ready.prior n.resource.id p (sym recorded ∙ f) ∙ h.keyed;
        }

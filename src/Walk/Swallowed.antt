-- ===== src/Walk/Swallowed.antt =====
-- Which failures of a node the graph walk never hears of.
use kusion.Base.{String, true, Option, none, some, List, [], ◌∷◌, ◌≡◌, arith}
use kusion.Base.GoMap.{get}
use kusion.Status.{Status}
use kusion.Control.{ok}
use kusion.Models.{Resource, resource_key}
use kusion.Change.{destroy, apply_preview, update, delete}
use kusion.Runtime.{Runtime, ReadRequest, ApplyRequest}
use kusion.Operation.{Operation, started}
use kusion.Node.{ResourceNode, Engine, Run, pre_execute, execute, execute_rest}
use kusion.Walk.{resource_node, send, apply_walk_fun, preview_walk_fun}

module _ {W : Type 0} (eng : Engine W) where
  abbrev read_request : ResourceNode → Operation → ReadRequest
  read_request n o = record {
    prior_resource = get (resource_key n.resource) o.prior_state_resource_index;
    plan_resource = none;
    stack = o.stack;
  }

  -- A destroy whose runtime answers a deletion with a status, an error among them, is reported as a
  -- success: the walk gets no diagnostic and the terminal no message of a failure, since logging the
  -- status dereferences the planned resource, which a deletion does not have. The resource stays in
  -- the indexes, and no state is saved.
  pub apply_walk_fun-delete_status :
      (n : ResourceNode) (o : Operation) (w w' w'' : W) (rt : Runtime W) (s : Status)
      (live : Option Resource)
      → o.operation_type ≡ destroy
      → n.action ≡ delete
      → eng.runtimes n.resource.type ≡ some rt
      → rt.read (read_request n o) w ≡ (ok (record { resource = live; status = none }), w')
      → rt.delete (read_request n o).prior_resource o.stack w' ≡ (ok (some s), w'')
      → apply_walk_fun eng (some (resource_node n)) o w ≡ ([], send n.id started o, w'')
  unfolding apply_walk_fun execute pre_execute execute_rest
  apply_walk_fun-delete_status n o w w' w'' rt s live ty ac rs rd dl = ground arith

  abbrev start : ResourceNode → Operation → W → Run W
  start n o w = record { op = o; node = n; world = w }

  abbrev planned_read : ResourceNode → Operation → ReadRequest
  planned_read n o = record {
    prior_resource = get (resource_key n.resource) o.prior_state_resource_index;
    plan_resource = some n.resource;
    stack = o.stack;
  }

  abbrev dry_run_request : ResourceNode → Operation → ApplyRequest
  dry_run_request n o = record {
    prior_resource = get (resource_key n.resource) o.prior_state_resource_index;
    plan_resource = some n.resource;
    stack = o.stack;
    dry_run = true;
  }

  -- A preview of an apply with ignored fields ends with no diagnostic and records no step for a planned resource
  -- that is recorded and has disappeared from the infrastructure, where nothing before fails: PreExecute
  -- succeeds and changes nothing, the node's action is an update, the type has a runtime, its read answers
  -- no resource and no status, and its dry run a resource and no status. Removing the first ignored field
  -- then dereferences the live resource, which is not there.
  pub preview_walk_fun-ignored_fields :
      (n : ResourceNode) (o : Operation) (w w' w'' : W) (rt : Runtime W) (q d : Resource)
      (f : String) (fs : List String)
      → o.operation_type ≡ apply_preview
      → n.action ≡ update
      → pre_execute eng (start n o w) ≡ (ok tt, start n o w)
      → eng.runtimes n.resource.type ≡ some rt
      → get (resource_key n.resource) o.prior_state_resource_index ≡ some q
      → rt.read (planned_read n o) w ≡ (ok (record { resource = none; status = none }), w')
      → rt.apply (dry_run_request n o) w' ≡ (ok (record { resource = some d; status = none }), w'')
      → o.ignore_fields ≡ f ∷ fs
      → preview_walk_fun eng (some (resource_node n)) o w ≡ ([], o, w'')
  unfolding preview_walk_fun execute execute_rest
  preview_walk_fun-ignored_fields n o w w' w'' rt q d f fs ty ac pre rs pr rd ap ig = ground arith

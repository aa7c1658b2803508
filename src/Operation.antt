-- ===== src/Operation.antt =====
-- pkg/engine/operation/models/operation_context.go: what one operation keeps while the graph is
-- walked, and the methods that its nodes call under the lock.
pub mod Refresh
pub mod Saved
use kusion.Base.{
  ℕ, suc, ◌+◌, ◌%◌, ◌^◌, String, Bool, true, false, Option, none, some, List, [], ◌∷◌, ◌++◌, ◌≡◌,
  refl, if◌then◌else◌,
}
use kusion.Base.Text.{◌<>◌}
use kusion.Base.GoMap.{GoMap, get, set, keys, deref}
use kusion.Control.{Outcome, ok, failed, panicked, Result, value, error, ◌>>=◌}
use kusion.Models.{Resource, Spec}
use kusion.Change.{
  OperationType, ActionType, undefined, un_change, create, update, delete, ing, ChangeOrder,
}
use kusion.Runtime.{Stack}
use kusion.States.{State, StateQuery, StateStorage, new_state}

pub data OpResult : Type 0 where
  -- the empty result of the message that a node's run begins with
  started success failed_result skip : OpResult

pub record Message : Type 0 where
  pub resource_id : String
  pub op_result : OpResult

pub record Request : Type 0 where
  pub tenant : String
  pub project : String
  pub stack : Stack
  pub cluster : String
  pub operator : String
  pub spec : Option Spec

-- The runtimes, the storage and the secret stores are parameters of the code that uses them.
-- `messages` are those sent so far.
pub record Operation : Type 0 where
  pub operation_type : OperationType
  pub ctx_resource_index : GoMap (Option Resource)
  pub prior_state_resource_index : GoMap Resource
  pub state_resource_index : GoMap (Option Resource)
  pub ignore_fields : List String
  pub change_order : Option ChangeOrder
  pub stack : Stack
  pub messages : List Message
  pub result_state : State

abbrev store_both : String → Option Resource → Operation → Operation
store_both key r o = record o {
  ctx_resource_index = set key r o.ctx_resource_index;
  state_resource_index = set key r o.state_resource_index;
}

unfoldable pub refresh_resource_index :
    String → Option Resource → ActionType → Operation → Outcome (Unit {0}) × Operation
refresh_resource_index key r delete o = (ok tt, store_both key none o)
refresh_resource_index key r undefined o =
    (panicked ("unsupported actionType:" <> ing undefined), o)
refresh_resource_index key r _ o = (ok tt, store_both key r o)

-- The loop of `UpdateState`: what the index holds under the keys, less the deleted ones.
unfoldable pub live_resources : GoMap (Option Resource) → List String → List Resource
live_resources idx [] = []
live_resources idx (key ∷ ks) = elim (deref (get key idx)) [
  | none ↦ live_resources idx ks
  | some r ↦ r ∷ live_resources idx ks
]

abbrev pub uint64_mod : ℕ
uint64_mod = 2 ^ 64

-- The state that `UpdateState` hands to the storage.
unfoldable pub next_state : (List String → List String) → GoMap (Option Resource) → State → State
unfolding live_resources keys
next_state visit idx state = record state {
  serial = (state.serial + 1) % uint64_mod;
  resources = some (live_resources idx (visit (keys idx)));
}

module _ {W : Type 0} where
  abbrev pub after_apply :
      Operation → Result (Unit {0}) × State × W → Result (Unit {0}) × Operation × W
  after_apply o (value u, state, w) = (value tt, record o { result_state = state }, w)
  after_apply o (error e, state, w) =
      (error ("apply State failed. " <> e), record o { result_state = state }, w)

module _ {W : Type 0} (storage : StateStorage W) (visit : List String → List String) where
  -- the index is the operation's own at the only call
  unfoldable pub update_state : Operation → W → Result (Unit {0}) × Operation × W
  unfolding next_state
  update_state o w =
      after_apply o (storage.apply (next_state visit o.state_resource_index o.result_state) w)

-- `copier.Copy(resultState, request)` is a parameter. The texts of the two panics are cut short: they go
-- on with the query and the request in JSON.
module _ {W : Type 0} (storage : StateStorage W) (copy : State → Request → Result State)
    (release : String) where
  abbrev query_of : Request → StateQuery
  query_of r = record {
    tenant = r.tenant;
    stack = r.stack.name;
    project = r.project;
    cluster = r.cluster;
  }

  abbrev latest_or_new : Option State → State
  latest_or_new none = new_state release
  latest_or_new (some s) = s

  copied : Request → State → Result State → Outcome (State × State)
  copied request latest (error e) = panicked ("error:" <> e)
  copied request latest (value s) =
      ok (
        latest,
        record s { stack = request.stack.name; project = request.project; resources = none },
      )

  init_from : Request → Result (Option State) → Outcome (State × State)
  unfolding copied
  init_from request (error e) = panicked ("error:" <> e)
  init_from request (value found) =
      let latest = latest_or_new found in
      copied request latest (copy (record (new_state release) { serial = latest.serial }) request)

  -- the latest state and the fresh result state
  unfoldable pub init_states : Request → W → Outcome (State × State) × W
  unfolding init_from
  init_states request w =
      let (found, w') = storage.get_latest_state (query_of request) w in
      (init_from request found, w')

-- ===== src/Operations.antt =====
-- The operations of the engine: pkg/engine/operation/apply.go, destory.go and preview.go. Closing the
-- channel of messages and logging are left out.
pub mod Validated
pub mod Dry
use kusion.Base.{
  String, Bool, true, false, ◌||◌, Option, none, some, List, [], ◌∷◌, ◌++◌, ◌==◌, if◌then◌else◌,
  contains, ℕ,
}
use kusion.Base.Text.{◌<>◌}
use kusion.Base.GoMap.{GoMap, get}
use kusion.Status.{Status, is_err, invalid_argument, new_error_status, new_error_status_with_msg}
use kusion.Control.{
  Outcome, ok, failed, panicked, Result, value, error, ◌>>=◌, Exec, pure, lift, continue, ◌>=>◌,
  unless_err,
}
use kusion.Models.{Resource, Spec, resource_key, listed, index}
use kusion.Change.{
  OperationType, undefined_operation, apply, apply_preview, destroy, destroy_preview, ActionType,
  ChangeOrder,
}
use kusion.Refs.{SecretFun}
use kusion.Runtime.{Runtime}
use kusion.Runtimes.{InitFn, runtimes}
use kusion.States.{State, StateStorage}
use kusion.Operation.{Operation, Request, init_states}
use kusion.Node.{ResourceNode, Engine}
use kusion.Control.{nil_dereference}
use kusion.Walk.{Vertex, root, resource_node, Walked, apply_walk_fun, preview_walk_fun}
use kusion.Graph
use kusion.Graph.{Dag, root_node}
use kusion.Parser.{Parsed, parse_spec}
use kusion.Parser.Removal.{parse_deleted}

-- the first key that the loop of `validateRequest` meets again
unfoldable pub duplicate_from : List String → List Resource → Option String
duplicate_from seen [] = none
duplicate_from seen (r ∷ rs) =
    let rest = duplicate_from (resource_key r ∷ seen) rs in
    if contains (resource_key r) seen then some (resource_key r) else rest

no_duplicate : Option String → Option Status
no_duplicate none = none
no_duplicate (some key) =
    some
      (new_error_status_with_msg invalid_argument ("Duplicate resource:" <> key <> " in request."))

validate_spec : Option Spec → Option Status
unfolding duplicate_from no_duplicate
validate_spec none = some (
    new_error_status_with_msg invalid_argument
      "request.Spec is empty. If you want to delete all resources, please use command 'destroy'")
validate_spec (some sp) = no_duplicate (duplicate_from [] (listed sp.resources))

unfoldable pub validate_request : Option Request → Option Status
unfolding validate_spec
validate_request none = some (new_error_status_with_msg invalid_argument "request is nil")
validate_request (some request) = validate_spec request.spec

-- What an operation is given: the third-party graph library and the copier, the storage, the table of
-- runtimes, the orders in which the maps are ranged over, and the walker, which calls back for
-- vertices of the graph, one node after the other, and returns all of the diagnostics.
pub record Setup (W G : Type 0) : Type 0 where
  pub storage : StateStorage W
  pub copy : State → Request → Result State
  pub release : String
  pub support : GoMap (InitFn W)
  pub visit : List String → List String
  pub visit_prior : List String → List String
  pub secrets : SecretFun
  pub to_report : Option Resource → Option Resource → Result ℕ
  pub dag : Dag G
  pub new_graph : G
  pub walk : (Graph.Vertex → Operation → W → Walked W) → Option G → Operation → W → Walked W
  -- the text of diagnostics as one error
  pub error_text : List Status → String

-- The panic of a deferred `recover`: the text of a runtime error, or a text behind a prefix.
abbrev recovered : String → String → Status
recovered prefix p =
    if p == nil_dereference || p == "interface conversion"
    then new_error_status p
    else new_error_status (prefix <> p)

module _ {ℓ} {S A : Type ℓ} where
  recover : String → Outcome A × S → Outcome A × S
  recover prefix (ok a, s) = (ok a, s)
  recover prefix (failed e, s) = (failed e, s)
  recover prefix (panicked p, s) = (failed (recovered prefix p), s)

-- `request.Spec`, which the validation has found
the_spec : Option Spec → Outcome Spec
the_spec none = panicked nil_dereference
the_spec (some sp) = ok sp

module _ {W G : Type 0} (setup : Setup W G) where
  -- What is planned before the walk: the graph, and what the nodes point to. A node is that of the
  -- spec's resource, or of the recorded one where it is to be deleted.
  abbrev Plan : Type 0
  Plan = Option G × GoMap Resource × GoMap Resource

  unfoldable pub new_apply_graph : Spec → State → Outcome Plan
  unfolding parse_spec parse_deleted
  new_apply_graph sp prior = do
    (p, s) ← parse_spec setup.dag setup.visit sp (setup.dag.add root_node setup.new_graph)
    q ← parse_deleted setup.dag setup.visit setup.visit_prior (listed prior.resources) p.0
    ok (some q.0, p.1, q.1)

  unfoldable pub new_destroy_graph : Option (List Resource) → Outcome Plan
  unfolding parse_deleted
  new_destroy_graph resources = do
    q ←
        parse_deleted setup.dag setup.visit setup.visit_prior (listed resources)
          (setup.dag.add root_node setup.new_graph)
    ok (some q.0, [], q.1)

  pointed : String → ActionType → GoMap Resource → GoMap Resource → Option Resource
  pointed id ActionType.delete specs priors = get id priors
  pointed id a specs priors = get id specs

  node_of : String → ActionType → Option Resource → Option Vertex
  node_of id a none = none
  node_of id a (some r) = some (resource_node (record { id = id; action = a; resource = r }))

  vertex_of : GoMap Resource → GoMap Resource → Graph.Vertex → Option Vertex
  unfolding pointed node_of
  vertex_of specs priors root_node = some root
  vertex_of specs priors (Graph.resource_node id a) = node_of id a (pointed id a specs priors)

  abbrev engine_of : GoMap (Runtime W) → Engine W
  engine_of rts = record {
    runtimes = λ t. get t rts;
    storage = setup.storage;
    visit = setup.visit;
    secrets = setup.secrets;
    to_report = setup.to_report;
  }

  -- the error of the walk's diagnostics
  walked_to : List Status → Operation → Outcome Operation
  walked_to [] o = ok o
  walked_to (d ∷ ds) o = failed (new_error_status (setup.error_text (d ∷ ds)))

  abbrev Callback : Type 0
  Callback = Option Vertex → Operation → W → Walked W

  walk_graph : Callback → Plan → Operation → Exec W Operation
  unfolding walked_to vertex_of
  walk_graph call (g, specs, priors) o w =
      let (diags, o', w') = setup.walk (λ v. call (vertex_of specs priors v)) g o w in
      (walked_to diags o', w')

  abbrev copied_index : GoMap Resource → GoMap (Option Resource)
  copied_index [] = []
  copied_index ((k, r) ∷ m) = (k, some r) ∷ copied_index m

  -- The operation that the walk's callbacks share.
  unfoldable pub walk_operation :
      OperationType
      → List String
      → Option ChangeOrder
      → Operation
      → State
      → GoMap Resource
      → Operation
  walk_operation ty ignored order o result priors = record {
    operation_type = ty;
    ctx_resource_index = [];
    prior_state_resource_index = priors;
    state_resource_index = copied_index priors;
    ignore_fields = ignored;
    change_order = order;
    stack = o.stack;
    messages = o.messages;
    result_state = result;
  }

  checked : Request → Exec W Spec
  unfolding validate_request the_spec
  checked request w = (unless_err (validate_request (some request)) (the_spec request.spec), w)

  -- the runtimes and the plan
  unfoldable pub prepare : Option (List Resource) → Outcome Plan → Exec W (GoMap (Runtime W) × Plan)
  unfolding runtimes
  prepare resources plan w =
      ((do rts ← runtimes setup.support setup.visit w resources; p ← plan; ok (rts, p)), w)

  abbrev with_prior : Spec → State → Option (List Resource)
  with_prior sp prior = some (listed sp.resources ++ listed prior.resources)

  -- the body of `Apply`, with the result state that it returns
  apply_body : Request → Operation → Exec W State
  unfolding checked init_states new_apply_graph prepare walk_operation walk_graph apply_walk_fun
  apply_body request o = checked request >=> λ sp.
      init_states setup.storage setup.copy setup.release request >=> λ states.
      prepare (with_prior sp states.0) (new_apply_graph sp states.0) >=> λ (rts, plan).
      walk_graph (apply_walk_fun (engine_of rts)) plan
        (walk_operation apply [] none o states.1 plan.2)
      >=> λ o'. pure o'.result_state

  unfoldable pub apply_spec : Request → Operation → Exec W State
  unfolding apply_body recover
  apply_spec request o w = recover "apply panic:" (apply_body request o w)

  destroy_body : Request → Operation → Exec W (Unit {0})
  unfolding checked init_states new_destroy_graph prepare walk_operation walk_graph apply_walk_fun
  destroy_body request o = checked request >=> λ sp.
      init_states setup.storage setup.copy setup.release request >=> λ states.
      prepare states.0.resources (new_destroy_graph states.0.resources) >=> λ (rts, plan).
      walk_graph (apply_walk_fun (engine_of rts)) plan
        (walk_operation destroy [] none o states.1 plan.2)
      >=> λ o'. pure tt

  unfoldable pub destroy_all : Request → Operation → Exec W (Unit {0})
  unfolding destroy_body recover
  destroy_all request o w = recover "destroy panic:" (destroy_body request o w)

  -- The switch of `Preview` on the operation's type; there is no graph for another type.
  preview_plan : OperationType → Spec → State → Outcome Plan
  unfolding new_apply_graph new_destroy_graph
  preview_plan apply_preview sp prior = new_apply_graph sp prior
  preview_plan destroy_preview sp prior = new_destroy_graph sp.resources
  preview_plan ty sp prior = ok (none, [], [])

  preview_body : Request → Operation → Exec W (Option ChangeOrder)
  unfolding checked init_states preview_plan prepare walk_operation walk_graph preview_walk_fun
  preview_body request o = checked request >=> λ sp.
      init_states setup.storage setup.copy setup.release request >=> λ states.
      prepare (with_prior sp states.0) (preview_plan o.operation_type sp states.0)
      >=> λ (rts, plan).
          walk_graph (preview_walk_fun (engine_of rts)) plan
            (walk_operation o.operation_type o.ignore_fields o.change_order o states.1 plan.2)
          >=> λ o'. pure o'.change_order

  unfoldable pub preview : Request → Operation → Exec W (Option ChangeOrder)
  unfolding preview_body recover
  preview request o w = recover "preview panic:" (preview_body request o w)

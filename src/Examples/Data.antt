-- ===== src/Examples/Data.antt =====
-- The small project that the examples run.
use kusion.Base.{String, Option, none, some, List, [], ◌∷◌, refl, arith}
use kusion.Base.GoMap.{get, Visits}
use kusion.Control.{ok, value}
use kusion.Value.{str, end, field}
use kusion.Models.{Resource}
use kusion.Change.{ActionType, OperationType}
use kusion.States.{State, StateQuery, StateStorage, IsSaving, new_state}
use kusion.Runtime.{Runtime, IsHonest, Stack, Response}
use kusion.Operation.{Operation, Request}
use kusion.Operation.Refresh.{IsKeyed}
use kusion.Node.{ResourceNode, Engine, Run}

abbrev pub db : Resource
db = record {
  id = "db";
  type = "Kubernetes";
  attributes = some (field "host" (str "db.local") end);
  depends_on = [];
  extensions = none;
}

abbrev pub web : Resource
web = record {
  id = "web";
  type = "Kubernetes";
  attributes = some (field "host" (str "$kusion_path.db.host") end);
  depends_on = "db" ∷ [];
  extensions = none;
}

abbrev pub dev : Stack
dev = record { name = "dev"; path = "/dev" }

abbrev pub query : StateQuery
query = record { tenant = ""; stack = "dev"; project = "shop"; cluster = "" }

-- the world is the state that is recorded
abbrev pub World : Type 0
World = Option State

abbrev pub memory : StateStorage World
memory = record { get_latest_state = λ q w. (value w, w); apply = λ s w. (value tt, s, some s) }

pub memory-IsSaving : IsSaving memory
memory-IsSaving = record {
  reads_back = λ s out w w' e. ground arith;
  keeps = λ s out w w' e. (ground arith, ground arith);
}

abbrev pub in_order : List String → List String
in_order ks = ks

pub in_order-Visits : Visits in_order
in_order-Visits = record { each = λ ks k. refl }

abbrev answer : Option Resource → Response
answer r = record { resource = r; status = none }

abbrev pub echo : Runtime World
echo = record {
  apply = λ request w. (ok (answer request.plan_resource), w);
  read = λ request w. (ok (answer request.prior_resource), w);
  import_resource = λ r w. (ok (some (answer r)), w);
  delete = λ r stack w. (ok none, w);
}

pub echo-IsHonest : IsHonest echo
echo-IsHonest = record {
  apply_own = λ request w p r response d h k l. ground arith;
  import_own = λ p r w response h k. ground arith;
}

abbrev pub engine : Engine World
engine = record {
  runtimes = λ t. some echo;
  storage = memory;
  visit = in_order;
  secrets = none;
  to_report = λ a b. value 1;
}

abbrev pub operation : OperationType → Operation
operation ty = record {
  operation_type = ty;
  ctx_resource_index = [];
  prior_state_resource_index = [];
  state_resource_index = [];
  ignore_fields = [];
  change_order = some (record { step_keys = []; change_steps = some [] });
  stack = dev;
  messages = [];
  result_state = new_state "v1";
}

abbrev pub node : ActionType → Resource → ResourceNode
node a r = record { id = r.id; action = a; resource = r }

abbrev pub run : OperationType → ActionType → Resource → Run World
run ty a r = record { op = operation ty; node = node a r; world = none }

pub nothing-IsKeyed : IsKeyed []
unfolding get
nothing-IsKeyed k r e = ground arith

abbrev pub request : Request
request = record {
  tenant = "";
  project = "shop";
  stack = dev;
  cluster = "";
  operator = "";
  spec = some (record { resources = some (db ∷ web ∷ []) });
}

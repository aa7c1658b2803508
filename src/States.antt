-- ===== src/States.antt =====
-- pkg/engine/states/state.go: the recorded state of a stack, and the storages that keep it.
pub mod Local
pub mod Bucket
pub mod Web
pub mod Configured
pub mod Database
use kusion.Base.{ℕ, String, Option, some, [], ◌≡◌}
use kusion.Control.{Result, value}
use kusion.Models.{Resource}
use mathlib.Core.List.{List}

pub record StateQuery : Type 0 where
  pub tenant : String
  pub stack : String
  pub project : String
  pub cluster : String

-- Times are instants on a line, with zero for the zero time.
pub record State : Type 0 where
  pub id : ℕ
  pub tenant : String
  pub project : String
  pub stack : String
  pub cluster : String
  pub version : ℕ
  pub kusion_version : String
  pub serial : ℕ
  pub operator : String
  pub resources : Option (List Resource)
  pub create_time : ℕ
  pub modified_time : ℕ

-- `NewState`, at the release version of the build
abbrev pub new_state : String → State
new_state release = record {
  id = 0;
  tenant = "";
  project = "";
  stack = "";
  cluster = "";
  version = 1;
  kusion_version = release;
  serial = 0;
  operator = "";
  resources = some [];
  create_time = 0;
  modified_time = 0;
}

-- The interface `StateStorage`, over a world that its methods read and change. `Apply` also hands
-- back the state, whose pointer it may write through.
pub record StateStorage (W : Type 0) : Type 0 where
  pub get_latest_state : StateQuery → W → Result (Option State) × W
  pub apply : State → W → Result (Unit {0}) × State × W

-- The query that asks for a state by its own tenant, project, stack and cluster.
abbrev pub query_for : State → StateQuery
query_for s = record {
  tenant = s.tenant;
  stack = s.stack;
  project = s.project;
  cluster = s.cluster;
}

-- What the engine relies on: a state whose `Apply` succeeds is the latest one, and the storage leaves its
-- resources and serial number alone.
pub record IsSaving {W : Type 0} (st : StateStorage W) : Type 0 where
  pub reads_back :
      (s out : State) (w w' : W)
      → st.apply s w ≡ (value tt, out, w')
      → (st.get_latest_state (query_for out) w').0 ≡ value (some out)
  pub keeps :
      (s out : State) (w w' : W)
      → st.apply s w ≡ (value tt, out, w')
      → (out.resources ≡ s.resources) × (out.serial ≡ s.serial)

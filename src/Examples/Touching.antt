-- ===== src/Examples/Touching.antt =====
-- A cluster and a machine that change the recorded state on every call but queries and dry runs, and an
-- engine over both runtimes.
use kusion.Base.{
  String, Bool, true, false, Option, none, some, List, [], ◌∷◌, ◌++◌, ◌≡◌, if◌then◌else◌,
}
use kusion.Base.Text.{◌<>◌}
use kusion.Control.{Result, value, error}
use kusion.Value.{Value, Fields, get_field, str, end, field}
use kusion.States.{new_state}
use kusion.Runtimes.Supported.{support_runtimes}
use kusion.Graph.{Vertex}
use kusion.Walk.{Walked}
use kusion.Operation.{Operation}
use kusion.Operations.{Setup}
use kusion.Graph.ListDag.{ListGraph, list_dag}
use kusion.Cluster.{Cluster, Gvk, answered, rejected, not_found, SurvivesQueries, dry_run_all}
use kusion.Machine.{Machine, found, Ran, succeeded, exited, returned, is_query, SurvivesLocal}
use kusion.Examples.Data.{World, in_order, memory}

abbrev pub touched : World
touched = some (new_state "touched")

-- an empty list of stages is no dry run
abbrev after : List String → World → World
after [] w = touched
after (stage ∷ stages) w = w

abbrev deployments : Gvk
deployments = record { group = "apps"; version = "v1"; kind = "Deployment" }

abbrev pub of_kind : String → Fields
of_kind kind = field "kind" (str kind) end

abbrev kind_in : Option Value → String
kind_in (some (str s)) = s
kind_in v = ""

-- Manifests are Deployments, and a resource is named like its kind.
abbrev pub cluster : Cluster World
cluster = record {
  to_yaml = λ fs. value "";
  decode = λ s. value (of_kind "Deployment", deployments);
  marshal = λ fs. value "{}";
  unmarshal = λ s. value end;
  three_way_patch = λ original modified current. value "{}";
  merge_patch = λ current patch. value "{}";
  name = λ fs. "db";
  namespace = λ fs. "shop";
  kind = λ fs. kind_in (get_field "kind" fs);
  api_version = λ fs. "apps/v1";
  gvk_of = λ fs. record { group = "apps"; version = "v1"; kind = kind_in (get_field "kind" fs) };
  last_applied = λ fs. "";
  remove_nested = λ path fs. fs;
  from_service = λ fs. error "no service";
  to_service = λ s. value end;
  rest_mapping = λ g w. (answered (record { resource = g.kind; namespaced = true }), w);
  get = λ t name w. (rejected (not_found name), w);
  create = λ t obj options w. (answered obj, after options.dry_run w);
  patch = λ t name body options w. (answered end, after options.dry_run w);
  delete = λ t name w. (none, touched);
}

abbrev pub connect : World → Result (Cluster World)
connect w = value cluster

abbrev pub machine : Machine World
machine = record {
  join_path = λ a b. a <> "/" <> b;
  stat = λ path w. found;
  mkdir_all = λ path w. (returned tt, w);
  write_file = λ path content w. (returned tt, w);
  remove = λ path w. (returned tt, w);
  remove_all = λ path w. (returned tt, w);
  run = λ dir envs args w. if is_query args then (succeeded "", w) else (exited "", touched);
  environ = [];
  log_dir = "";
  home = value "/root";
  create_dir_if_not_exist = λ path w. (returned tt, w);
  kusion_data_folder = λ w. (returned "/root/.kusion", w);
  pretty = λ v. "{}";
  unmarshal_info = λ s. error "no json";
  errorf = λ s. s;
  unmarshal_state = λ s. value (record { values = none });
  unmarshal_plan = λ s. value (record { planned_values = [] });
  parse_lock = λ path w. (returned [], w);
}

pub value_inj : (c d : Cluster World) → value c ≡ value d → c ≡ d
value_inj c d e = cc

abbrev pub IsStill : World → World → Type 0
IsStill start w = w ≡ start

module _ (start : World) where
  kept_dry :
      (stages : List String) (w : World) → stages ≡ dry_run_all → w ≡ start → after stages w ≡ start
  kept_dry [] w e h = cc
  kept_dry (stage ∷ stages) w e h = h

  pub cluster-SurvivesQueries : SurvivesQueries (IsStill start) cluster
  cluster-SurvivesQueries = record {
    mapped = λ g w h. h;
    got = λ t name w h. h;
    created = λ t obj options w e h. kept_dry options.dry_run w e h;
    patched = λ t name body options w e h. kept_dry options.dry_run w e h;
  }

  ran_query :
      (b : Bool) (w : World)
      → b ≡ true
      → w ≡ start
      → (if◌then◌else◌ {A = Ran × World} b (succeeded "", w) (exited "", touched)).1 ≡ start
  ran_query true w e h = h
  ran_query false w e h = cc

  pub machine-SurvivesLocal : SurvivesLocal (IsStill start) machine
  machine-SurvivesLocal = record {
    made = λ path w h. h;
    written = λ path content w h. h;
    removed = λ path w h. h;
    removed_all = λ path w h. h;
    cached = λ path w h. h;
    housed = λ w h. h;
    parsed = λ path w h. h;
    ran = λ dir envs args w e h. ran_query (is_query args) w e h;
  }

-- The walker visits the vertices of the graph in the order in which it lists them.
abbrev pub visit_all :
    (Vertex → Operation → World → Walked World) → List Vertex → Operation → World → Walked World
visit_all call [] o w = ([], o, w)
visit_all call (v ∷ vs) o w =
    let (first, o', w') = call v o w in
    let (rest, o'', w'') = visit_all call vs o' w' in (first ++ rest, o'', w'')

visit_all-keeps :
    (P : Operation → World → Type 0) (call : Vertex → Operation → World → Walked World)
    → ((v : Vertex) (o : Operation) (w : World) → P o w → P (call v o w).1 (call v o w).2)
    → (vs : List Vertex) (o : Operation) (w : World) → P o w
    → P (visit_all call vs o w).1 (visit_all call vs o w).2
visit_all-keeps P call k [] o w h = h
visit_all-keeps P call k (v ∷ vs) o w h =
    visit_all-keeps P call k vs (call v o w).1 (call v o w).2 (k v o w h)

abbrev pub walk :
    (Vertex → Operation → World → Walked World)
    → Option ListGraph
    → Operation
    → World
    → Walked World
walk call none o w = ([], o, w)
walk call (some g) o w = visit_all call g.nodes o w

pub walk-keeps :
    (P : Operation → World → Type 0) (call : Vertex → Operation → World → Walked World)
    → ((v : Vertex) (o : Operation) (w : World) → P o w → P (call v o w).1 (call v o w).2)
    → (g : Option ListGraph) (o : Operation) (w : World) → P o w
    → P (walk call g o w).1 (walk call g o w).2
walk-keeps P call k none o w h = h
walk-keeps P call k (some g) o w h = visit_all-keeps P call k g.nodes o w h

abbrev pub setup : Setup World ListGraph
setup = record {
  storage = memory;
  copy = λ s r. value s;
  release = "v1";
  support = support_runtimes connect machine;
  visit = in_order;
  visit_prior = in_order;
  secrets = none;
  to_report = λ a b. value 1;
  dag = list_dag;
  new_graph = record { nodes = []; edges = [] };
  walk = walk;
  error_text = λ ds. "failed";
}

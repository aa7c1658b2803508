-- ===== src/Diff.antt =====
-- pkg/engine/operation/diff.go: the difference of a spec and the recorded state, as a text.
use kusion.Base.{String, Option, none, some, List, ◌≡◌, arith}
use kusion.Base.Text.{◌<>◌}
use kusion.Control.{
  Outcome, ok, failed, panicked, Result, value, error, check_not_nil, ◌>>=◌, ◌>>?◌,
}
use kusion.Models.{Resource, Spec}
use kusion.JsonUtil.{must_marshal_to_string}
use kusion.Operation.{Request}
use kusion.States.{State, StateQuery, StateStorage}

-- `json.Marshal` and the third-party report are parameters.
module _ {Report : Type 0} (marshal : Option (List Resource) → Result String)
    (to_report : String → String → Result Report) (to_human_string : Report → Result String) where
  human : Result Report → Result String
  human r = r >>? to_human_string

  report_on : String → Option State → Outcome (Result String)
  unfolding must_marshal_to_string human
  report_on plan none = ok (human (to_report "" plan))
  report_on plan (some latest) = do
    prior ← must_marshal_to_string (marshal latest.resources)
    ok (human (to_report prior prior))

  unfoldable pub diff_with_request_resource_and_state :
      Spec → Option State → Outcome (Result String)
  unfolding report_on
  diff_with_request_resource_and_state plan latest = do
    text ← must_marshal_to_string (marshal plan.resources)
    report_on text latest

  -- A panic is recovered, and the results are the zero ones then.
  returned : Outcome (Result String) → Result String
  returned (ok r) = r
  returned (failed s) = value ""
  returned (panicked p) = value ""

  diff_to : Spec → Result (Option State) → Outcome (Result String)
  unfolding diff_with_request_resource_and_state
  diff_to plan (error e) = ok (error ("GetLatestState failed: " <> e))
  diff_to plan (value latest) = diff_with_request_resource_and_state plan latest

  module _ {W : Type 0} (storage : StateStorage W) where
    diff_request : Request → W → Outcome Spec → Outcome (Result String) × W
    unfolding diff_to
    diff_request request w (failed s) = (failed s, w)
    diff_request request w (panicked p) = (panicked p, w)
    diff_request request w (ok plan) =
        let query : StateQuery = record {
          tenant = request.tenant;
          stack = request.stack.name;
          project = request.project;
          cluster = "";
        } in
        let (latest, w') = storage.get_latest_state query w in (diff_to plan latest, w')

    unfoldable pub diff : Request → W → Result String × W
    unfolding diff_request returned check_not_nil
    diff request w =
        let (r, w') = diff_request request w (check_not_nil request.spec "resource is nil") in
        (returned r, w')

  -- Once a state is recorded, the difference is the same for every two specs that can be marshalled:
  -- the recorded state is compared with itself.
  pub diff-ignores_plan :
      (plan plan' : Spec) (latest : State) (s s' : String)
      → marshal plan.resources ≡ value s
      → marshal plan'.resources ≡ value s'
      → diff_with_request_resource_and_state plan (some latest)
        ≡ diff_with_request_resource_and_state plan' (some latest)
  unfolding diff_with_request_resource_and_state
  diff-ignores_plan plan plan' latest s s' h h' = ground arith

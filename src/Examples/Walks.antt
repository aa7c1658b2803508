-- ===== src/Examples/Walks.antt =====
-- Walked vertices and a whole preview, at the small project.
use kusion.Base.{◌≤◌, count, ◌↔◌, String, none, some, [], ◌∷◌, ◌≡◌, refl}
use kusion.Base.GoMap.{GoMap, get}
use kusion.Status.{Status, new_error_status}
use kusion.Control.{ok, value, OnOk}
use kusion.Refs.{replace_fields, replace_implicit, replace_secret}
use kusion.Models.{Spec}
use kusion.Change.{apply_preview, destroy, update, delete}
use kusion.Runtime.{Runtime}
use kusion.Runtimes.{InitFn, runtimes}
use kusion.Runtimes.Started.{IsStarted, runtimes-IsStarted}
use kusion.Operation.{Operation, started}
use kusion.Node.{Engine, Run, pre_execute}
use kusion.Walk.{resource_node, send, apply_walk_fun, preview_walk_fun}
use kusion.Walk.Swallowed.{apply_walk_fun-delete_status, preview_walk_fun-ignored_fields}
use kusion.Operations.{validate_request}
use kusion.Operations.Validated.{keys_of, validate_request-none}
use kusion.Examples.Data.{db, web, engine, operation, node, World, in_order, echo, request}

abbrev refused : Status
refused = new_error_status "refused"

-- a runtime that refuses to delete, and whose resources have disappeared
abbrev refusing : Runtime World
refusing = record {
  apply = echo.apply;
  read = λ request w. (ok (record { resource = none; status = none }), w);
  import_resource = echo.import_resource;
  delete = λ r stack w. (ok (some refused), w);
}

abbrev refusing_engine : Engine World
refusing_engine = record engine { runtimes = λ t. some refusing }

apply_walk_fun-delete_status_example :
    apply_walk_fun refusing_engine (some (resource_node (node delete db))) (operation destroy) none
    ≡ ([], send "db" started (operation destroy), none)
apply_walk_fun-delete_status_example =
    apply_walk_fun-delete_status refusing_engine (node delete db) (operation destroy) none none none
      refusing refused none refl refl refl refl refl

-- a preview of a recorded resource, with an ignored field
abbrev ignoring : Operation
ignoring = record (operation apply_preview) {
  prior_state_resource_index = ("db", db) ∷ [];
  ignore_fields = "spec.replicas" ∷ [];
}

abbrev ignoring_run : Run World
ignoring_run = record { op = ignoring; node = node update db; world = none }

db_pre_executes : pre_execute refusing_engine ignoring_run ≡ (ok tt, ignoring_run)
unfolding pre_execute replace_fields replace_implicit replace_secret
db_pre_executes = refl

db_is_recorded : get "db" ignoring.prior_state_resource_index ≡ some db
unfolding get
db_is_recorded = refl

preview_walk_fun-ignored_fields_example :
    preview_walk_fun refusing_engine (some (resource_node (node update db))) ignoring none
    ≡ ([], ignoring, none)
preview_walk_fun-ignored_fields_example =
    preview_walk_fun-ignored_fields refusing_engine (node update db) ignoring none none none
      refusing db db "spec.replicas" [] refl refl db_pre_executes refl db_is_recorded refl refl refl

-- one supported type
abbrev table : GoMap (InitFn World)
table = ("Kubernetes", λ w. value echo) ∷ []

runtimes-IsStarted_example :
    OnOk
      (IsStarted table in_order none (some (db ∷ web ∷ [])))
      (runtimes table in_order none (some (db ∷ web ∷ [])))
runtimes-IsStarted_example = runtimes-IsStarted table in_order none (some (db ∷ web ∷ []))

abbrev spec : Spec
spec = record { resources = some (db ∷ web ∷ []) }

validate_request-none_example :
    (validate_request (some request) ≡ none)
    ↔ ((k : String) → count k (keys_of (db ∷ web ∷ [])) ≤ 1)
validate_request-none_example = validate_request-none request spec refl

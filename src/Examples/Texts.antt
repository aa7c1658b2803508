-- ===== src/Examples/Texts.antt =====
-- Change orders, the summary line, tables, backends, secret stores and differences.
use kusion.Base.{String, true, Option, none, some, List, [], ◌∷◌, ◌≡◌, ◌↔◌, refl}
use kusion.Base.GoMap.{GoMap, get, set}
use kusion.Control.{ok, Result, value}
use kusion.Value.{Value, str}
use kusion.Models.{Resource, Spec}
use kusion.Change.{
  ActionType, create, update, un_change, ChangeStep, ChangeOrder, steps_of, values, all_un_change,
  record_step, LineSummary, new_change_step, change_step_filter,
}
use kusion.Change.Order.{
  IsListed, IsListed?, all_of, steps_where, record_step-IsListed, values-eq_steps_where,
  all_un_change_iff,
}
use kusion.States.{new_state}
use kusion.Diff.{diff_with_request_resource_and_state, diff-ignores_plan}
use kusion.Table
use kusion.Table.{Row, Table, new_table, all_completed}
use kusion.Backend.{merge_config}
use kusion.Backend.Merged.{or_else, get-merge_config}
use kusion.Refs.{vault_prefix}
use kusion.Vals.{Vault, SecretStores, build_params, build_params-first_store}
use kusion.Examples.Data.{db, web, in_order, in_order-Visits}

-- one recorded creation
abbrev creating : ChangeStep
creating = new_change_step "db" create none (some db)

abbrev order : ChangeOrder
order = record { step_keys = "db" ∷ []; change_steps = some (("db", creating) ∷ []) }

order-IsListed : IsListed order
unfolding get
order-IsListed = ((creating, refl, refl), tt)

record_step-IsListed_example :
    IsListed? (record_step "web" update (some web) (some web) (some order))
record_step-IsListed_example =
    record_step-IsListed "web" update (some web) (some web) (some order) order-IsListed

values-eq_steps_where_example :
    values order (change_step_filter create ∷ [])
    ≡ ok (steps_where (steps_of order) (all_of (change_step_filter create ∷ [])) ("db" ∷ []))
values-eq_steps_where_example =
    values-eq_steps_where order (change_step_filter create ∷ []) order-IsListed

all_un_change_iff_example :
    (all_un_change in_order order ≡ true)
    ↔ ((k : String) (s : ChangeStep) → get k (steps_of order) ≡ some s → s.action ≡ un_change)
all_un_change_iff_example = all_un_change_iff in_order-Visits order

abbrev no_lines : LineSummary
no_lines = record { created = 0; updated = 0; deleted = 0 }

abbrev actions : List ActionType
actions = create ∷ update ∷ create ∷ un_change ∷ []

abbrev ready_row : Row
ready_row = record { type = "READY"; kind = "Pod"; name = "db"; detail = "" }

one_is_completed : all_completed (Table.update "db" ready_row (new_table ("db" ∷ []))) ≡ true
unfolding all_completed Table.update new_table set
one_is_completed = refl

abbrev project_config : GoMap Value
project_config = ("path", str "kusion_state.json") ∷ []

abbrev flag_config : GoMap Value
flag_config = ("path", str "other.json") ∷ []

get-merge_config_example :
    get "path" (merge_config in_order project_config flag_config)
    ≡ or_else (get "path" flag_config) (get "path" project_config)
get-merge_config_example = get-merge_config in_order-Visits "path" project_config flag_config

abbrev vault_at : String → Vault
vault_at address = record {
  address = address;
  proto = "";
  host = "";
  namespace = "";
  auth_method = "";
  token_env = "";
  token_file = "";
  role_id = "";
  secret_id = "";
  version = "";
}

abbrev stores_at : String → SecretStores
stores_at address = record { vault = some (vault_at address) }

abbrev cached : GoMap String
cached = (vault_prefix, "address=a") ∷ []

builds : build_params vault_prefix (stores_at "a") [] ≡ (ok "address=a", cached)
unfolding build_params get set
builds = refl

build_params-first_store_example :
    build_params vault_prefix (stores_at "b") cached ≡ (ok "address=a", cached)
build_params-first_store_example =
    build_params-first_store (stores_at "a") (stores_at "b") "address=a" [] cached builds

-- a resource list is marshalled to one text, and a report is the pair of the texts
abbrev marshal : Option (List Resource) → Result String
marshal none = value "null"
marshal (some rs) = value "[...]"

abbrev paired : String → String → Result (String × String)
paired a b = value (a, b)

abbrev shown : String × String → Result String
shown p = value p.0

abbrev with_web : Spec
with_web = record { resources = some (web ∷ []) }

abbrev with_nothing : Spec
with_nothing = record { resources = none }

diff-ignores_plan_example :
    diff_with_request_resource_and_state marshal paired shown with_web (some (new_state "v1"))
    ≡ diff_with_request_resource_and_state marshal paired shown with_nothing (some (new_state "v1"))
diff-ignores_plan_example =
    diff-ignores_plan marshal paired shown with_web with_nothing (new_state "v1") "[...]" "null"
      refl refl

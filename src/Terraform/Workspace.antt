-- ===== src/Terraform/Workspace.antt =====
-- pkg/engine/runtime/terraform/tfops/workspace.go: the working directory of one resource and the calls
-- of Terraform in it. The three setters are called before every use, so that a work space is made anew
-- for each.
pub mod Local
pub mod Commands
use kusion.Base.{
  String, Bool, true, false, not, Option, none, some, List, [], ◌∷◌, ◌++◌, ◌==◌, if◌then◌else◌,
}
use kusion.Base.Text.{◌<>◌, split}
use kusion.Control.{Result, value, error, nil_dereference}
use kusion.Value.{Value}
use kusion.Models.{Resource}
use kusion.Machine.{
  Machine, Task, Attempt, returned, errs, panics, give, fail, panic, then_do, ◌>>=◌, ◌>>◌, Stat,
  found, missing, broken, Ran, succeeded, exited, unstarted, StateRepresentation,
  PlanRepresentation, LockBlock,
}
use kusion.Terraform.Output.{tf_error}
use kusion.Terraform.Values.{extension, second_last, main_value, state_value}

pub record WorkSpace : Type 0 where
  pub resource : Resource
  pub stack_dir : String
  pub tf_cache_dir : String

-- `fmt.Errorf("…: %v", err)`
unfoldable pub in_front_of : {W A : Type 0} → String → Attempt A × W → Attempt A × W
in_front_of prefix (returned a, w) = (returned a, w)
in_front_of prefix (errs e, w) = (errs (prefix <> e), w)
in_front_of prefix (panics p, w) = (panics p, w)

abbrev of_attempt : {W A : Type 0} → Attempt A → Task W A
of_attempt r w = (r, w)

abbrev of_result : {W A : Type 0} → Result A → Task W A
of_result (value a) w = (returned a, w)
of_result (error e) w = (errs e, w)

module _ {W : Type 0} (m : Machine W) (ws : WorkSpace) where
  in_cache : String → String
  in_cache file = m.join_path ws.tf_cache_dir file

  chdir : String
  chdir = "-chdir=" <> ws.tf_cache_dir

  -- The directory is made if it is missing.
  make_dir : Stat → Task W (Unit {0})
  unfolding in_front_of
  make_dir found w = (returned tt, w)
  make_dir (broken e) w = (errs e, w)
  make_dir missing w = in_front_of "create workspace error: " (m.mkdir_all ws.tf_cache_dir w)

  write_main : Value → Task W (Unit {0})
  unfolding in_cache in_front_of
  write_main v w =
      in_front_of "write hcl main.tf.json error: "
        (m.write_file (in_cache "main.tf.json") (m.pretty v) w)

  stat_dir : Task W (Unit {0})
  unfolding make_dir
  stat_dir w = make_dir (m.stat ws.tf_cache_dir w) w

  unfoldable pub write_hcl : Task W (Unit {0})
  unfolding main_value write_main stat_dir
  write_hcl = do v ← of_attempt (main_value ws.resource); stat_dir; write_main v

  write_state_file : Value → Task W (Unit {0})
  unfolding in_cache in_front_of
  write_state_file v w =
      in_front_of "write hcl error: " (m.write_file (in_cache "terraform.tfstate") (m.pretty v) w)

  unfoldable pub write_tf_state : Resource → Task W (Unit {0})
  unfolding state_value write_state_file
  write_tf_state prior = of_attempt (state_value ws.resource prior) >>= write_state_file

  env_of_cache : String → String
  env_of_cache path = "TF_PLUGIN_CACHE_DIR=" <> path

  get_provider_cache_path : Task W String
  unfolding env_of_cache
  get_provider_cache_path = do
    home ← of_result m.home
    let path = m.join_path (m.join_path home ".terraform.d") "plugin-cache"
    m.create_dir_if_not_exist path
    give (env_of_cache path)

  log_path : String → String → String
  log_path folder provider =
      "TF_LOG_PATH="
      <> m.join_path (m.join_path folder "logs") ("terraform-provider-" <> provider <> ".log")

  get_env_provider_log_path : Task W String
  unfolding extension second_last split log_path
  get_env_provider_log_path = do
    folder ← m.kusion_data_folder
    address ← of_attempt (extension "provider" ws.resource)
    provider ← of_attempt (second_last (split b'/' address))
    give (log_path (if m.log_dir == "" then folder else m.log_dir) provider)

  unfoldable pub init_envs : Task W (List String)
  unfolding get_provider_cache_path get_env_provider_log_path
  init_envs = do
    cache ← get_provider_cache_path
    log ← get_env_provider_log_path
    give (m.environ ++ ("TF_LOG=DEBUG" ∷ cache ∷ log ∷ []))

  run_in : Option (List String) → List String → W → Ran × W
  unfolding chdir
  run_in envs args = m.run ws.stack_dir envs (chdir ∷ args)

  -- Only an exit code is an error: a program that could not be started is none.
  initialized : Ran × W → Attempt (Unit {0}) × W
  initialized (succeeded out, w) = (returned tt, w)
  initialized (exited stderr, w) = (errs stderr, w)
  initialized (unstarted e, w) = (returned tt, w)

  run_init : List String → Task W (Unit {0})
  unfolding run_in initialized
  run_init envs w = initialized (run_in (some envs) ("init" ∷ []) w)

  unfoldable pub init_workspace : Task W (Unit {0})
  unfolding init_envs run_init
  init_workspace = init_envs >>= run_init

  or_nil : {A : Type 0} → Option String → Attempt (Option A)
  or_nil none = returned none
  or_nil (some e) = errs e

  -- The error of a program that failed is made of its output, and may be nil: the answer is nil then.
  unless_failed : {A : Type 0} → Ran × W → Task W (Option A) → Attempt (Option A) × W
  unfolding or_nil tf_error
  unless_failed (succeeded out, w) rest = rest w
  unless_failed (exited out, w) rest = (or_nil (tf_error m.unmarshal_info m.errorf out), w)
  unless_failed (unstarted e, w) rest = (or_nil (tf_error m.unmarshal_info m.errorf ""), w)

  shown : Ran × W → Attempt String × W
  unfolding tf_error
  shown (succeeded out, w) = (returned out, w)
  shown (exited out, w) = elim (tf_error m.unmarshal_info m.errorf out) [
    | none ↦ (returned "", w)
    | some e ↦ (errs e, w)
  ]
  shown (unstarted e, w) = elim (tf_error m.unmarshal_info m.errorf "") [
    | none ↦ (returned "", w)
    | some e' ↦ (errs e', w)
  ]

  show : String → Task W String
  unfolding run_in shown
  show file w = shown (run_in none ("show" ∷ "-json" ∷ file ∷ []) w)

  unmarshal_as : {A : Type 0} → String → Result A → Attempt (Option A)
  unmarshal_as what (value a) = returned (some a)
  unmarshal_as what (error e) = errs ("json umarshal " <> what <> " failed: " <> e)

  show_if : {A : Type 0} → String → String → (String → Result A) → Stat → Task W (Option A)
  unfolding show unmarshal_as
  show_if file what unmarshal missing = give none
  show_if file what unmarshal (broken e) = fail e
  show_if file what unmarshal found = do
    out ← show file
    of_attempt (unmarshal_as what (unmarshal out))

  unfoldable pub show_state : Task W (Option StateRepresentation)
  unfolding show_if in_cache
  show_state w =
      show_if "terraform.tfstate" "state" m.unmarshal_state
        (m.stat (in_cache "terraform.tfstate") w) w

  unfoldable pub show_plan : Task W (Option PlanRepresentation)
  unfolding show_if in_cache
  show_plan w =
      show_if "plan.out" "plan representation" m.unmarshal_plan (m.stat (in_cache "plan.out") w) w

  provider_addr : List LockBlock → Attempt String
  provider_addr [] = panics "index out of range [0]"
  provider_addr (b ∷ bs) = elim b.version [
    | none ↦ panics nil_dereference
    | some v ↦ elim v [
      | value version ↦ returned (b.source_addr <> "/" <> version)
      | error e ↦ errs e
    ]
  ]

  unfoldable pub get_provider : Task W String
  unfolding provider_addr in_cache
  get_provider = do
    blocks ← m.parse_lock (in_cache ".terraform.lock.hcl")
    of_attempt (provider_addr blocks)

  get_provider_version : Task W String
  unfolding get_provider in_front_of
  get_provider_version w = in_front_of "provider get version failed: " (get_provider w)

  check_version_update : Task W Bool
  unfolding get_provider_version extension
  check_version_update = do
    addr ← get_provider_version
    wanted ← of_attempt (extension "provider" ws.resource)
    give (not (addr == wanted))

  check_version : Task W Bool
  unfolding check_version_update in_front_of
  check_version w = in_front_of "check provider version failed: " (check_version_update w)

  init_again : Task W (Unit {0})
  unfolding init_workspace in_front_of
  init_again w = in_front_of "init terraform workspace failed: " (init_workspace w)

  clean : Bool → Task W (Unit {0})
  unfolding in_cache init_again
  clean false = give tt
  clean true = do
    m.remove (in_cache ".terraform.lock.hcl")
    m.remove_all (in_cache ".terraform")
    init_again

  unfoldable pub clean_and_init_workspace : Task W (Unit {0})
  unfolding check_version clean
  clean_and_init_workspace = check_version >>= clean

  read_state : Task W (Option StateRepresentation)
  unfolding show_state in_front_of
  read_state w = in_front_of "terraform read state error: " (show_state w)

  -- `clean`, the environment, the program, and what follows if it succeeds
  in_workspace : {A : Type 0} → List String → Task W (Option A) → Task W (Option A)
  unfolding clean_and_init_workspace init_envs run_in unless_failed
  in_workspace args rest = do
    clean_and_init_workspace
    envs ← init_envs
    λ w. unless_failed (run_in (some envs) args w) rest

  unfoldable pub refresh_only : Task W (Option StateRepresentation)
  unfolding in_workspace read_state
  refresh_only =
      in_workspace ("apply" ∷ "-auto-approve" ∷ "-json" ∷ "--refresh-only" ∷ "-lock=false" ∷ [])
        read_state

  refresh_after : Task W (Option StateRepresentation)
  unfolding refresh_only in_front_of
  refresh_after w = in_front_of "terraform read state error: " (refresh_only w)

  unfoldable pub apply : Task W (Option StateRepresentation)
  unfolding in_workspace refresh_after
  apply = in_workspace ("apply" ∷ "-auto-approve" ∷ "-json" ∷ "-lock=false" ∷ []) refresh_after

  read_plan : Task W (Option PlanRepresentation)
  unfolding show_plan in_front_of
  read_plan w = in_front_of "terraform show plan error: " (show_plan w)

  unfoldable pub plan : Task W (Option PlanRepresentation)
  unfolding in_workspace read_plan
  plan = in_workspace ("plan" ∷ "-out=plan.out" ∷ []) read_plan

  destroyed : Ran × W → Attempt (Option (Unit {0})) × W
  unfolding unless_failed
  destroyed ran = unless_failed ran (give (some tt))

  unfoldable pub destroy : Task W (Option (Unit {0}))
  unfolding init_envs run_in destroyed
  destroy =
      init_envs >>= λ envs w. destroyed (run_in (some envs) ("destroy" ∷ "-auto-approve" ∷ []) w)

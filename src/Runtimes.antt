-- ===== src/Runtimes.antt =====
-- pkg/engine/runtime/init/init.go: the runtimes that an operation starts, one for each type of its
-- resources. The table of supported types and what starts a runtime are parameters.
pub mod Started
pub mod Supported
use kusion.Base.{String, Bool, true, false, Option, none, some, List, [], ◌∷◌, ◌==◌, if◌then◌else◌}
use kusion.Base.Text.{◌<>◌, join}
use kusion.Base.GoMap.{GoMap, get, set, keys}
use kusion.Status.{new_error_status, new_error_status_with_code, illegal_manifest}
use kusion.Control.{Outcome, ok, failed, Result, value, error, ◌>>=◌}
use kusion.Models.{Resource, listed}
use kusion.Runtime.{Runtime}

-- `NewKubernetesRuntime` and `NewTerraformRuntime` look at the world
abbrev pub InitFn : Type 0 → Type 0
InitFn W = W → Result (Runtime W)

module _ {W : Type 0} (support : GoMap (InitFn W)) (visit : List String → List String) (w : W) where
  init_runtime : String → GoMap (Runtime W) → Result (Runtime W) → Outcome (GoMap (Runtime W))
  init_runtime rt m (error e) = failed (new_error_status ("init " <> rt <> " runtime failed"))
  init_runtime rt m (value r) = ok (set rt r m)

  unless_started :
      String → GoMap (Runtime W) → InitFn W → Option (Runtime W) → Outcome (GoMap (Runtime W))
  unfolding init_runtime
  unless_started rt m init none = init_runtime rt m (init w)
  unless_started rt m init (some r) = ok m

  add_runtime : String → GoMap (Runtime W) → Option (InitFn W) → Outcome (GoMap (Runtime W))
  unfolding unless_started keys join
  add_runtime rt m none = failed (
      new_error_status_with_code illegal_manifest (
        "unknow resource type: "
        <> rt
        <> ". Currently supported resource types are: ["
        <> join " " (visit (keys support))
        <> "]"))
  add_runtime rt m (some init) = unless_started rt m init (get rt m)

  -- one round of the loop
  runtime_for : Resource → GoMap (Runtime W) → Outcome (GoMap (Runtime W))
  unfolding add_runtime
  runtime_for r m =
      if r.type == ""
      then failed
          (new_error_status_with_code illegal_manifest ("no resource type in resource: " <> r.id))
      else add_runtime r.type m (get r.type support)

  unfoldable pub runtimes_from : List Resource → GoMap (Runtime W) → Outcome (GoMap (Runtime W))
  unfolding runtime_for
  runtimes_from [] m = ok m
  runtimes_from (r ∷ rs) m = runtime_for r m >>= runtimes_from rs

  unfoldable pub runtimes : Option (List Resource) → Outcome (GoMap (Runtime W))
  unfolding runtimes_from
  runtimes rs = runtimes_from (listed rs) []

-- ===== src/Examples/Shipped.antt =====
-- The Kubernetes and Terraform runtimes, at a cluster and a machine that change the recorded state on
-- every call but queries and dry runs (Examples/Touching).
use mathlib.Core.Path.{subst}
use kusion.Base.{String, none, some, List, [], ◌∷◌, ◌≡◌, refl, ◌↔◌, All, inl, contains}
use kusion.Base.Text.{split}
use kusion.Base.GoMap.{get}
use kusion.Control.{ok}
use kusion.Value.{Value, Fields, get_field, str, object, list, cons, nil, end, field}
use kusion.Models.{Resource}
use kusion.Change.{apply_preview}
use kusion.Runtime.{IsHonest}
use kusion.Runtimes.Supported.{
  support_runtimes, new_terraform_runtime, started-IsHonest, preview-only_queries,
}
use kusion.Operation.{init_states}
use kusion.Operations.{preview}
use kusion.Cluster.{answered, rejected, not_found, SurvivesQueries}
use kusion.Kubernetes.Watching.{WatchSource}
use kusion.Machine.{returned, is_query}
use kusion.Terraform.{terraform_runtime, workspace_at}
use kusion.Terraform.Workspace.{init_envs}
use kusion.Terraform.Output.{tf_error}
use kusion.Terraform.Output.Silent.{IsSilent, tf_error-none}
use kusion.Terraform.Unheard.{delete-unheard}
use kusion.Examples.Touching.{
  touched, cluster, connect, machine, setup, walk-keeps, value_inj, IsStill,
  cluster-SurvivesQueries, machine-SurvivesLocal,
}
use kusion.Examples.Data.{dev, operation, World, request}

started-IsHonest_example : IsHonest (terraform_runtime machine)
unfolding new_terraform_runtime get support_runtimes
started-IsHonest_example =
    started-IsHonest connect machine "Terraform" (new_terraform_runtime connect machine) none
      (terraform_runtime machine) terraform_is_listed refl
  where
    terraform_is_listed :
        get "Terraform" (support_runtimes connect machine)
        ≡ some (new_terraform_runtime connect machine)
    terraform_is_listed = refl

abbrev reference : String → Value
reference kind =
    object
      (field "apiVersion" (str "apps/v1") (field "kind" (str kind) (field "name" (str "db") end)))

-- an object of a kind that a Deployment and a ReplicaSet own
abbrev owned : String → Fields
owned kind = field "kind" (str kind) (
    field "metadata"
      (object (
        field "ownerReferences"
          (list (cons (reference "Deployment") (cons (reference "ReplicaSet") nil))) end))
      end)

abbrev source : WatchSource World
source = record {
  open_watch = λ t w. (answered (1, none ∷ some (owned t.resource) ∷ []), w);
  kind_for_slices = λ w. (rejected (not_found "endpointslices"), w);
}

preview-only_queries_example : (preview setup request (operation apply_preview) none).1 ≡ none
unfolding init_states
preview-only_queries_example =
    preview-only_queries connect machine (IsStill none) setup request (operation apply_preview) none
      refl (record { keeps = walk-keeps }) (λ q v h. h)
      (λ v c e.
        subst (SurvivesQueries (IsStill none)) (value_inj cluster c e)
          (cluster-SurvivesQueries none))
      (machine-SurvivesLocal none) (inl refl) refl

abbrev file : Resource
file = record {
  id = "hashicorp:local:local_file:notes";
  type = "Terraform";
  attributes = none;
  depends_on = [];
  extensions = some (field "provider" (str "registry.terraform.io/hashicorp/local/2.2.3") end);
}

abbrev envs : List String
envs =
    "TF_LOG=DEBUG" ∷ "TF_PLUGIN_CACHE_DIR=/root/.terraform.d/plugin-cache"
    ∷ "TF_LOG_PATH=/root/.kusion/logs/terraform-provider-local.log" ∷ []

init_envs-file : init_envs machine (workspace_at machine dev file) none ≡ (returned envs, none)
unfolding init_envs get_field split workspace_at
init_envs-file = refl

delete-unheard_example :
    (terraform_runtime machine).delete (some file) dev none ≡ (ok none, touched)
unfolding is_query split contains workspace_at
delete-unheard_example =
    delete-unheard machine file dev none none touched touched envs "" init_envs-file refl
      (inl refl, tt) refl

tf_error-none_example :
    (tf_error machine.unmarshal_info machine.errorf "\nkilled" ≡ none)
    ↔ All (IsSilent machine.unmarshal_info) (split b'\n' "\nkilled")
tf_error-none_example = tf_error-none machine.unmarshal_info machine.errorf "\nkilled"

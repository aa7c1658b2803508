-- ===== src/Terraform/Unheard.antt =====
-- Which failures of Terraform its runtime reports as successes.
use kusion.Base.{String, none, some, List, [], ◌∷◌, ◌≡◌, All}
use kusion.Base.Text.{◌<>◌, split}
use kusion.Control.{ok}
use kusion.Models.{Resource, resource_key}
use kusion.Runtime.{Stack}
use kusion.Machine.{Machine, returned, exited}
use kusion.Terraform.Output.{tf_error}
use kusion.Terraform.Output.Silent.{IsSilent, tf_error-none}
use kusion.Terraform.Workspace.{WorkSpace, destroy, init_envs}
use kusion.Terraform.{terraform_runtime, workspace_at}

module _ {W : Type 0} (m : Machine W) where
  destroy-unheard :
      (ws : WorkSpace) (w w' w'' : W) (envs : List String) (out : String)
      → init_envs m ws w ≡ (returned envs, w')
      → m.run ws.stack_dir
          (some envs)
          (("-chdir=" <> ws.tf_cache_dir) ∷ "destroy" ∷ "-auto-approve" ∷ [])
          w'
        ≡ (exited out, w'')
      → tf_error m.unmarshal_info m.errorf out ≡ none
      → destroy m ws w ≡ (returned none, w'')
  unfolding destroy
  destroy-unheard ws w w' w'' envs out e r s = rw (e, r, s)

  -- A `terraform destroy` that fails, and whose output is silent (no line of it reads as an error
  -- diagnostic, as when the process is killed before it prints), is answered as a success: the working
  -- directory with the recorded state of the resource is removed, and the answer has no status.
  pub delete-unheard :
      (r : Resource) (stack : Stack) (w w1 w2 w3 : W) (envs : List String) (out : String)
      → init_envs m (workspace_at m stack r) w ≡ (returned envs, w1)
      → m.run stack.path
          (some envs)
          (("-chdir=" <> m.join_path stack.path ("." <> resource_key r))
            ∷ "destroy"
            ∷ "-auto-approve"
            ∷ [])
          w1
        ≡ (exited out, w2)
      → All (IsSilent m.unmarshal_info) (split b'\n' out)
      → m.remove_all (m.join_path stack.path ("." <> resource_key r)) w2 ≡ (returned tt, w3)
      → (terraform_runtime m).delete (some r) stack w ≡ (ok none, w3)
  unfolding terraform_runtime
  delete-unheard r stack w w1 w2 w3 envs out e f s d =
      let gone =
        destroy-unheard (workspace_at m stack r) w w1 w2 envs out e f
          ((tf_error-none m.unmarshal_info m.errorf out).1 s) in
      rw (gone, d)

-- ===== src/Terraform/Workspace/Local.antt =====
-- What the work space does with files is local.
use kusion.Base.{String, ◌==◌, if◌then◌else◌}
use kusion.Base.Text.{split}
use kusion.Control.{Result, value, error}
use kusion.Value.{Value}
use kusion.Models.{Resource}
use kusion.Machine.{
  Machine, Attempt, returned, errs, panics, Stat, found, missing, broken, SurvivesLocal, Leaves,
  Leaves-bind, Leaves-answer,
}
use kusion.Terraform.Values.{extension, second_last, main_value, state_value}
use kusion.Terraform.Workspace.{
  WorkSpace, in_front_of, of_result, make_dir, write_main, stat_dir, write_hcl, write_state_file,
  write_tf_state, get_provider_cache_path, env_of_cache, get_env_provider_log_path, log_path,
  init_envs,
}

pub in_front_of-world :
    {W A : Type 0} (Q : W → Type 0) (prefix : String) (r : Attempt A × W)
    → Q r.1
    → Q (in_front_of prefix r).1
unfolding in_front_of
in_front_of-world Q prefix (returned a, w) h = h
in_front_of-world Q prefix (errs e, w) h = h
in_front_of-world Q prefix (panics p, w) h = h

of_result-Leaves : {W A : Type 0} {Q : W → Type 0} (r : Result A) → Leaves Q (of_result r)
of_result-Leaves (value a) = record { at = λ w h. h }
of_result-Leaves (error e) = record { at = λ w h. h }

module _ {W : Type 0} (Q : W → Type 0) (m : Machine W) (local : SurvivesLocal Q m)
    (ws : WorkSpace) where
  make_dir-Leaves : (s : Stat) → Leaves Q (make_dir m ws s)
  unfolding make_dir
  make_dir-Leaves found = record { at = λ w h. h }
  make_dir-Leaves (broken e) = record { at = λ w h. h }
  make_dir-Leaves missing = record {
    at = λ w h. in_front_of-world Q _ _ (local.made ws.tf_cache_dir w h);
  }

  stat_dir-Leaves : Leaves Q (stat_dir m ws)
  unfolding stat_dir
  stat_dir-Leaves = record { at = λ w h. (make_dir-Leaves (m.stat ws.tf_cache_dir w)).at w h }

  write_main-Leaves : (v : Value) → Leaves Q (write_main m ws v)
  unfolding write_main
  write_main-Leaves v = record { at = λ w h. in_front_of-world Q _ _ (local.written _ _ w h) }

  pub write_hcl-Leaves : Leaves Q (write_hcl m ws)
  unfolding write_hcl
  write_hcl-Leaves = Leaves-bind _ _ (Leaves-answer (main_value ws.resource)) λ v.
      Leaves-bind (stat_dir m ws) (λ _. write_main m ws v) stat_dir-Leaves
        (λ _. write_main-Leaves v)

  pub write_tf_state-Leaves : (prior : Resource) → Leaves Q (write_tf_state m ws prior)
  unfolding write_tf_state write_state_file
  write_tf_state-Leaves prior =
      Leaves-bind _ (write_state_file m ws) (Leaves-answer (state_value ws.resource prior))
        λ v. record { at = λ w h. in_front_of-world Q _ _ (local.written _ _ w h) }

  cache_path-Leaves : Leaves Q (get_provider_cache_path m ws)
  unfolding get_provider_cache_path
  cache_path-Leaves = Leaves-bind (of_result m.home) _ (of_result-Leaves m.home) λ home.
      let path = m.join_path (m.join_path home ".terraform.d") "plugin-cache" in
      Leaves-bind (m.create_dir_if_not_exist path) _ (record { at = local.cached path })
        λ _. Leaves-answer (returned (env_of_cache m ws path))

  log_path-Leaves : Leaves Q (get_env_provider_log_path m ws)
  unfolding get_env_provider_log_path
  log_path-Leaves =
      Leaves-bind m.kusion_data_folder _ (record { at = local.housed })
        λ folder. Leaves-bind _ _ (Leaves-answer (extension "provider" ws.resource)) λ address.
          Leaves-bind _ _ (Leaves-answer (second_last (split b'/' address))) λ provider.
            Leaves-answer
              (returned (log_path m ws (if m.log_dir == "" then folder else m.log_dir) provider))

  pub init_envs-Leaves : Leaves Q (init_envs m ws)
  unfolding init_envs
  init_envs-Leaves = Leaves-bind (get_provider_cache_path m ws) _ cache_path-Leaves λ cache.
      Leaves-bind (get_env_provider_log_path m ws) _ log_path-Leaves λ log. record { at = λ w h. h }

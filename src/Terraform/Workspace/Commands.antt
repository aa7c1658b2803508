-- ===== src/Terraform/Workspace/Commands.antt =====
-- All that the work space runs, but `Apply` and `Destroy`, are commands that change no infrastructure.
use kusion.Base.{
  contains, arith, String, Bool, true, false, Option, none, some, List, [], ◌∷◌, ◌≡◌, refl,
}
use kusion.Control.{Result}
use kusion.Machine.{
  Machine, Task, Attempt, returned, errs, Stat, found, missing, broken, Ran, succeeded, exited,
  unstarted, SurvivesLocal, Leaves, Leaves-bind, Leaves-answer, is_query,
}
use kusion.Terraform.Output.{tf_error}
use kusion.Terraform.Values.{extension}
use kusion.Terraform.Workspace.{
  WorkSpace, init_envs, chdir, run_in, initialized, run_init, init_workspace, unless_failed, shown,
  show, show_if, show_state, show_plan, provider_addr, get_provider, get_provider_version,
  check_version_update, check_version, init_again, clean, clean_and_init_workspace, read_state,
  in_workspace, refresh_only, read_plan, plan, in_cache,
}
use kusion.Terraform.Workspace.Local.{in_front_of-world, init_envs-Leaves}

module _ {W : Type 0} (Q : W → Type 0) (m : Machine W) (local : SurvivesLocal Q m)
    (ws : WorkSpace) where
  run_in-world :
      (envs : Option (List String)) (args : List String) (w : W)
      → is_query (chdir m ws ∷ args) ≡ true
      → Q w
      → Q (run_in m ws envs args w).1
  unfolding run_in
  run_in-world envs args w e h = local.ran ws.stack_dir envs (chdir m ws ∷ args) w e h

  initialized-world : (r : Ran × W) → Q r.1 → Q (initialized m ws r).1
  unfolding initialized
  initialized-world (succeeded out, w) h = h
  initialized-world (exited out, w) h = h
  initialized-world (unstarted e, w) h = h

  pub init_workspace-Leaves : Leaves Q (init_workspace m ws)
  unfolding init_workspace run_init is_query
  init_workspace-Leaves =
      Leaves-bind (init_envs m ws) (run_init m ws) (init_envs-Leaves Q m local ws) λ envs. record {
        at = λ w h. initialized-world _ (run_in-world (some envs) ("init" ∷ []) w refl h);
      }

  unless_failed-world :
      {A : Type 0} (r : Ran × W) (rest : Task W (Option A))
      → Q r.1
      → Leaves Q rest
      → Q (unless_failed m ws r rest).1
  unfolding unless_failed
  unless_failed-world (succeeded out, w) rest h k = k.at w h
  unless_failed-world (exited out, w) rest h k = h
  unless_failed-world (unstarted e, w) rest h k = h

  or_shown-world :
      (o : Option String) (w : W) (r : Attempt String × W)
      → Q w
      → (elim o [ none ↦ (returned "", w) | some e ↦ (errs e, w) ]) ≡ r
      → Q r.1
  or_shown-world none w r h e = ground arith
  or_shown-world (some x) w r h e = ground arith

  shown-world : (r : Ran × W) → Q r.1 → Q (shown m ws r).1
  unfolding shown
  shown-world (succeeded out, w) h = h
  shown-world (exited out, w) h = or_shown-world (tf_error m.unmarshal_info m.errorf out) w _ h refl
  shown-world (unstarted e, w) h = or_shown-world (tf_error m.unmarshal_info m.errorf "") w _ h refl

  show-Leaves : (file : String) → Leaves Q (show m ws file)
  unfolding show is_query
  show-Leaves file = record {
    at = λ w h.
        shown-world (run_in m ws none ("show" ∷ "-json" ∷ file ∷ []) w)
          (run_in-world none ("show" ∷ "-json" ∷ file ∷ []) w refl h);
  }

  show_if-Leaves :
      {A : Type 0} (file what : String) (unmarshal : String → Result A) (s : Stat)
      → Leaves Q (show_if m ws file what unmarshal s)
  unfolding show_if
  show_if-Leaves file what unmarshal missing = record { at = λ w h. h }
  show_if-Leaves file what unmarshal (broken e) = record { at = λ w h. h }
  show_if-Leaves file what unmarshal found =
      Leaves-bind (show m ws file) _ (show-Leaves file) λ out. record { at = λ w h. h }

  read_state-Leaves : Leaves Q (read_state m ws)
  unfolding read_state show_state
  read_state-Leaves = record {
    at = λ w h. in_front_of-world Q _ _ (
        (show_if-Leaves "terraform.tfstate" "state" m.unmarshal_state
            (m.stat (in_cache m ws "terraform.tfstate") w)).at
          w h);
  }

  read_plan-Leaves : Leaves Q (read_plan m ws)
  unfolding read_plan show_plan
  read_plan-Leaves = record {
    at = λ w h. in_front_of-world Q _ _ (
        (show_if-Leaves "plan.out" "plan representation" m.unmarshal_plan
            (m.stat (in_cache m ws "plan.out") w)).at
          w h);
  }

  pub get_provider-Leaves : Leaves Q (get_provider m ws)
  unfolding get_provider
  get_provider-Leaves =
      Leaves-bind (m.parse_lock (in_cache m ws ".terraform.lock.hcl")) _
        (record { at = local.parsed (in_cache m ws ".terraform.lock.hcl") })
        λ blocks. Leaves-answer (provider_addr m ws blocks)

  version_update-Leaves : Leaves Q (check_version_update m ws)
  unfolding check_version_update get_provider_version
  version_update-Leaves =
      Leaves-bind (get_provider_version m ws) _
        (record { at = λ w h. in_front_of-world Q _ _ (get_provider-Leaves.at w h) })
        λ addr.
          Leaves-bind _ _ (Leaves-answer (extension "provider" ws.resource))
            λ wanted. record { at = λ w h. h }

  clean-Leaves : (b : Bool) → Leaves Q (clean m ws b)
  unfolding clean init_again
  clean-Leaves false = record { at = λ w h. h }
  clean-Leaves true =
      Leaves-bind (m.remove (in_cache m ws ".terraform.lock.hcl")) _
        (record { at = local.removed (in_cache m ws ".terraform.lock.hcl") })
        λ _.
          Leaves-bind (m.remove_all (in_cache m ws ".terraform")) (λ _. init_again m ws)
            (record { at = local.removed_all (in_cache m ws ".terraform") })
            λ _. record { at = λ w h. in_front_of-world Q _ _ (init_workspace-Leaves.at w h) }

  clean_and_init-Leaves : Leaves Q (clean_and_init_workspace m ws)
  unfolding clean_and_init_workspace check_version
  clean_and_init-Leaves =
      Leaves-bind (check_version m ws) (clean m ws)
        (record { at = λ w h. in_front_of-world Q _ _ (version_update-Leaves.at w h) }) clean-Leaves

  in_workspace-Leaves :
      {A : Type 0} (args : List String) (rest : Task W (Option A))
      → is_query (chdir m ws ∷ args) ≡ true
      → Leaves Q rest
      → Leaves Q (in_workspace m ws args rest)
  unfolding in_workspace
  in_workspace-Leaves args rest e k =
      Leaves-bind (clean_and_init_workspace m ws) _ clean_and_init-Leaves λ _.
        Leaves-bind (init_envs m ws) _ (init_envs-Leaves Q m local ws) λ envs. record {
          at = λ w h. unless_failed-world _ rest (run_in-world (some envs) args w e h) k;
        }

  pub refresh_only-Leaves : Leaves Q (refresh_only m ws)
  unfolding refresh_only is_query contains
  refresh_only-Leaves = in_workspace-Leaves _ (read_state m ws) refl read_state-Leaves

  pub plan-Leaves : Leaves Q (plan m ws)
  unfolding plan is_query
  plan-Leaves = in_workspace-Leaves _ (read_plan m ws) refl read_plan-Leaves

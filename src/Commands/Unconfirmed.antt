-- ===== src/Commands/Unconfirmed.antt =====
-- What the commands of pkg/cmd do to the infrastructure without a confirmation.
use kusion.Base.{
  String, true, false, not, ◌&&◌, Option, none, ◌≡◌, refl, sym, ap, ◌∙◌, Bool-cases, inl, inr,
  length,
}
use kusion.Control.{value}
use kusion.Change.{ChangeOrder, all_un_change}
use kusion.Models.{Spec}
use kusion.States.{State, StateStorage}
use kusion.Runtime.{Stack}
use kusion.Operation.{Operation, Request}
use kusion.Node.Previewing.{IsPreview}
use kusion.Operations.{preview}
use kusion.Operations.Dry.{preview-is_dry}
use kusion.Vals.{SecretStores, is_valid}
use kusion.Projects.{Project, detect_project_and_stack}
use kusion.Machine.{Task, Leaves, Leaves-bind, ◌>>=◌}
use kusion.Commands.{Shell, Flags, confirm, attempt, answered, changes_of, new_operation}
use kusion.Commands.Reading.{
  SurvivesReading, attempt-Leaves, answered-Q, unless_failing-Leaves, changes_of-Leaves,
  found_state-Q, generated-Q,
}
use kusion.Commands.Running.{
  storage_of, no_resources, no_resources_in, preview_destroy, if_confirmed, destroy_previewed,
  destroy_found, destroy_run, preview_apply, apply_for_real, apply_changes, watch_if,
  apply_confirmed, apply_previewed, generate_spec, with_changes, apply_run,
}

module _ {W G : Type 0} (Q : W → Type 0) (sh : Shell W G) (flags : Flags)
    (reading : SurvivesReading Q sh) where
  previews :
      (project : Project) (storage : StateStorage W) (stores : Option SecretStores)
      → storage_of sh project ≡ value storage
      → (request : Request) (o : Operation) → IsPreview o.operation_type
      → (what : String)
      → Leaves Q
          (λ w. answered what sh.status_text (preview (sh.engine storage stores) request o w))
  previews project storage stores e request o ty what = record {
    at = λ w h. answered-Q Q what sh.status_text (preview (sh.engine storage stores) request o w) (
        preview-is_dry Q (sh.engine storage stores) request o w
          (reading.walks project storage stores e) (reading.previewed project storage stores e) ty
          h);
  }

  preview_destroy-Leaves :
      (project : Project) (stack : Stack) (storage : StateStorage W) (sp : Spec)
      → storage_of sh project ≡ value storage
      → Leaves Q (preview_destroy sh flags project stack storage sp)
  unfolding preview_destroy new_operation
  preview_destroy-Leaves project stack storage sp e =
      Leaves-bind _ changes_of
        (previews project storage none e _ _ (inr refl) "preview failed, status: ")
        (changes_of-Leaves Q)

  -- an asked question: what goes on is kept, if it is confirmed
  asked :
      (task : Task W (Unit {0}))
      → (confirm flags.yes sh.answers ≡ value true → Leaves Q task)
      → Leaves Q (attempt (confirm flags.yes sh.answers) >>= λ go. if_confirmed go task)
  unfolding if_confirmed
  asked task k = attempt-Leaves Q (confirm flags.yes sh.answers) _ λ go e. elim (Bool-cases go) [
    | inl holds ↦ rw holds (k (e ∙ ap value holds))
    | inr fails ↦ rw fails (record { at = λ w h. h })
  ]

  destroy_previewed-Leaves :
      (confirm flags.yes sh.answers ≡ value true → flags.detail ≡ true)
      → (project : Project) (stack : Stack) (storage : StateStorage W) (sp : Spec)
      → storage_of sh project ≡ value storage
      → Leaves Q (destroy_previewed sh flags project stack storage sp)
  unfolding destroy_previewed
  destroy_previewed-Leaves shown project stack storage sp e =
      Leaves-bind _ _ (preview_destroy-Leaves project stack storage sp e) λ order.
        elim (Bool-cases flags.detail) [
          | inl holds ↦ rw holds (record { at = λ w h. h })
          | inr fails ↦
              rw fails (asked _ (λ k. let never : true ≡ false = sym (shown k) ∙ fails in cc))
        ]

  destroy_found-Leaves :
      (confirm flags.yes sh.answers ≡ value true → flags.detail ≡ true)
      → (project : Project) (stack : Stack) (storage : StateStorage W) (latest : State)
      → storage_of sh project ≡ value storage
      → Leaves Q (destroy_found sh flags project stack storage latest)
  unfolding destroy_found
  destroy_found-Leaves shown project stack storage latest e =
      elim (Bool-cases (no_resources latest.resources)) [
        | inl holds ↦ rw holds (record { at = λ w h. h })
        | inr fails ↦ rw fails (destroy_previewed-Leaves shown project stack storage _ e)
      ]

  -- Without a confirmation, or with `--detail`, the destroy command keeps what reading and previewing
  -- keep: it deletes nothing and saves no state, whatever it returns.
  pub destroy_run-only_previews :
      (confirm flags.yes sh.answers ≡ value true → flags.detail ≡ true)
      → (w : W) → Q w
      → Q (destroy_run sh flags w).1
  unfolding destroy_run
  destroy_run-only_previews shown w h =
      (attempt-Leaves Q (detect_project_and_stack sh.tree sh.work_dir) _ λ found f.
          attempt-Leaves Q (storage_of sh found.0) _ λ storage e.
            Leaves-bind _ _
              (record {
                at = λ v q.
                    found_state-Q Q (storage.get_latest_state _ v)
                      (reading.latest found.0 storage _ v e q);
              })
              (λ latest. destroy_found-Leaves shown found.0 found.1 storage latest e)).at
        w h

  preview_apply-Leaves :
      (project : Project) (stack : Stack) (storage : StateStorage W) (sp : Option Spec)
      → storage_of sh project ≡ value storage
      → Leaves Q (preview_apply sh flags project stack storage sp)
  unfolding preview_apply new_operation
  preview_apply-Leaves project stack storage sp e =
      elim (Bool-cases (is_valid project.config.secret_stores)) [
        | inl holds ↦ rw holds (
            Leaves-bind _ changes_of
              (previews project storage project.config.secret_stores e _ _ (inl refl)
                "preview failed.\n")
              (changes_of-Leaves Q))
        | inr fails ↦ rw fails (record { at = λ w h. h })
      ]

  apply_confirmed-Leaves :
      flags.dry_run ≡ true
      → (project : Project) (stack : Stack) (storage : StateStorage W) (sp : Option Spec)
        (order : ChangeOrder)
      → Leaves Q (apply_confirmed sh flags project stack storage sp order)
  unfolding apply_confirmed apply_changes apply_for_real watch_if
  apply_confirmed-Leaves dry project stack storage sp order =
      elim (Bool-cases (is_valid project.config.secret_stores)) [
        | inl holds ↦
            rw (holds, dry)
              (Leaves-bind _ _
                (Leaves-bind _ _
                  (unless_failing-Leaves Q (sh.progress_error (length order.step_keys)))
                  (λ t. record { at = λ w h. h }))
                (λ t. record { at = λ w h. h }))
        | inr fails ↦ rw fails (record { at = λ w h. h })
      ]

  apply_previewed-Leaves :
      (confirm flags.yes sh.answers ≡ value true → flags.dry_run ≡ true)
      → (project : Project) (stack : Stack) (storage : StateStorage W) (sp : Option Spec)
        (order : ChangeOrder)
      → Leaves Q (apply_previewed sh flags project stack storage sp order)
  unfolding apply_previewed
  apply_previewed-Leaves dry project stack storage sp order =
      elim (Bool-cases (all_un_change sh.visit order)) [
        | inl same ↦ rw same (record { at = λ w h. h })
        | inr changed ↦ elim (Bool-cases (flags.detail && flags.all && not flags.yes)) [
          | inl shown ↦ rw (changed, shown) (record { at = λ w h. h })
          | inr on ↦
              rw (changed, on)
                (asked _ (λ k. apply_confirmed-Leaves (dry k) project stack storage sp order))
        ]
      ]

  with_changes-Leaves :
      (project : Project) (stack : Stack)
      (next : StateStorage W → Option Spec → ChangeOrder → Task W (Unit {0})) (sp : Option Spec)
      → ((storage : StateStorage W) (order : ChangeOrder) → Leaves Q (next storage sp order))
      → Leaves Q (with_changes sh flags project stack next sp)
  unfolding with_changes
  with_changes-Leaves project stack next sp k = elim (Bool-cases (no_resources_in sp)) [
    | inl holds ↦ rw holds (record { at = λ w h. h })
    | inr fails ↦ rw fails (
        attempt-Leaves Q (storage_of sh project) _ λ storage e.
          Leaves-bind _ _ (preview_apply-Leaves project stack storage sp e) (k storage))
  ]

  generate_spec-Leaves :
      (project : Project) (stack : Stack) → Leaves Q (generate_spec sh project stack)
  unfolding generate_spec
  generate_spec-Leaves project stack = record {
    at = λ w h. generated-Q Q (sh.generate project stack w) (reading.generated project stack w h);
  }

  -- Without a confirmation, or with `--dry-run`, the apply command keeps what compiling, reading and
  -- previewing keep: it applies nothing and saves no state, whatever it returns.
  pub apply_run-only_previews :
      (confirm flags.yes sh.answers ≡ value true → flags.dry_run ≡ true)
      → (w : W) → Q w
      → Q (apply_run sh flags w).1
  unfolding apply_run
  apply_run-only_previews dry w h =
      (attempt-Leaves Q (detect_project_and_stack sh.tree sh.work_dir) _ λ found f.
          Leaves-bind _ _ (generate_spec-Leaves found.0 found.1) λ sp.
            with_changes-Leaves found.0 found.1 (apply_previewed sh flags found.0 found.1) sp
              λ storage order. apply_previewed-Leaves dry found.0 found.1 storage sp order).at
        w h

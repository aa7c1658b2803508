-- ===== src/Terraform/Output/Silent.antt =====
-- When the error that is made of Terraform's output is nil.
use kusion.Base.{
  String, false, none, List, [], ◌∷◌, ◌==◌, ◌≡◌, refl, arith, Bool-cases, ◌⊎◌, inl, inr, All, ◌↔◌,
  eq_iff,
}
use kusion.Base.Text.{split}
use kusion.Control.{Result, value, error, Result-cases}
use kusion.Machine.{TerraformInfo}
use kusion.Terraform.Output.{
  is_diagnostic, first_diagnostic, parse_lines, parsed, with_info, error_of, tf_error,
}

module _ (unmarshal : String → Result TerraformInfo) where
  -- a line that is empty, or a log entry that is no error diagnostic
  abbrev pub IsSilent : String → Type 0
  IsSilent line =
      (line ≡ "") ⊎ ((i : TerraformInfo) × (unmarshal line ≡ value i) × (is_diagnostic i ≡ false))

module _ (unmarshal : String → Result TerraformInfo) (errorf : String → String) where
  abbrev IsQuiet : Result (List TerraformInfo) → Type 0
  IsQuiet r = (is : List TerraformInfo) × (r ≡ value is) × (first_diagnostic is ≡ none)

  parse_lines-IsQuiet :
      (infos : String) (lines : List String)
      → All (IsSilent unmarshal) lines
      → IsQuiet (parse_lines unmarshal errorf infos lines)
  unfolding parse_lines first_diagnostic
  parse_lines-IsQuiet infos [] h = ([], refl, refl)
  parse_lines-IsQuiet infos (line ∷ lines) (inl e, h) =
      let (is, p, q) = parse_lines-IsQuiet infos lines h in (is, ground (arith, eq_iff line ""), q)
  parse_lines-IsQuiet infos (line ∷ lines) (inr (i, u, d), h) =
      let (is, p, q) = parse_lines-IsQuiet infos lines h in
      elim (Bool-cases (line == "")) [
        | inl e ↦ (is, (rw e p), q)
        | inr e ↦ (i ∷ is, (rw (e, u, p)), (rw d q))
      ]

  with_info-IsQuiet :
      (i : TerraformInfo) (rest : Result (List TerraformInfo))
      → IsQuiet (with_info i rest)
      → (is_diagnostic i ≡ false) × IsQuiet rest
  unfolding with_info first_diagnostic
  with_info-IsQuiet i (error e) (is, p, q) = cc
  with_info-IsQuiet i (value js) (is, p, q) = ground arith

  error-IsQuiet_absurd : (infos : String) → IsQuiet (error infos) → ⊥
  error-IsQuiet_absurd infos (is, p, q) = cc

  parse_lines-IsSilent :
      (infos : String) (lines : List String)
      → IsQuiet (parse_lines unmarshal errorf infos lines)
      → All (IsSilent unmarshal) lines
  unfolding parse_lines parsed
  parse_lines-IsSilent infos [] h = tt
  parse_lines-IsSilent infos (line ∷ lines) h = elim (Bool-cases (line == "")) [
    | inl e ↦ (inl ((eq_iff line "").0 e), parse_lines-IsSilent infos lines (rw e at h))
    | inr e ↦ elim (Result-cases (unmarshal line)) [
      | inl (i, u) ↦
          let (d, rest) =
            with_info-IsQuiet i (parse_lines unmarshal errorf infos lines) (rw (e, u) at h) in
          (inr (i, u, d), parse_lines-IsSilent infos lines rest)
      | inr (x, u) ↦ absurd (error-IsQuiet_absurd (errorf infos) (rw (e, u) at h))
    ]
  ]

  error_of-none : (r : Result (List TerraformInfo)) → error_of r ≡ none → IsQuiet r
  unfolding error_of
  error_of-none (error e) h = cc
  error_of-none (value is) h = (is, refl, h)

  none-error_of : (r : Result (List TerraformInfo)) → IsQuiet r → error_of r ≡ none
  unfolding error_of
  none-error_of (error e) (is, p, q) = cc
  none-error_of (value js) (is, p, q) = let same : js ≡ is = cc in rw same q

  -- The error that is made of the output of a failed program is nil exactly when each line of the output
  -- is empty or reads as a log entry that is no error diagnostic.
  pub tf_error-none :
      (infos : String)
      → (tf_error unmarshal errorf infos ≡ none) ↔ All (IsSilent unmarshal) (split b'\n' infos)
  unfolding tf_error
  tf_error-none infos = (
    (λ h. parse_lines-IsSilent infos (split b'\n' infos) (error_of-none _ h)),
    (λ h. none-error_of _ (parse_lines-IsQuiet infos (split b'\n' infos) h)),
  )

-- ===== src/Terraform/Output.antt =====
-- pkg/engine/runtime/terraform/tfops/tferrors.go: the error that is made of what Terraform printed.
pub mod Silent
use kusion.Base.{
  String, Option, none, some, List, [], ◌∷◌, ◌==◌, ◌≡◌, refl, arith, Bool, true, false, ◌&&◌,
  if◌then◌else◌,
}
use kusion.Base.Text.{◌<>◌, split}
use kusion.Control.{Result, value, error}
use kusion.Machine.{TerraformInfo}

with_info : TerraformInfo → Result (List TerraformInfo) → Result (List TerraformInfo)
with_info i (error e) = error e
with_info i (value is) = value (i ∷ is)

parsed : String → Result TerraformInfo → Result (List TerraformInfo) → Result (List TerraformInfo)
unfolding with_info
parsed text (error e) rest = error text
parsed text (value i) rest = with_info i rest

range_text : Option String → String
range_text none = ""
range_text (some r) = "Range:" <> r <> "\n"

snippet_text : Option (String × String) → String
snippet_text none = ""
snippet_text (some (context, code)) = "Context:" <> context <> "\nCode:" <> code

diagnostic_text : TerraformInfo → String
unfolding range_text snippet_text
diagnostic_text i =
    i.summary <> ". " <> i.detail <> "\n" <> range_text i.range <> snippet_text i.snippet

unfoldable pub is_diagnostic : TerraformInfo → Bool
is_diagnostic i = (i.level == "error") && (i.severity == "error")

unfoldable pub first_diagnostic : List TerraformInfo → Option String
unfolding is_diagnostic diagnostic_text
first_diagnostic [] = none
first_diagnostic (i ∷ is) =
    let rest = first_diagnostic is in if is_diagnostic i then some (diagnostic_text i) else rest

error_of : Result (List TerraformInfo) → Option String
unfolding first_diagnostic
error_of (error e) = some e
error_of (value is) = first_diagnostic is

-- `errorf` makes the text of `fmt.Errorf` of a format without arguments.
module _ (unmarshal : String → Result TerraformInfo) (errorf : String → String) where
  -- the loop of `parseTerraformInfo`; any line that is no JSON makes the whole output the format of the error
  unfoldable pub parse_lines : String → List String → Result (List TerraformInfo)
  unfolding parsed
  parse_lines infos [] = value []
  parse_lines infos (line ∷ lines) =
      let rest = parse_lines infos lines in
      if line == "" then rest else parsed (errorf infos) (unmarshal line) rest

  parse_terraform_info : String → Result (List TerraformInfo)
  unfolding parse_lines split
  parse_terraform_info infos = parse_lines infos (split b'\n' infos)

  -- `TFError`; a nil error is `none`
  unfoldable pub tf_error : String → Option String
  unfolding parse_terraform_info error_of
  tf_error infos = error_of (parse_terraform_info infos)

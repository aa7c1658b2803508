-- ===== src/Status.antt =====
-- pkg/status/status.go: the status that engine code returns in place of an error. A nil
-- `Status` is `none`. The checks of pkg/util/check_utils.go panic and are in Control.antt.
use kusion.Base.{String, Bool, true, false, Option, none, some}

pub data Kind : Type 0 where
  error warning info : Kind

pub data Code : Type 0 where
  unknown unavailable unimplemented canceled invalid_argument not_found already_exists : Code
  permission_denied internal unauthenticated illegal_manifest : Code

pub record Status : Type 0 where
  pub kind : Kind
  pub code : Code
  pub message : String

unfoldable pub is_err : Option Status → Bool
is_err none = false
is_err (some s) = elim s.kind [ error ↦ true | _ ↦ false ]

abbrev pub new_base_status : Kind → Code → String → Status
new_base_status kind code message = record { kind = kind; code = code; message = message }

-- `NewErrorStatus(err)`, by the error's text
abbrev pub new_error_status : String → Status
new_error_status err = new_base_status error internal err

abbrev pub new_error_status_with_code : Code → String → Status
new_error_status_with_code code err = new_base_status error code err

abbrev pub new_error_status_with_msg : Code → String → Status
new_error_status_with_msg code msg = new_base_status error code msg

-- ===== src/Examples/Files.antt =====
-- The state file of a new stack.
use mathlib.Core.Path.{subst}
use kusion.Base.{
  String, Bool, true, false, ◌&&◌, ◌==◌, Option, none, some, List, [], ◌∷◌, ◌≡◌, refl, arith,
  eq_iff, nat_eq, if◌then◌else◌,
}
use kusion.Control.{Result, value, error}
use kusion.Models.{Resource}
use kusion.States.{State, new_state, IsSaving}
use kusion.States.Local.{
  Disk, Codec, get_latest_state, apply, IsFaithful, apply-get_latest_state, file_storage,
  file_storage-IsSaving, stamped,
}

-- the state of a new stack that is written at the instant 5
abbrev pub stamped_new : State
stamped_new = record (new_state "v1") { create_time = 5; modified_time = 5 }

abbrev has_none : Option (List Resource) → Bool
has_none (some []) = true
has_none rs = false

abbrev is_new : State → Bool
is_new s =
    nat_eq s.id 0
    && s.tenant == ""
    && s.project == ""
    && s.stack == ""
    && s.cluster == ""
    && nat_eq s.version 1
    && s.kusion_version == "v1"
    && nat_eq s.serial 0
    && s.operator == ""
    && has_none s.resources
    && nat_eq s.create_time 5
    && nat_eq s.modified_time 5

has_none-eq : (rs : Option (List Resource)) → has_none rs ≡ true → rs ≡ some []
has_none-eq none h = cc
has_none-eq (some []) h = refl
has_none-eq (some (r ∷ rs)) h = cc

is_new-eq : (s : State) → is_new s ≡ true → s ≡ stamped_new
is_new-eq s h = ground (
  arith,
  eq_iff s.tenant "",
  eq_iff s.project "",
  eq_iff s.stack "",
  eq_iff s.cluster "",
  eq_iff s.kusion_version "v1",
  eq_iff s.operator "",
  has_none-eq s.resources,
)

-- The codec knows that state alone.
abbrev pub codec : Codec
codec = record {
  marshal = λ s. if is_new s then value "new" else error "unknown state";
  unmarshal = λ text. value stamped_new;
}

new_text :
    (b : Bool) (text : String)
    → ◌≡◌ {A = Result String} (if b then value "new" else error "unknown state") (value text)
    → (text == "") ≡ false
new_text true text h = let same : "new" ≡ text = cc in subst (λ t. (t == "") ≡ false) same refl
new_text false text h = cc

pub codec-IsFaithful : IsFaithful codec
codec-IsFaithful = record {
  unmarshal-marshal = λ s text h. ground (arith, is_new-eq s);
  marshal-nonempty = λ s text h. new_text (is_new s) text h;
}

abbrev no_file : Disk
no_file = record {
  content = none;
  open_error = none;
  read_error = none;
  write_error = none;
  remove_error = none;
  now = 5;
}

abbrev written : Disk
written = record no_file { content = some "new" }

reads_nothing : (get_latest_state codec no_file).0 ≡ value none
unfolding get_latest_state
reads_nothing = refl

writes : apply codec (new_state "v1") no_file ≡ (value tt, stamped_new, written)
unfolding apply
writes = refl

apply-get_latest_state_example :
    ((get_latest_state codec written).0 ≡ value (some stamped_new))
    × (stamped_new ≡ stamped codec 5 none (new_state "v1"))
apply-get_latest_state_example =
    apply-get_latest_state codec (new_state "v1") stamped_new no_file written none codec-IsFaithful
      reads_nothing writes

file_storage-IsSaving_example : IsSaving (file_storage codec)
file_storage-IsSaving_example = file_storage-IsSaving codec codec-IsFaithful

-- ===== src/Machine.antt =====
-- The files, programs and formats that the Terraform runtime uses (os, afero, os/exec, filepath, json,
-- hclparse): a parameter of pkg/engine/runtime/terraform.
use kusion.Base.{String, Bool, true, false, Option, List, ◌∷◌, ◌==◌, ◌||◌, ◌&&◌, ◌≡◌, contains}
use kusion.Control.{Result}
use kusion.Value.{Value, Fields}

-- A Go function returns a value or an error, or panics.
pub data Attempt {ℓ} (A : Type ℓ) : Type ℓ where
  returned : A → Attempt A
  errs : String → Attempt A
  panics : String → Attempt A

abbrev pub Task {ℓ} : Type ℓ → Type ℓ → Type ℓ
Task W A = W → Attempt A × W

module _ {ℓ} {W A : Type ℓ} where
  abbrev pub give : A → Task W A
  give a w = (returned a, w)

  abbrev pub fail : String → Task W A
  fail e w = (errs e, w)

  abbrev pub panic : String → Task W A
  panic p w = (panics p, w)

module _ {ℓ} {W A B : Type ℓ} where
  abbrev pub then_do : Attempt A × W → (A → Task W B) → Attempt B × W
  then_do (returned a, w) f = f a w
  then_do (errs e, w) f = (errs e, w)
  then_do (panics p, w) f = (panics p, w)

  infixl 5 ◌>>=◌ ◌>>◌
  abbrev pub ◌>>=◌ : Task W A → (A → Task W B) → Task W B
  ◌>>=◌ m f w = then_do (m w) f

  abbrev pub ◌>>◌ : Task W A → Task W B → Task W B
  m >> n = m >>= λ _. n

pub data Stat : Type 0 where
  found missing : Stat
  broken : String → Stat

-- How a program ended: with its output, with an exit code and its output, or without being started.
pub data Ran : Type 0 where
  succeeded exited unstarted : String → Ran

-- a resource of a Terraform state or plan
pub record TfResource : Type 0 where
  pub type : String
  pub name : String
  pub attribute_values : Option Fields

pub record StateRepresentation : Type 0 where
  pub values : Option (List TfResource)

pub record PlanRepresentation : Type 0 where
  pub planned_values : List TfResource

-- a line of Terraform's log, with the range as its JSON and the snippet's context and code
pub record TerraformInfo : Type 0 where
  pub level : String
  pub severity : String
  pub summary : String
  pub detail : String
  pub range : Option String
  pub snippet : Option (String × String)

-- a block of the lock file: its label, and its version with the error of reading it
pub record LockBlock : Type 0 where
  pub source_addr : String
  pub version : Option (Result String)

-- `run` is given the directory, the environment and the arguments of a program.
pub record Machine (W : Type 0) : Type 0 where
  pub join_path : String → String → String
  pub stat : String → W → Stat
  pub mkdir_all : String → W → Attempt (Unit {0}) × W
  pub write_file : String → String → W → Attempt (Unit {0}) × W
  pub remove : String → W → Attempt (Unit {0}) × W
  pub remove_all : String → W → Attempt (Unit {0}) × W
  pub run : String → Option (List String) → List String → W → Ran × W
  pub environ : List String
  pub log_dir : String
  pub home : Result String
  pub create_dir_if_not_exist : String → W → Attempt (Unit {0}) × W
  pub kusion_data_folder : W → Attempt String × W
  pub pretty : Value → String
  pub unmarshal_info : String → Result TerraformInfo
  pub errorf : String → String
  pub unmarshal_state : String → Result StateRepresentation
  pub unmarshal_plan : String → Result PlanRepresentation
  pub parse_lock : String → W → Attempt (List LockBlock) × W

-- The commands of Terraform that change no infrastructure, behind the directory they run in.
unfoldable pub is_query : List String → Bool
unfolding contains
is_query (chdir ∷ cmd ∷ args) =
    (cmd == "init")
    || (cmd == "plan")
    || (cmd == "show")
    || ((cmd == "apply") && contains "--refresh-only" args)
is_query args = false

-- `Q` holds of the world after work on files and after such a command.
pub record SurvivesLocal {W : Type 0} (Q : W → Type 0) (m : Machine W) : Type 0 where
  pub made : (path : String) (w : W) → Q w → Q (m.mkdir_all path w).1
  pub written : (path content : String) (w : W) → Q w → Q (m.write_file path content w).1
  pub removed : (path : String) (w : W) → Q w → Q (m.remove path w).1
  pub removed_all : (path : String) (w : W) → Q w → Q (m.remove_all path w).1
  pub cached : (path : String) (w : W) → Q w → Q (m.create_dir_if_not_exist path w).1
  pub housed : (w : W) → Q w → Q (m.kusion_data_folder w).1
  pub parsed : (path : String) (w : W) → Q w → Q (m.parse_lock path w).1
  pub ran :
      (dir : String) (envs : Option (List String)) (args : List String) (w : W)
      → is_query args ≡ true
      → Q w
      → Q (m.run dir envs args w).1

-- A task keeps `Q`, whether it returns, errs or panics.
pub record Leaves {ℓ} {W A : Type ℓ} (Q : W → Type ℓ) (task : Task W A) : Type ℓ where
  pub at : (w : W) → Q w → Q (task w).1

module _ {ℓ} {W A B : Type ℓ} {Q : W → Type ℓ} where
  pub then_do-leaves :
      (r : Attempt A × W) (f : A → Task W B)
      → Q r.1
      → ((a : A) → Leaves Q (f a))
      → Q (then_do r f).1
  then_do-leaves (returned a, w) f h k = (k a).at w h
  then_do-leaves (errs e, w) f h k = h
  then_do-leaves (panics p, w) f h k = h

  pub Leaves-bind :
      (first : Task W A) (next : A → Task W B)
      → Leaves Q first
      → ((a : A) → Leaves Q (next a))
      → Leaves Q (first >>= next)
  Leaves-bind first next h k = record { at = λ w q. then_do-leaves (first w) next (h.at w q) k }

module _ {ℓ} {W A : Type ℓ} {Q : W → Type ℓ} where
  pub Leaves-answer : (r : Attempt A) → Leaves Q (λ w. (r, w))
  Leaves-answer r = record { at = λ w h. h }

-- What holds of the value that a task returns, if it returns one.
abbrev pub OnReturned {ℓ κ} : {A : Type ℓ} → (A → Type κ) → Attempt A → Type κ
OnReturned P (returned a) = P a
OnReturned P (errs e) = Unit
OnReturned P (panics p) = Unit

pub then_do-returned {ℓ κ} :
    {W A B : Type ℓ} (P : B → Type κ) (r : Attempt A × W) (f : A → Task W B)
    → ((a : A) (w : W) → OnReturned P (f a w).0)
    → OnReturned P (then_do r f).0
then_do-returned P (returned a, w) f h = h a w
then_do-returned P (errs e, w) f h = tt
then_do-returned P (panics p, w) f h = tt

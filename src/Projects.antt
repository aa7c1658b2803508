-- ===== src/Projects.antt =====
-- pkg/projectstack/{project,stack,types}.go: the search for projects and stacks in a tree of directories.
-- The tree (os, filepath and fsutil) is read only, and is a parameter.
pub mod Listed
pub mod Detected
use kusion.Base.{
  String, Bool, true, false, not, ◌&&◌, Option, none, some, List, [], ◌∷◌, ◌==◌, if◌then◌else◌,
  contains,
}
use kusion.Base.Text.{◌<>◌}
use kusion.Base.GoMap.{GoMap}
use kusion.Control.{Result, value, error, ◌>>?◌}
use kusion.Value.{Value}
use kusion.Backend.{Storage}
use kusion.Vals.{SecretStores}
use kusion.Runtime.{Stack}

pub record GeneratorConfig : Type 0 where
  pub type : String
  pub configs : GoMap Value

pub record ProjectConfiguration : Type 0 where
  pub name : String
  pub tenant : String
  pub backend : Option Storage
  pub generator : Option GeneratorConfig
  pub secret_stores : Option SecretStores

pub record StackConfiguration : Type 0 where
  pub name : String

pub record Project : Type 0 where
  pub config : ProjectConfiguration
  pub path : String
  pub stacks : List Stack

pub data FileMode : Type 0 where
  directory regular special : FileMode

-- `walk` lists the paths that `filepath.WalkDir` visits, a directory that cannot be read twice.
-- `walk_up` is `fsutil.WalkUp`: the file that passes a test, in a directory or above it, or "".
pub record Tree : Type 0 where
  pub getwd : Result String
  pub stat : String → Result FileMode
  pub join_path : String → String → String
  pub base : String → String
  pub dir : String → String
  pub abs : String → Result String
  pub walk : String → List String
  pub walk_up : String → (String → Bool) → Result String
  pub parse_project : String → Result ProjectConfiguration
  pub parse_stack : String → Result StackConfiguration

abbrev stack_file : String
stack_file = "stack.yaml"

abbrev project_file : String
project_file = "project.yaml"

is_mode : FileMode → Result FileMode → Bool
is_mode directory (value directory) = true
is_mode regular (value regular) = true
is_mode special (value special) = true
is_mode mode found = false

-- the set that nothing is added to
abbrev seen : List String
seen = []

-- the text of `fmt.Errorf` with a wrapped error
unfoldable pub wrapped {ℓ} : {A : Type ℓ} → String → Result A → Result A
wrapped what (value a) = value a
wrapped what (error e) = error (what <> e)

-- an error is logged and the stack is left out
unfoldable pub add_stack : Result Stack → List Stack → List Stack
add_stack (error e) stacks = stacks
add_stack (value s) stacks = s ∷ stacks

unfoldable pub only_stack : List Stack → Result Stack
only_stack (s ∷ []) = value s
only_stack stacks = error "the stack obtained is not unique"

unfoldable pub only_project : List Project → Result Project
only_project (p ∷ []) = value p
only_project projects = error "the project obtained is not unique"

module _ (t : Tree) where
  has_file : String → String → Bool
  unfolding is_mode
  has_file file path =
      is_mode directory (t.stat path) && is_mode regular (t.stat (t.join_path path file))

  -- the test that it is no directory is part of the test of its mode
  is_file : String → String → Bool
  unfolding is_mode
  is_file file path = is_mode regular (t.stat path) && t.base path == file

  unfoldable pub is_stack : String → Bool
  unfolding has_file
  is_stack path = has_file stack_file path

  unfoldable pub is_project : String → Bool
  unfolding has_file
  is_project path = has_file project_file path

  unfoldable pub is_stack_file : String → Bool
  unfolding is_file
  is_stack_file path = is_file stack_file path

  unfoldable pub is_project_file : String → Bool
  unfolding is_file
  is_project_file path = is_file project_file path

  unfoldable pub find_stack_path_from : String → Result String
  find_stack_path_from path = t.walk_up path (is_stack_file) >>? λ file. value (t.dir file)

  unfoldable pub find_project_path_from : String → Result String
  find_project_path_from path = t.walk_up path (is_project_file) >>? λ file. value (t.dir file)

  unfoldable pub parse_stack_configuration : String → Result StackConfiguration
  unfolding is_stack
  parse_stack_configuration path =
      if not (is_stack path)
      then error "path must be a stack directory"
      else t.parse_stack (t.join_path path stack_file)

  unfoldable pub parse_project_configuration : String → Result ProjectConfiguration
  unfolding is_project
  parse_project_configuration path =
      if not (is_project path)
      then error "path must be a project directory"
      else t.parse_project (t.join_path path project_file)

  -- `NewStack` of a stack's configuration and absolute path
  unfoldable pub stack_at : String → Result Stack
  unfolding parse_stack_configuration
  stack_at p = parse_stack_configuration p >>? λ config.
      t.abs p >>? λ path. value (record { name = config.name; path = path })

  unfoldable pub stacks_in : List String → List Stack
  unfolding is_stack stack_at add_stack
  stacks_in [] = []
  stacks_in (p ∷ ps) =
      let rest = stacks_in ps in
      if is_stack p && not (contains p seen) then add_stack (stack_at p) rest else rest

  -- never an error
  unfoldable pub find_all_stacks_from : String → Result (List Stack)
  unfolding stacks_in
  find_all_stacks_from path = value (stacks_in (t.walk path))

  unfoldable pub get_stack_from : String → Result Stack
  unfolding find_all_stacks_from only_stack
  get_stack_from path =
      if not (is_stack path)
      then error "path must be a stack directory"
      else (find_all_stacks_from path >>? only_stack)

  -- `NewProject` of a project's configuration, absolute path and stacks
  unfoldable pub project_at : String → Result Project
  unfolding parse_project_configuration find_all_stacks_from wrapped
  project_at p = wrapped "parse project.yaml failed. " (parse_project_configuration p) >>? λ config.
      wrapped "parse stacks failed. " (find_all_stacks_from p) >>? λ stacks.
      wrapped "project path failed. " (t.abs p) >>? λ path.
      value (record { config = config; path = path; stacks = stacks })

  -- The first project that cannot be read ends the walk.
  unfoldable pub projects_in : List String → Result (List Project)
  unfolding is_project project_at
  projects_in [] = value []
  projects_in (p ∷ ps) =
      let rest = projects_in ps in
      if is_project p && not (contains p seen)
      then (project_at p >>? λ project. rest >>? λ projects. value (project ∷ projects))
      else rest

  unfoldable pub find_all_projects_from : String → Result (List Project)
  unfolding projects_in
  find_all_projects_from path = projects_in (t.walk path)

  unfoldable pub get_project_from : String → Result Project
  unfolding find_all_projects_from only_project
  get_project_from path =
      if not (is_project path)
      then error "path must be a project directory"
      else (find_all_projects_from path >>? only_project)

  -- of a directory given as an absolute path or not
  unfoldable pub detect_project_and_stack : String → Result (Project × Stack)
  unfolding get_stack_from find_project_path_from get_project_from
  detect_project_and_stack given = t.abs given >>? λ stack_dir.
      get_stack_from stack_dir >>? λ stack. find_project_path_from stack_dir >>? λ project_dir.
      get_project_from project_dir >>? λ project. value (project, stack)

  -- FindStackPath, FindAllStacks, GetStack and the same of projects: from the work directory
  unfoldable pub from_here {ℓ} : {A : Type ℓ} → (String → Result A) → Result A
  from_here find = t.getwd >>? find

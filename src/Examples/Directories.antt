-- ===== src/Examples/Directories.antt =====
-- A project with one stack in a tree of directories.
use mathlib.Core.Path.{subst}
use kusion.Base.{
  String, Bool, true, false, ◌&&◌, ◌||◌, none, List, [], ◌∷◌, ◌==◌, ◌≡◌, refl, sym, arith, eq_iff,
  contains, if◌then◌else◌,
}
use kusion.Base.Text.{◌<>◌}
use kusion.Control.{Result, value, error}
use kusion.Runtime.{Stack}
use kusion.Projects.{
  Tree, Project, ProjectConfiguration, FileMode, directory, regular, is_project_file,
  detect_project_and_stack,
}
use kusion.Projects.Listed.{IsListed}
use kusion.Projects.Detected.{IsWalked, detect_project_and_stack-IsListed}

abbrev shop_config : ProjectConfiguration
shop_config = record {
  name = "shop";
  tenant = "";
  backend = none;
  generator = none;
  secret_stores = none;
}

abbrev mode_of : String → Result FileMode
mode_of p =
    if p == "/shop" || p == "/shop/dev"
    then value directory
    else if p == "/shop/project.yaml" || p == "/shop/dev/stack.yaml"
    then value regular
    else error "no such file or directory"

-- below the directory of the project or of another path
abbrev visits : Bool → String → List String
visits true p = "/shop" ∷ "/shop/dev" ∷ []
visits false p = p ∷ []

abbrev file_above : Bool → String
file_above true = "/shop/project.yaml"
file_above false = ""

abbrev pub tree : Tree
tree = record {
  getwd = value "/shop/dev";
  stat = mode_of;
  join_path = λ d f. d <> "/" <> f;
  base = λ p. if p == "/shop/project.yaml" then "project.yaml" else p;
  dir = λ p. if p == "/shop/project.yaml" then "/shop" else ".";
  abs = λ p. value p;
  walk = λ p. visits (p == "/shop") p;
  walk_up = λ p test. value (file_above (p == "/shop/dev" && test "/shop/project.yaml"));
  parse_project = λ f. value shop_config;
  parse_stack = λ f. value (record { name = "dev" });
}

visits_root :
    (b : Bool) (p : String) → (p == "/shop") ≡ b → (rest : List String) × (visits b p ≡ p ∷ rest)
visits_root true p e =
    let same : p ≡ "/shop" = ground (arith, eq_iff p "/shop") in
    (
      "/shop/dev" ∷ [],
      subst (λ q. "/shop" ∷ "/shop/dev" ∷ [] ≡ q ∷ "/shop/dev" ∷ []) (sym same) refl,
    )
visits_root false p e = ([], refl)

below :
    (b : Bool) (path file p : String)
    → (path == "/shop/dev") ≡ b
    → file_above (b && true) ≡ file
    → is_project_file tree file ≡ true
    → contains p (tree.walk path) ≡ true
    → contains p (tree.walk (tree.dir file)) ≡ true
unfolding contains is_project_file
below false path file p e f i c =
    let no : false ≡ true = subst (λ x. is_project_file tree x ≡ true) (sym f) i in cc
below true path file p e f i c =
    let same : path ≡ "/shop/dev" = ground (arith, eq_iff path "/shop/dev") in
    subst (λ x. contains p (tree.walk (tree.dir x)) ≡ true) f
      (ground (arith, subst (λ x. contains p (tree.walk x) ≡ true) same c))

tree-IsWalked : IsWalked tree
unfolding is_project_file
tree-IsWalked = record {
  root = λ p. visits_root (p == "/shop") p refl;
  below = λ path file p u i c. below (path == "/shop/dev") path file p refl (cc) i c;
}

abbrev dev : Stack
dev = record { name = "dev"; path = "/shop/dev" }

abbrev shop : Project
shop = record { config = shop_config; path = "/shop"; stacks = dev ∷ [] }

detects : detect_project_and_stack tree "/shop/dev" ≡ value (shop, dev)
unfolding detect_project_and_stack contains is_project_file
detects = refl

project_above :
    (from : String)
    → tree.abs "/shop/dev" ≡ value from
    → (file : String) × (tree.walk_up from (is_project_file tree) ≡ value file)
      × (is_project_file tree file ≡ true)
unfolding is_project_file
project_above from a =
    let same : "/shop/dev" ≡ from = cc in
    (
      "/shop/project.yaml",
      subst (λ d. tree.walk_up d (is_project_file tree) ≡ value "/shop/project.yaml") same refl,
      refl,
    )

detect_project_and_stack-IsListed_example : IsListed dev shop.stacks
detect_project_and_stack-IsListed_example =
    detect_project_and_stack-IsListed tree tree-IsWalked "/shop/dev" shop dev project_above detects

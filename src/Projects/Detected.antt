-- ===== src/Projects/Detected.antt =====
-- The project that pkg/projectstack detects for a stack.
use mathlib.Core.Path.{subst}
use kusion.Base.{
  String, Bool, true, false, not, ◌&&◌, List, [], ◌∷◌, ◌≡◌, refl, sym, ap, contains, if◌then◌else◌,
}
use kusion.Control.{Result, value, error, ◌>>?◌}
use kusion.Runtime.{Stack}
use kusion.Projects.Listed.{IsListed, IsSource, stacks_in-IsSource, stacks_in-IsListed}
use kusion.Projects.{
  Tree, Project, is_stack, is_project, is_project_file, stacks_in, find_all_stacks_from, only_stack,
  get_stack_from, find_project_path_from, project_at, projects_in, find_all_projects_from,
  only_project, get_project_from, detect_project_and_stack, wrapped, parse_project_configuration,
}

pub bind-eq-value {κ ℓ} :
    {B : Type κ} {A : Type ℓ} {b : B} (first : Result A) (rest : A → Result B)
    → (first >>? rest) ≡ value b
    → (got : A) × (first ≡ value got) × (rest got ≡ value b)
bind-eq-value (error e) rest h = cc
bind-eq-value (value got) rest h = (got, refl, h)

-- What the search relies on in a tree: a walk begins at its root, and a walk from the directory of a
-- project file that was found above a path visits what a walk from the path does.
pub record IsWalked (t : Tree) : Type 0 where
  pub root : (path : String) → (rest : List String) × (t.walk path ≡ path ∷ rest)
  pub below :
      (path file p : String)
      → t.walk_up path (is_project_file t) ≡ value file
      → is_project_file t file ≡ true
      → contains p (t.walk path) ≡ true
      → contains p (t.walk (t.dir file)) ≡ true

only : (s : Stack) (stacks : List Stack) → only_stack stacks ≡ value s → stacks ≡ s ∷ []
unfolding only_stack
only s [] h = cc
only s (a ∷ []) h = let same : a ≡ s = cc in ap (λ x. x ∷ []) same
only s (a ∷ b ∷ rest) h = cc

both :
    (project : Project) (stack s : Stack) (r : Result Project)
    → ◌≡◌ {A = Result (Project × Stack)} (r >>? λ p. value (p, s)) (value (project, stack))
    → (r ≡ value project) × (s ≡ stack)
both project stack s (error e) h = cc
both project stack s (value p) h = (cc, cc)

parts :
    (project : Project) (stack : Stack) (rs : Result Stack) (rp : Result String)
    (get_at : String → Result Project)
    → ◌≡◌ {A = Result (Project × Stack)}
        (rs >>? λ s. rp >>? λ d. get_at d >>? λ p. value (p, s))
        (value (project, stack))
    → (rs ≡ value stack) × (d : String) × (rp ≡ value d) × (get_at d ≡ value project)
parts project stack (error e) rp get_at h = cc
parts project stack (value s) (error e) get_at h = cc
parts project stack (value s) (value d) get_at h =
    let (p, same) = both project stack s (get_at d) h in (ap value same, d, refl, p)

guarded {ℓ} :
    {A : Type ℓ} (b : Bool) (msg : String) (r : Result A) (a : A)
    → (if not b then error msg else r) ≡ value a
    → (b ≡ true) × (r ≡ value a)
guarded true msg r a h = (refl, h)
guarded false msg r a h = cc

-- the only project of a walk that begins with one
only_first :
    (project : Project) (b : Bool) (r : Result Project) (rest : Result (List Project))
    → b ≡ true
    → ((if b && true then (r >>? λ p. rest >>? λ projects. value (p ∷ projects)) else rest)
        >>? only_project)
      ≡ value project
    → r ≡ value project
unfolding only_project
only_first project false r rest i h = cc
only_first project true (error e) rest i h = cc
only_first project true (value p) (error e) i h = cc
only_first project true (value p) (value []) i h = h
only_first project true (value p) (value (q ∷ qs)) i h = cc

module _ (t : Tree) where
  project_at-stacks :
      (p : String) (project : Project)
      → project_at t p ≡ value project
      → project.stacks ≡ stacks_in t (t.walk p)
  unfolding project_at find_all_stacks_from wrapped
  project_at-stacks p project h =
      let (config, c, h') =
        bind-eq-value (wrapped "parse project.yaml failed. " (parse_project_configuration t p)) _
          h in
      let (path, a, e) = bind-eq-value (wrapped "project path failed. " (t.abs p)) _ h' in
      sym (
        ap (λ r. r.stacks)
          (let same : record { config = config; path = path; stacks = stacks_in t (t.walk p) }
                ≡ project =
              cc in
            same))

  get_project_from-at :
      IsWalked t
      → (p : String) (project : Project) → get_project_from t p ≡ value project
      → project_at t p ≡ value project
  unfolding get_project_from find_all_projects_from projects_in only_project contains
  get_project_from-at w p project h =
      let (i, h') =
        guarded (is_project t p) "path must be a project directory"
          (projects_in t (t.walk p) >>? only_project) project h in
      let (rest, e) = w.root p in
      only_first project (is_project t p) (project_at t p) (projects_in t rest) i
        (subst (λ ps. (projects_in t ps >>? only_project) ≡ value project) e h')

  get_stack_from-IsSource :
      (p : String) (s : Stack) → get_stack_from t p ≡ value s → IsSource t s (t.walk p)
  unfolding get_stack_from find_all_stacks_from only_stack
  get_stack_from-IsSource p s h =
      let (i, h') =
        guarded (is_stack t p) "path must be a stack directory"
          (only_stack (stacks_in t (t.walk p))) s h in
      stacks_in-IsSource t s (t.walk p) (only s (stacks_in t (t.walk p)) h')

  found_dir :
      (from file found : String)
      → t.walk_up from (is_project_file t) ≡ value file
      → find_project_path_from t from ≡ value found
      → t.dir file ≡ found
  unfolding find_project_path_from
  found_dir from file found u f = cc

  -- In a tree whose walks begin at their roots and contain the walks of the directories below, and where
  -- a project file stands in the directory of the stack or above it, the stack that is detected is one of
  -- the stacks of the project that is detected with it.
  pub detect_project_and_stack-IsListed :
      IsWalked t
      → (given : String) (project : Project) (stack : Stack)
      → ((from : String)
          → t.abs given ≡ value from
          → (file : String) × (t.walk_up from (is_project_file t) ≡ value file)
            × (is_project_file t file ≡ true))
      → detect_project_and_stack t given ≡ value (project, stack)
      → IsListed stack project.stacks
  unfolding detect_project_and_stack find_project_path_from
  detect_project_and_stack-IsListed w given project stack above h =
      let (from, a, h') = bind-eq-value (t.abs given) _ h in
      let (file, u, here) = above from a in
      let (g, found, f, k) =
        parts project stack (get_stack_from t from) (find_project_path_from t from)
          (get_project_from t) h' in
      let place = get_stack_from-IsSource from stack g in
      rw (project_at-stacks found project (get_project_from-at w found project k)) (
        stacks_in-IsListed t stack place.path (t.walk found)
          (subst (λ d. contains place.path (t.walk d) ≡ true) (found_dir from file found u f)
            (w.below from file place.path u here place.visited))
          place.stack place.parsed)

-- ===== src/Deps.antt =====
-- pkg/cmd/deps/options.go: the projects or stacks downstream of some files. `filepath.Rel` at the work
-- directory, the settings of a stack and the search of KCL for downstream files are parameters.
pub mod Sound
pub mod Kept
pub mod Marked
use Prim.Native.Nat.{Ordering}
use Prim.Native.String.{compare}
use kusion.Base.{
  String, Bool, true, false, not, ◌&&◌, ◌||◌, Option, none, some, List, [], ◌∷◌, ◌++◌, ◌==◌,
  if◌then◌else◌, contains,
}
use kusion.Base.Text.{◌<>◌, has_prefix}
use kusion.Base.GoMap.{GoMap, get, set}
use kusion.Control.{Result, value, error, ◌>>?◌}

pub record Stack : Type 0 where
  pub path : String

pub record Project : Type 0 where
  pub path : String
  pub stacks : List Stack

-- `stringSet.add` and `remove`
unfoldable pub add : String → List String → List String
add k s = if contains k s then s else k ∷ s

unfoldable pub add_all : List String → List String → List String
unfolding add
add_all [] s = s
add_all (k ∷ ks) s = add_all ks (add k s)

unfoldable pub remove : String → List String → List String
remove k [] = []
remove k (j ∷ js) = let rest = remove k js in if j == k then rest else j ∷ rest

insert : String → List String → List String
insert k [] = k ∷ []
insert k (j ∷ js) =
    let rest = insert k js in elim (compare k j) [ Ordering.gt ↦ j ∷ rest | _ ↦ k ∷ j ∷ js ]

-- `toSlice`, which sorts
unfoldable pub to_slice : List String → List String
unfolding insert
to_slice [] = []
to_slice (k ∷ ks) = insert k (to_slice ks)

-- What the loop over the stacks changes.
pub record Search : Type 0 where
  pub focus_paths : List String
  pub entrances : List String
  pub entrance_index : GoMap (List String)
  pub down_streams : List String

-- The focus paths that are not under a directory, and whether one is under it that is not ignored.
unfoldable pub cut_off : String → List String → List String → List String × Bool
unfolding has_prefix
cut_off dir ignore [] = ([], false)
cut_off dir ignore (f ∷ fs) =
    let rest = cut_off dir ignore fs in
    if has_prefix f (dir <> "/")
    then (rest.0, not (contains f ignore) || rest.1)
    else (f ∷ rest.0, rest.1)

abbrev pub or_empty : Option (List String) → List String
or_empty none = []
or_empty (some s) = s

unfoldable pub mark : String → Search → Search
unfolding add
mark path s = record s { down_streams = add path s.down_streams }

-- one entrance file of a stack that is not yet known to be downstream
index_entrance : String → String → Search → Search
unfolding add
index_entrance path e s = record s {
  entrances = add e s.entrances;
  entrance_index = set e (add path (or_empty (get e s.entrance_index))) s.entrance_index;
}

unfoldable pub index_entrances : String → List String → Search → Search
unfolding index_entrance
index_entrances path [] s = s
index_entrances path (e ∷ es) s = index_entrances path es (index_entrance path e s)

-- the entrance files that are not ignored
unfoldable pub not_ignored : List String → List String → List String
not_ignored ignore [] = []
not_ignored ignore (e ∷ es) =
    let rest = not_ignored ignore es in if contains e ignore then rest else e ∷ rest

unfoldable pub any_in : List String → List String → Bool
any_in focus [] = false
any_in focus (e ∷ es) = contains e focus || any_in focus es

abbrev all_rel : (String → String) → List String → List String
all_rel rel [] = []
all_rel rel (f ∷ fs) = rel f ∷ all_rel rel fs

collect : String → List String → Search → Search
unfolding mark index_entrances any_in
collect path es s = if any_in s.focus_paths es then mark path s else index_entrances path es s

unfoldable pub add_files : GoMap (List String) → List String → List String → List String
unfolding add_all
add_files index [] down = down
add_files index (f ∷ fs) down = add_files index fs (add_all (or_empty (get f index)) down)

module _ (rel : String → String) (settings : String → Result (List String)) (ignore : List String)
    (project_only : Bool) where
  abbrev pub stack_project_path : Project → Stack → String
  stack_project_path p st = if project_only then rel p.path else rel st.path

  with_settings : String → Search → Result (List String) → Result Search
  unfolding collect not_ignored
  with_settings path s (error e) = error ("invalid settings file, " <> e)
  with_settings path s (value files) =
      value (collect path (not_ignored ignore (all_rel rel files)) s)

  -- one round of the loop over the stacks
  pub search_stack : String → Stack → Search → Result Search
  unfolding cut_off mark with_settings
  search_stack path st s =
      let cut = cut_off (rel st.path) ignore s.focus_paths in
      let s' : Search = record s { focus_paths = cut.0 } in
      if cut.1 then value (mark path s') else with_settings path s' (settings st.path)

  search_stacks : Project → List Stack → Search → Result Search
  unfolding search_stack
  search_stacks p [] s = value s
  search_stacks p (st ∷ sts) s = search_stack (stack_project_path p st) st s >>? search_stacks p sts

  unfoldable pub search_projects : List Project → Search → Result Search
  unfolding search_stacks
  search_projects [] s = value s
  search_projects (p ∷ ps) s = search_stacks p p.stacks s >>? search_projects ps

  -- `list` is KCL's search, from the entrance files and the focus paths
  unfoldable pub find_down_streams :
      (List String → List String → Result (List String))
      → List Project
      → List String
      → Result (List String)
  unfolding search_projects add_files to_slice
  find_down_streams list projects focus =
      search_projects projects
        (record { focus_paths = focus; entrances = []; entrance_index = []; down_streams = [] })
      >>? λ s. list (to_slice s.entrances) (to_slice s.focus_paths) >>? λ files.
          value (add_files s.entrance_index files s.down_streams)

abbrev is_empty : List String → Bool
is_empty [] = true
is_empty (k ∷ ks) = false

-- `toSet`
unfoldable pub to_set : List String → List String
unfolding add_all
to_set list = add_all list []

-- step 2 of `Run` for the direction down
unfoldable pub drop_ignored : List String → List String → List String
unfolding remove
drop_ignored [] focus = focus
drop_ignored (f ∷ fs) focus = drop_ignored fs (remove f focus)

-- The direction down of `Run`, once the projects are found: nothing is printed when every focus path is
-- ignored.
unfoldable pub run_down :
    (String → String)
    → (String → Result (List String))
    → (List String → List String → Result (List String))
    → List String
    → Bool
    → List Project
    → List String
    → Result (List String)
unfolding to_set drop_ignored find_down_streams
run_down rel settings list ignore project_only projects focus =
    let wanted = drop_ignored (to_set ignore) (to_set focus) in
    if is_empty wanted
    then value []
    else find_down_streams rel settings (to_set ignore) project_only list projects wanted

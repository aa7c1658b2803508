-- ===== src/Deps/Marked.antt =====
-- Which stacks `findDownStreams` of pkg/cmd/deps/options.go marks for the focus paths in their directories.
use mathlib.Core.Path.{subst}
use kusion.Base.{
  String, Bool, true, false, ◌||◌, List, [], ◌∷◌, ◌++◌, ◌≡◌, if◌then◌else◌, contains,
  contains-append, arith, Bool-cases, inl, inr, sym, ap, ◌∙◌,
}
use kusion.Base.Text.{◌<>◌, has_prefix}
use kusion.Control.{Result, value, ◌>>?◌}
use kusion.Deps.{
  Stack, Project, Search, mark, stack_project_path, with_settings, search_stack, search_stacks,
  search_projects, add_files, to_slice, find_down_streams,
}
use kusion.Deps.Sound.{OnValue, OnValue-bind, OnValue-any, IsWithin, head-IsWithin}
use kusion.Deps.Kept.{
  OnValue-map, cut_off-keeps, cut_off-finds, contains-add_files, mark-marks, Extended, cut,
  search_stack-Extended,
}

module _ (rel : String → String) (settings : String → Result (List String)) (ignore : List String)
    (project_only : Bool) where
  module _ (f : String) where
    -- whether a stack's directory holds the focus path
    abbrev pub holds : Stack → Bool
    holds st = has_prefix f (rel st.path <> "/")

    unfoldable pub any_holds : List Stack → Bool
    any_holds [] = false
    any_holds (st ∷ sts) = holds st || any_holds sts

    -- the paths of the stacks that hold it, or of their projects
    unfoldable pub holders : Project → List Stack → List String
    holders p [] = []
    holders p (st ∷ sts) =
        let rest = holders p sts in
        if holds st then stack_project_path rel settings ignore project_only p st ∷ rest else rest

    unfoldable pub any_holds_in : List Project → Bool
    unfolding any_holds
    any_holds_in [] = false
    any_holds_in (p ∷ ps) = any_holds p.stacks || any_holds_in ps

    unfoldable pub all_holders : List Project → List String
    unfolding holders
    all_holders [] = []
    all_holders (p ∷ ps) = holders p p.stacks ++ all_holders ps

    module _ (is_wanted : contains f ignore ≡ false) where
      search_stack-marks :
          (path : String) (st : Stack) (s : Search)
          → holds st ≡ true
          → contains f s.focus_paths ≡ true
          → OnValue
              (λ t. contains path t.down_streams ≡ true)
              (search_stack rel settings ignore project_only path st s)
      unfolding search_stack
      search_stack-marks path st s h e =
          subst
            (λ b.
              OnValue (λ t. contains path t.down_streams ≡ true)
                (if b
                  then value (mark path (cut rel settings ignore project_only st s))
                  else with_settings rel settings ignore project_only path
                      (cut rel settings ignore project_only st s) (settings st.path)))
            (sym (cut_off-finds f (rel st.path) ignore s.focus_paths h is_wanted e))
            (mark-marks path (cut rel settings ignore project_only st s))

      search_stack-passes :
          (path : String) (st : Stack) (s : Search)
          → holds st ≡ false
          → contains f s.focus_paths ≡ true
          → OnValue
              (λ t. contains f t.focus_paths ≡ true)
              (search_stack rel settings ignore project_only path st s)
      search_stack-passes path st s h e =
          OnValue-map (search_stack rel settings ignore project_only path st s)
            (search_stack-Extended rel settings ignore project_only path f st s)
            (λ t x. ap (contains f) x.0 ∙ cut_off-keeps f (rel st.path) ignore s.focus_paths h e)

      module _ (owners : List String) where
        -- one of the owners is downstream
        abbrev Found : List String → Type 0
        Found down = (v : String) × (contains v owners ≡ true) × (contains v down ≡ true)

        search_stacks-Found :
            (p : Project) (sts : List Stack) (s : Search)
            → Found s.down_streams
            → OnValue
                (λ t. Found t.down_streams)
                (search_stacks rel settings ignore project_only p sts s)
        unfolding search_stacks
        search_stacks-Found p [] s h = h
        search_stacks-Found p (st ∷ sts) s (v, owned, there) =
            let path = stack_project_path rel settings ignore project_only p st in
            OnValue-bind (Extended v (cut rel settings ignore project_only st s))
              (λ t. Found t.down_streams) (search_stack rel settings ignore project_only path st s)
              (search_stacks rel settings ignore project_only p sts)
              (search_stack-Extended rel settings ignore project_only path v st s)
              (λ t x. search_stacks-Found p sts t (v, owned, x.1 there))

        search_projects-Found :
            (ps : List Project) (s : Search)
            → Found s.down_streams
            → OnValue
                (λ t. Found t.down_streams)
                (search_projects rel settings ignore project_only ps s)
        unfolding search_projects
        search_projects-Found [] s h = h
        search_projects-Found (p ∷ ps) s h =
            OnValue-bind (λ t. Found t.down_streams) (λ t. Found t.down_streams)
              (search_stacks rel settings ignore project_only p p.stacks s)
              (search_projects rel settings ignore project_only ps)
              (search_stacks-Found p p.stacks s h) (λ t x. search_projects-Found ps t x)

        search_stacks-passes :
            (p : Project) (sts : List Stack) (s : Search)
            → any_holds sts ≡ false
            → contains f s.focus_paths ≡ true
            → OnValue
                (λ t. contains f t.focus_paths ≡ true)
                (search_stacks rel settings ignore project_only p sts s)
        unfolding search_stacks any_holds
        search_stacks-passes p [] s h e = e
        search_stacks-passes p (st ∷ sts) s h e =
            let path = stack_project_path rel settings ignore project_only p st in
            OnValue-bind (λ t. contains f t.focus_paths ≡ true)
              (λ t. contains f t.focus_paths ≡ true)
              (search_stack rel settings ignore project_only path st s)
              (search_stacks rel settings ignore project_only p sts)
              (search_stack-passes path st s (ground arith) e)
              (λ t x. search_stacks-passes p sts t (ground arith) x)

        search_stacks-finds :
            (p : Project) (sts : List Stack) (s : Search)
            → any_holds sts ≡ true
            → IsWithin owners (holders p sts)
            → contains f s.focus_paths ≡ true
            → OnValue
                (λ t. Found t.down_streams)
                (search_stacks rel settings ignore project_only p sts s)
        unfolding search_stacks any_holds holders
        search_stacks-finds p [] s h w e = cc
        search_stacks-finds p (st ∷ sts) s h w e =
            let path = stack_project_path rel settings ignore project_only p st in
            elim (Bool-cases (holds st)) [
              | inl held ↦
                  let w' : IsWithin owners (path ∷ holders p sts) =
                    subst (λ b. IsWithin owners (if b then path ∷ holders p sts else holders p sts))
                      held w in
                  OnValue-bind (λ t. contains path t.down_streams ≡ true)
                    (λ t. Found t.down_streams)
                    (search_stack rel settings ignore project_only path st s)
                    (search_stacks rel settings ignore project_only p sts)
                    (search_stack-marks path st s held e)
                    (λ t x.
                      search_stacks-Found p sts t
                        (path, head-IsWithin owners path (holders p sts) w', x))
              | inr not_held ↦
                  let w' : IsWithin owners (holders p sts) =
                    subst (λ b. IsWithin owners (if b then path ∷ holders p sts else holders p sts))
                      not_held w in
                  OnValue-bind (λ t. contains f t.focus_paths ≡ true) (λ t. Found t.down_streams)
                    (search_stack rel settings ignore project_only path st s)
                    (search_stacks rel settings ignore project_only p sts)
                    (search_stack-passes path st s not_held e)
                    (λ t x. search_stacks-finds p sts t (ground arith) w' x)
            ]

        search_projects-finds :
            (ps : List Project) (s : Search)
            → any_holds_in ps ≡ true
            → IsWithin owners (all_holders ps)
            → contains f s.focus_paths ≡ true
            → OnValue
                (λ t. Found t.down_streams)
                (search_projects rel settings ignore project_only ps s)
        unfolding search_projects any_holds_in all_holders
        search_projects-finds [] s h w e = cc
        search_projects-finds (p ∷ ps) s h w e = elim (Bool-cases (any_holds p.stacks)) [
          | inl held ↦
              OnValue-bind (λ t. Found t.down_streams) (λ t. Found t.down_streams)
                (search_stacks rel settings ignore project_only p p.stacks s)
                (search_projects rel settings ignore project_only ps)
                (search_stacks-finds p p.stacks s held
                  (λ v c.
                    w v (ground (arith, contains-append v (holders p p.stacks) (all_holders ps))))
                  e)
                (λ t x. search_projects-Found ps t x)
          | inr not_held ↦
              OnValue-bind (λ t. contains f t.focus_paths ≡ true) (λ t. Found t.down_streams)
                (search_stacks rel settings ignore project_only p p.stacks s)
                (search_projects rel settings ignore project_only ps)
                (search_stacks-passes p p.stacks s not_held e)
                (λ t x.
                  search_projects-finds ps t (ground arith)
                    (λ v c.
                      w v (ground (arith, contains-append v (holders p p.stacks) (all_holders ps))))
                    x)
        ]

      -- A focus path that is not ignored and lies in the directory of some stack makes a stack that holds
      -- it, or its project where projects are asked for, downstream, whatever KCL's search returns.
      pub find_down_streams-marks :
          (list : List String → List String → Result (List String)) (projects : List Project)
          (focus downs : List String)
          → contains f focus ≡ true
          → any_holds_in projects ≡ true
          → find_down_streams rel settings ignore project_only list projects focus ≡ value downs
          → (v : String) × (contains v (all_holders projects) ≡ true) × (contains v downs ≡ true)
      unfolding find_down_streams
      find_down_streams-marks list projects focus downs c h e =
          let owners = all_holders projects in
          subst (OnValue (Found owners)) e (
            OnValue-bind (λ t. Found owners t.down_streams) (Found owners)
              (search_projects rel settings ignore project_only projects _)
              (λ s. list (to_slice s.entrances) (to_slice s.focus_paths) >>? λ files.
                value (add_files s.entrance_index files s.down_streams))
              (search_projects-finds owners projects _ h (λ v x. x) c)
              (λ s found.
                OnValue-bind (λ files. Unit {0}) (Found owners)
                  (list (to_slice s.entrances) (to_slice s.focus_paths))
                  (λ files. value (add_files s.entrance_index files s.down_streams))
                  (OnValue-any (list (to_slice s.entrances) (to_slice s.focus_paths)))
                  (λ files _. (
                    found.0,
                    found.1,
                    contains-add_files found.0 s.entrance_index files s.down_streams found.2,
                  ))))

-- ===== src/Deps/Sound.antt =====
-- What `findDownStreams` of pkg/cmd/deps/options.go finds.
use mathlib.Core.Path.{subst}
use kusion.Base.{
  String, Bool, true, false, ◌||◌, List, [], ◌∷◌, ◌++◌, ◌==◌, ◌≡◌, if◌then◌else◌, contains,
  contains-append, arith, eq_iff, eq_refl, if_both,
}
use kusion.Base.GoMap.{GoMap, get, set, get-set}
use kusion.Control.{Result, value, error, ◌>>?◌}
use kusion.Deps.{
  Stack, Project, Search, add, add_all, cut_off, or_empty, mark, index_entrance, index_entrances,
  not_ignored, any_in, stack_project_path, collect, with_settings, search_stack, search_stacks,
  search_projects, add_files, to_slice, find_down_streams, all_rel,
}

abbrev pub OnValue : {A : Type 0} → (A → Type 0) → Result A → Type 0
OnValue P (value a) = P a
OnValue P (error e) = Unit

pub OnValue-bind :
    {A B : Type 0} (Q : A → Type 0) (P : B → Type 0) (r : Result A) (f : A → Result B)
    → OnValue Q r
    → ((a : A) → Q a → OnValue P (f a))
    → OnValue P (r >>? f)
OnValue-bind Q P (value a) f h k = k a h
OnValue-bind Q P (error e) f h k = tt

pub OnValue-any : {A : Type 0} (r : Result A) → OnValue (λ a. Unit {0}) r
OnValue-any (value a) = tt
OnValue-any (error e) = tt

pub value_if :
    {A : Type 0} (P : A → Type 0) (b : Bool) (x : A) (r : Result A)
    → P x
    → OnValue P r
    → OnValue P (if b then value x else r)
value_if P true x r h k = h
value_if P false x r h k = k

pub contains-add :
    (v k : String) (s : List String) → contains v (add k s) ≡ (k == v || contains v s)
unfolding add contains
contains-add v k s = ground (arith, eq_iff k v)

module _ (paths : List String) where
  -- every text of a list is one of the paths
  abbrev pub IsWithin : List String → Type 0
  IsWithin s = (v : String) → contains v s ≡ true → contains v paths ≡ true

  add-IsWithin :
      (k : String) (s : List String) → contains k paths ≡ true → IsWithin s → IsWithin (add k s)
  add-IsWithin k s h w v e = ground (arith, contains-add v k s, eq_iff k v, w v)

  pub head-IsWithin : (k : String) (ks : List String) → IsWithin (k ∷ ks) → contains k paths ≡ true
  unfolding contains
  head-IsWithin k ks w = w k (ground (arith, eq_refl k))

  pub tail-IsWithin : (k : String) (ks : List String) → IsWithin (k ∷ ks) → IsWithin ks
  unfolding contains
  tail-IsWithin k ks w v e = w v (ground arith)

  add_all-IsWithin : (ks s : List String) → IsWithin ks → IsWithin s → IsWithin (add_all ks s)
  unfolding add_all
  add_all-IsWithin [] s h w = w
  add_all-IsWithin (k ∷ ks) s h w =
      add_all-IsWithin ks (add k s) (tail-IsWithin k ks h)
        (add-IsWithin k s (head-IsWithin k ks h) w)

  record IsSound (s : Search) : Type 0 where
    down : IsWithin s.down_streams
    index : (e : String) → IsWithin (or_empty (get e s.entrance_index))

  mark-IsSound :
      (path : String) (s : Search) → contains path paths ≡ true → IsSound s → IsSound (mark path s)
  unfolding mark
  mark-IsSound path s h q = record {
    down = add-IsWithin path s.down_streams h q.down;
    index = q.index;
  }

  set-IsWithin :
      (e k path : String) (m : GoMap (List String))
      → contains path paths ≡ true
      → ((i : String) → IsWithin (or_empty (get i m)))
      → IsWithin (or_empty (get k (set e (add path (or_empty (get e m))) m)))
  set-IsWithin e k path m h w v c = ground (
    arith,
    get-set e k (add path (or_empty (get e m))) m,
    add-IsWithin path (or_empty (get e m)) h (w e) v,
    w k v,
  )

  index_entrances-IsSound :
      (path : String) (es : List String) (s : Search)
      → contains path paths ≡ true
      → IsSound s
      → IsSound (index_entrances path es s)
  unfolding index_entrances
  index_entrances-IsSound path [] s h q = q
  index_entrances-IsSound path (e ∷ es) s h q =
      index_entrances-IsSound path es (index_entrance path e s) h
        (record { down = q.down; index = λ k. set-IsWithin e k path s.entrance_index h q.index })

  add_files-IsWithin :
      (index : GoMap (List String)) (files down : List String)
      → ((e : String) → IsWithin (or_empty (get e index)))
      → IsWithin down
      → IsWithin (add_files index files down)
  unfolding add_files
  add_files-IsWithin index [] down w d = d
  add_files-IsWithin index (f ∷ fs) down w d =
      add_files-IsWithin index fs (add_all (or_empty (get f index)) down) w
        (add_all-IsWithin (or_empty (get f index)) down (w f) d)

  collect-IsSound :
      (path : String) (es : List String) (s : Search)
      → contains path paths ≡ true
      → IsSound s
      → IsSound (collect path es s)
  unfolding collect
  collect-IsSound path es s h q =
      if_both IsSound (any_in s.focus_paths es) (mark path s) (index_entrances path es s)
        (mark-IsSound path s h q) (index_entrances-IsSound path es s h q)

module _ (rel : String → String) (settings : String → Result (List String)) (ignore : List String)
    (project_only : Bool) where
  -- the paths of the stacks, or of their projects
  unfoldable pub paths_of : Project → List Stack → List String
  paths_of p [] = []
  paths_of p (st ∷ sts) = stack_project_path rel settings ignore project_only p st ∷ paths_of p sts

  unfoldable pub all_paths : List Project → List String
  unfolding paths_of
  all_paths [] = []
  all_paths (p ∷ ps) = paths_of p p.stacks ++ all_paths ps

  module _ (paths : List String) where
    with_settings-IsSound :
        (path : String) (s : Search) (r : Result (List String))
        → contains path paths ≡ true
        → IsSound paths s
        → OnValue (IsSound paths) (with_settings rel settings ignore project_only path s r)
    unfolding with_settings
    with_settings-IsSound path s (error e) h q = tt
    with_settings-IsSound path s (value files) h q =
        collect-IsSound paths path (not_ignored ignore (all_rel rel files)) s h q

    search_stack-IsSound :
        (path : String) (st : Stack) (s : Search)
        → contains path paths ≡ true
        → IsSound paths s
        → OnValue (IsSound paths) (search_stack rel settings ignore project_only path st s)
    unfolding search_stack
    search_stack-IsSound path st s h q =
        let cut = cut_off (rel st.path) ignore s.focus_paths in
        let s' : Search = record s { focus_paths = cut.0 } in
        let q' : IsSound paths s' = record { down = q.down; index = q.index } in
        value_if (IsSound paths) cut.1 (mark path s')
          (with_settings rel settings ignore project_only path s' (settings st.path))
          (mark-IsSound paths path s' h q') (with_settings-IsSound path s' (settings st.path) h q')

    search_stacks-IsSound :
        (p : Project) (sts : List Stack) (s : Search)
        → IsWithin paths (paths_of p sts)
        → IsSound paths s
        → OnValue (IsSound paths) (search_stacks rel settings ignore project_only p sts s)
    unfolding search_stacks paths_of
    search_stacks-IsSound p [] s w q = q
    search_stacks-IsSound p (st ∷ sts) s w q =
        let path = stack_project_path rel settings ignore project_only p st in
        OnValue-bind (IsSound paths) (IsSound paths)
          (search_stack rel settings ignore project_only path st s)
          (search_stacks rel settings ignore project_only p sts)
          (search_stack-IsSound path st s (head-IsWithin paths path (paths_of p sts) w) q)
          (λ t r. search_stacks-IsSound p sts t (tail-IsWithin paths path (paths_of p sts) w) r)

    search_projects-IsSound :
        (ps : List Project) (s : Search)
        → IsWithin paths (all_paths ps)
        → IsSound paths s
        → OnValue (IsSound paths) (search_projects rel settings ignore project_only ps s)
    unfolding search_projects all_paths
    search_projects-IsSound [] s w q = q
    search_projects-IsSound (p ∷ ps) s w q =
        OnValue-bind (IsSound paths) (IsSound paths)
          (search_stacks rel settings ignore project_only p p.stacks s)
          (search_projects rel settings ignore project_only ps)
          (search_stacks-IsSound p p.stacks s
            (λ v e. w v (ground (arith, contains-append v (paths_of p p.stacks) (all_paths ps)))) q)
          (λ t r.
            search_projects-IsSound ps t
              (λ v e. w v (ground (arith, contains-append v (paths_of p p.stacks) (all_paths ps))))
              r)

  nothing-IsSound :
      (paths focus : List String)
      → IsSound paths
          (record { focus_paths = focus; entrances = []; entrance_index = []; down_streams = [] })
  unfolding contains get
  nothing-IsSound paths focus = record { down = λ v e. cc; index = λ k v e. cc }

  -- Whatever files KCL's search returns, all that is found downstream is the path of a stack of the
  -- projects, or that of its project where projects are asked for.
  pub find_down_streams-IsWithin :
      (list : List String → List String → Result (List String)) (projects : List Project)
      (focus downs : List String)
      → find_down_streams rel settings ignore project_only list projects focus ≡ value downs
      → IsWithin (all_paths projects) downs
  unfolding find_down_streams
  find_down_streams-IsWithin list projects focus downs e =
      subst (OnValue (IsWithin (all_paths projects))) e (
        OnValue-bind (IsSound (all_paths projects)) (IsWithin (all_paths projects))
          (search_projects rel settings ignore project_only projects _)
          (λ s. list (to_slice s.entrances) (to_slice s.focus_paths) >>? λ files.
            value (add_files s.entrance_index files s.down_streams))
          (search_projects-IsSound (all_paths projects) projects _ (λ v h. h)
            (nothing-IsSound (all_paths projects) focus))
          (λ s q.
            OnValue-bind (λ files. Unit {0}) (IsWithin (all_paths projects))
              (list (to_slice s.entrances) (to_slice s.focus_paths))
              (λ files. value (add_files s.entrance_index files s.down_streams))
              (OnValue-any (list (to_slice s.entrances) (to_slice s.focus_paths)))
              (λ files _.
                add_files-IsWithin (all_paths projects) s.entrance_index files s.down_streams
                  q.index q.down)))

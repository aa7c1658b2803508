-- ===== src/Deps/Kept.antt =====
-- What the loop of `findDownStreams` of pkg/cmd/deps/options.go keeps of its focus paths and of what is
-- downstream.
use kusion.Base.{
  String, Bool, true, false, List, [], ◌∷◌, ◌≡◌, refl, contains, arith, eq_iff, eq_refl, if_both,
}
use kusion.Base.Text.{◌<>◌, has_prefix}
use kusion.Base.GoMap.{GoMap, get}
use kusion.Control.{Result, value, error}
use kusion.Deps.{
  Stack, Search, add, add_all, cut_off, or_empty, mark, index_entrance, index_entrances,
  not_ignored, any_in, collect, with_settings, search_stack, add_files, all_rel,
}
use kusion.Deps.Sound.{OnValue, value_if, contains-add}

pub OnValue-map :
    {A : Type 0} {P Q : A → Type 0} (r : Result A)
    → OnValue P r
    → ((a : A) → P a → Q a)
    → OnValue Q r
OnValue-map (value a) h k = k a h
OnValue-map (error e) h k = tt

pub cut_off-keeps :
    (f dir : String) (ignore fs : List String)
    → has_prefix f (dir <> "/") ≡ false
    → contains f fs ≡ true
    → contains f (cut_off dir ignore fs).0 ≡ true
unfolding cut_off contains
cut_off-keeps f dir ignore [] h e = cc
cut_off-keeps f dir ignore (g ∷ gs) h e =
    ground (arith, eq_iff g f, cut_off-keeps f dir ignore gs h)

pub cut_off-finds :
    (f dir : String) (ignore fs : List String)
    → has_prefix f (dir <> "/") ≡ true
    → contains f ignore ≡ false
    → contains f fs ≡ true
    → (cut_off dir ignore fs).1 ≡ true
unfolding cut_off contains
cut_off-finds f dir ignore [] h n e = cc
cut_off-finds f dir ignore (g ∷ gs) h n e =
    ground (arith, eq_iff g f, cut_off-finds f dir ignore gs h n)

contains-add_all :
    (v : String) (ks s : List String) → contains v s ≡ true → contains v (add_all ks s) ≡ true
unfolding add_all
contains-add_all v [] s h = h
contains-add_all v (k ∷ ks) s h =
    contains-add_all v ks (add k s) (ground (arith, contains-add v k s))

pub contains-add_files :
    (v : String) (index : GoMap (List String)) (files down : List String)
    → contains v down ≡ true
    → contains v (add_files index files down) ≡ true
unfolding add_files
contains-add_files v index [] down h = h
contains-add_files v index (f ∷ fs) down h =
    contains-add_files v index fs (add_all (or_empty (get f index)) down)
      (contains-add_all v (or_empty (get f index)) down h)

index_entrances-focus :
    (path : String) (es : List String) (s : Search)
    → ((index_entrances path es s).focus_paths ≡ s.focus_paths)
      × ((index_entrances path es s).down_streams ≡ s.down_streams)
unfolding index_entrances
index_entrances-focus path [] s = (refl, refl)
index_entrances-focus path (e ∷ es) s = index_entrances-focus path es (index_entrance path e s)

-- A path that is downstream stays so, and the focus paths stay.
abbrev pub Extended : String → Search → Search → Type 0
Extended v s t =
    (t.focus_paths ≡ s.focus_paths)
    × (contains v s.down_streams ≡ true → contains v t.down_streams ≡ true)

mark-Extended : (path v : String) (s : Search) → Extended v s (mark path s)
unfolding mark
mark-Extended path v s = (refl, λ h. ground (arith, contains-add v path s.down_streams))

pub mark-marks : (path : String) (s : Search) → contains path (mark path s).down_streams ≡ true
unfolding mark
mark-marks path s = ground (arith, contains-add path path s.down_streams, eq_refl path)

collect-Extended :
    (path v : String) (es : List String) (s : Search) → Extended v s (collect path es s)
unfolding collect
collect-Extended path v es s =
    if_both (Extended v s) (any_in s.focus_paths es) (mark path s) (index_entrances path es s)
      (mark-Extended path v s)
      (let same = index_entrances-focus path es s in (same.0, λ h. cc (same.1, h)))

module _ (rel : String → String) (settings : String → Result (List String)) (ignore : List String)
    (project_only : Bool) where
  with_settings-Extended :
      (path v : String) (s : Search) (r : Result (List String))
      → OnValue (Extended v s) (with_settings rel settings ignore project_only path s r)
  unfolding with_settings
  with_settings-Extended path v s (error e) = tt
  with_settings-Extended path v s (value files) =
      collect-Extended path v (not_ignored ignore (all_rel rel files)) s

  abbrev pub cut : Stack → Search → Search
  cut st s = record s { focus_paths = (cut_off (rel st.path) ignore s.focus_paths).0 }

  pub search_stack-Extended :
      (path v : String) (st : Stack) (s : Search)
      → OnValue (Extended v (cut st s)) (search_stack rel settings ignore project_only path st s)
  unfolding search_stack
  search_stack-Extended path v st s =
      value_if (Extended v (cut st s)) (cut_off (rel st.path) ignore s.focus_paths).1
        (mark path (cut st s))
        (with_settings rel settings ignore project_only path (cut st s) (settings st.path))
        (mark-Extended path v (cut st s))
        (with_settings-Extended path v (cut st s) (settings st.path))

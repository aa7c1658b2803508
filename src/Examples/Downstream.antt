-- ===== src/Examples/Downstream.antt =====
-- The stack of the small project that is downstream of its own file.
use kusion.Base.{String, true, false, List, [], ◌∷◌, ◌≡◌, refl, contains}
use kusion.Base.Text.{has_prefix}
use kusion.Control.{Result, value}
use kusion.Deps.{Project, find_down_streams}
use kusion.Deps.Sound.{IsWithin, all_paths, find_down_streams-IsWithin}
use kusion.Deps.Marked.{any_holds_in, all_holders, find_down_streams-marks}

abbrev same : String → String
same path = path

abbrev main_file : String → Result (List String)
main_file path = value ("shop/dev/main.k" ∷ [])

abbrev finds_nothing : List String → List String → Result (List String)
finds_nothing files up_streams = value []

abbrev shop : Project
shop = record { path = "shop"; stacks = record { path = "shop/dev" } ∷ [] }

main_is_marked :
    find_down_streams same main_file [] false finds_nothing (shop ∷ []) ("shop/dev/main.k" ∷ [])
    ≡ value ("shop/dev" ∷ [])
unfolding find_down_streams contains
main_is_marked = refl

main_is_wanted : contains "shop/dev/main.k" [] ≡ false
unfolding contains
main_is_wanted = refl

main_is_focused : contains "shop/dev/main.k" ("shop/dev/main.k" ∷ []) ≡ true
unfolding contains
main_is_focused = refl

main_is_held : any_holds_in same main_file [] false "shop/dev/main.k" (shop ∷ []) ≡ true
unfolding any_holds_in has_prefix
main_is_held = refl

find_down_streams-IsWithin_example :
    IsWithin (all_paths same main_file [] false (shop ∷ [])) ("shop/dev" ∷ [])
find_down_streams-IsWithin_example =
    find_down_streams-IsWithin same main_file [] false finds_nothing (shop ∷ [])
      ("shop/dev/main.k" ∷ []) ("shop/dev" ∷ []) main_is_marked

find_down_streams-marks_example :
    (v : String) × (contains v (all_holders same main_file [] false "shop/dev/main.k" (shop ∷ []))
      ≡ true)
    × (contains v ("shop/dev" ∷ []) ≡ true)
find_down_streams-marks_example =
    find_down_streams-marks same main_file [] false "shop/dev/main.k" main_is_wanted finds_nothing
      (shop ∷ []) ("shop/dev/main.k" ∷ []) ("shop/dev" ∷ []) main_is_focused main_is_held
      main_is_marked

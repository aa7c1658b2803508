-- ===== src/Base/Text.antt =====
-- What the source uses of Go's package `strings`.
use Prim.Native.Char.{Char, code}
use Prim.Native.Nat.{ℕ}
use Prim.Native.String
use Prim.Native.String.{String, [], ◌∷◌}
use mathlib.Core.Path.{◌≡◌, refl}
use mathlib.Core.Bool.{Bool, true, false}
use mathlib.Core.Option.{Option, none, some}
use mathlib.Core.List.{List, [], ◌∷◌}
use kusion.Base.Tests.{nat_eq, if◌then◌else◌}

infixl 65 ◌<>◌
abbrev pub ◌<>◌ : String → String → String
s <> t = String.◌++◌ s t

-- `strings.TrimPrefix` behind a successful `strings.HasPrefix`: the rest of the text, if the
-- first argument is a prefix of it.
unfoldable pub strip_prefix : String → String → Option String
strip_prefix [] s = some s
strip_prefix (c ∷ p) [] = none
strip_prefix (c ∷ p) (d ∷ s) =
    let rest = strip_prefix p s in if nat_eq (code c) (code d) then rest else none

unfoldable pub has_prefix : String → String → Bool
unfolding strip_prefix
has_prefix s p = elim (strip_prefix p s) [ none ↦ false | some r ↦ true ]

abbrev in_front : Char → List String → List String
in_front c [] = (c ∷ []) ∷ []
in_front c (s ∷ ss) = (c ∷ s) ∷ ss

-- `strings.Split` at a separator of one character: never the empty list.
unfoldable pub split : ℕ → String → List String
split sep [] = "" ∷ []
split sep (c ∷ s) =
    let rest = split sep s in if nat_eq (code c) sep then "" ∷ rest else in_front c rest

-- The first part of `strings.Split`, whose result is never empty.
abbrev pub first_part : List String → String
first_part [] = ""
first_part (s ∷ ss) = s

unfoldable pub join : String → List String → String
join sep [] = ""
join sep (s ∷ []) = s
join sep (s ∷ t ∷ ss) = s <> sep <> join sep (t ∷ ss)

split_path : split b'.' "a.b.c" ≡ "a" ∷ "b" ∷ "c" ∷ []
unfolding split
split_path = refl

split_empty : split b'.' "" ≡ "" ∷ []
unfolding split
split_empty = refl

strip_ref : strip_prefix "$kusion_path." "$kusion_path.a.b" ≡ some "a.b"
unfolding strip_prefix
strip_ref = refl

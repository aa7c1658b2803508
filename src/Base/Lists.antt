-- ===== src/Base/Lists.antt =====
-- Lists measured by native numbers, and lists of texts as sets.
use Prim.Native.Nat.{ℕ, suc}
use Prim.Native.String.{String}
use mathlib.Core.Path.{◌≡◌, refl}
use mathlib.Core.Bool.{Bool, false, ◌||◌}
use mathlib.Core.List.{List, [], ◌∷◌, ◌++◌}
use native.Mathlib.Omega.{arith}
use text.Mathlib.Text.{◌==◌}
use kusion.Base.Tests.{if◌then◌else◌}

module _ {ℓ} {A : Type ℓ} where
  abbrev pub length : List A → ℕ
  length [] = 0
  length (x ∷ xs) = suc (length xs)

-- What holds of each element.
abbrev pub All {ℓ κ} : {A : Type ℓ} → (A → Type κ) → List A → Type κ
All Holds [] = Unit
All Holds (first ∷ rest) = Holds first × All Holds rest

pub All-append {ℓ κ} :
    {A : Type ℓ} (Holds : A → Type κ) (front back : List A)
    → All Holds front
    → All Holds back
    → All Holds (front ++ back)
All-append Holds [] back f b = b
All-append Holds (first ∷ rest) back f b = (f.0, All-append Holds rest back f.1 b)

-- Whether a text is one of a list.
unfoldable pub contains : String → List String → Bool
contains k [] = false
contains k (j ∷ js) = j == k || contains k js

-- How often a text stands in a list.
unfoldable pub count : String → List String → ℕ
count k [] = 0
count k (j ∷ js) = if j == k then suc (count k js) else count k js

pub contains-append :
    (k : String) (xs ys : List String) → contains k (xs ++ ys) ≡ (contains k xs || contains k ys)
unfolding contains
contains-append k [] ys = refl
contains-append k (x ∷ xs) ys = ground (arith, contains-append k xs ys)

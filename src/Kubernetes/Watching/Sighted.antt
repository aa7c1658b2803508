-- ===== src/Kubernetes/Watching/Sighted.antt =====
-- What `doWatch` of pkg/engine/runtime/kubernetes/kubernetes_runtime.go has seen when it returns, and what
-- it waits behind when it does not.
use mathlib.Core.Path.{subst}
use kusion.Base.{
  ℕ, Bool, false, Option, none, some, ◌≡◌, inl, inr, refl, List, [], ◌∷◌, All, Bool-cases,
}
use kusion.Value.{Fields}
use kusion.Cluster.{Reply, answered, rejected}
use kusion.Kubernetes.Watching.{first_fit, seen, sight, do_watch}

pub first_fit-All :
    (P : Option Fields → Type 0) (fits : Fields → Bool) (events : List (Option Fields))
    (obj : Fields)
    → All P events
    → first_fit fits events ≡ some obj
    → P (some obj)
unfolding first_fit
first_fit-All P fits [] obj all e = cc
first_fit-All P fits (none ∷ es) obj (p, all) e = first_fit-All P fits es obj all e
first_fit-All P fits (some x ∷ es) obj (p, all) e = elim (Bool-cases (fits x)) [
  | inl t ↦ let same : some x ≡ some obj = cc in subst P same p
  | inr t ↦ first_fit-All P fits es obj all cc
]

-- an event whose object, if it is one, fails the checker
abbrev pub IsUnfit : (Fields → Bool) → Option Fields → Type 0
IsUnfit fits none = Unit
IsUnfit fits (some obj) = fits obj ≡ false

pub first_fit-none :
    (fits : Fields → Bool) (events : List (Option Fields))
    → first_fit fits events ≡ none
    → All (IsUnfit fits) events
unfolding first_fit
first_fit-none fits [] e = tt
first_fit-none fits (none ∷ es) e = (tt, first_fit-none fits es e)
first_fit-none fits (some x ∷ es) e = elim (Bool-cases (fits x)) [
  | inl t ↦ cc
  | inr t ↦ (t, first_fit-none fits es cc)
]

sight-seen :
    (fits : Fields → Bool) (events : List (Option Fields)) (found : Option Fields) (obj : Fields)
    (e : first_fit fits events ≡ found)
    → sight fits events found e ≡ seen obj
    → found ≡ some obj
unfolding sight
sight-seen fits events (some x) obj e h = cc
sight-seen fits events none obj e h = cc

pub do_watch-seen :
    {W : Type 0} (fits : Fields → Bool) (r : Reply (ℕ × List (Option Fields)) × W) (ch : ℕ)
    (obj : Fields)
    → (do_watch fits r).0 ≡ answered (ch, seen obj)
    → (events : List (Option Fields)) × (r.0 ≡ answered (ch, events))
      × (first_fit fits events ≡ some obj)
unfolding do_watch
do_watch-seen fits (rejected x, w) ch obj h = cc
do_watch-seen fits (answered (c, events), w) ch obj h =
    (events, cc, sight-seen fits events _ obj refl cc)

-- ===== src/Operations/Validated.antt =====
-- `validateRequest` of pkg/engine/operation/apply.go.
use kusion.Base.{
  ℕ, ◌≤◌, ◌<◌, String, none, some, List, [], ◌∷◌, ◌≡◌, ◌↔◌, inl, inr, if◌then◌else◌, contains,
  count, map, arith, eq_iff, Option-cases,
}
use kusion.Models.{Resource, Spec, resource_key, listed}
use kusion.Operation.{Request}
use kusion.Operations.{duplicate_from, validate_request}

abbrev pub keys_of : List Resource → List String
keys_of rs = map resource_key rs

-- how often a key may still come
abbrev still : String → List String → ℕ
still k seen = if contains k seen then 0 else 1

duplicate_from-none :
    (k : String) (seen : List String) (rs : List Resource)
    → duplicate_from seen rs ≡ none
    → count k (keys_of rs) ≤ still k seen
unfolding duplicate_from contains count
duplicate_from-none k seen [] h = ground arith
duplicate_from-none k seen (r ∷ rs) h =
    ground (arith, eq_iff r.id k, duplicate_from-none k (r.id ∷ seen) rs)

duplicate_from-some :
    (k : String) (seen : List String) (rs : List Resource)
    → duplicate_from seen rs ≡ some k
    → still k seen < count k (keys_of rs)
unfolding duplicate_from contains count
duplicate_from-some k seen [] h = cc
duplicate_from-some k seen (r ∷ rs) h =
    ground (arith, eq_iff r.id k, duplicate_from-some k (r.id ∷ seen) rs)

valid :
    (r : Request) (sp : Spec)
    → r.spec ≡ some sp
    → duplicate_from [] (listed sp.resources) ≡ none
    → validate_request (some r) ≡ none
unfolding validate_request
valid r sp e h = ground arith

no_duplicate_in :
    (r : Request) (sp : Spec)
    → r.spec ≡ some sp
    → validate_request (some r) ≡ none
    → duplicate_from [] (listed sp.resources) ≡ none
unfolding validate_request
no_duplicate_in r sp e h = ground arith

-- A request with a spec passes the validation exactly if no key is that of two of its resources.
pub validate_request-none :
    (r : Request) (sp : Spec)
    → r.spec ≡ some sp
    → (validate_request (some r) ≡ none)
      ↔ ((k : String) → count k (keys_of (listed sp.resources)) ≤ 1)
unfolding contains
validate_request-none r sp e = (
  λ h k. duplicate_from-none k [] (listed sp.resources) (no_duplicate_in r sp e h),
  λ distinct. elim (Option-cases (duplicate_from [] (listed sp.resources))) [
    | inl none_found ↦ valid r sp e none_found
    | inr (k, found) ↦
        ground (arith, distinct k, duplicate_from-some k [] (listed sp.resources) found)
  ],
)

-- ===== src/Node/Ignored.antt =====
-- What the loop over the ignored fields in `computeActionType` of
-- pkg/engine/operation/graph/resource_node.go leaves of the two resources it compares.
use mathlib.Core.Path.{subst}
use kusion.Base.{String, true, Option, none, some, List, [], ◌∷◌, ◌≡◌, refl, sym, All, ◌∙◌}
use kusion.Base.Text.{split}
use kusion.Control.{ok, bind-eq-ok}
use kusion.Value.{Value, object, Fields}
use kusion.Models.{Resource}
use kusion.Refs.{remove_nested_field}
use kusion.Refs.Removed.{values_at, diverge, removed_self, removed_other, removed_none}
use kusion.Node.{remove_fields, remove_field, remove_from}

-- the values that the dotted name of a field leads to
abbrev values_of_field : Fields → List String → List Value
values_of_field attrs [] = []
values_of_field attrs (k ∷ ks) = values_at (object attrs) k ks

-- Attributes without the fields: none of the fields leads to a value, a path that parts from all of them
-- leads to the values that it led to, and what led to no value leads to none.
abbrev IsWithout : List String → Fields → Fields → Type 0
IsWithout fs before after =
    All (λ f. values_of_field after (split b'.' f) ≡ []) fs
    × ((k : String) (ks : List String)
        → All (λ f. diverge (split b'.' f) (k ∷ ks) ≡ true) fs
        → values_at (object after) k ks ≡ values_at (object before) k ks)
    × ((k : String) (ks : List String)
        → values_at (object before) k ks ≡ []
        → values_at (object after) k ks ≡ [])

-- Attributes that are a nil map stay one.
abbrev AreWithout : List String → Option Fields → Option Fields → Type 0
AreWithout fs (some before) (some after) = IsWithout fs before after
AreWithout fs (some before) none = ⊥
AreWithout fs none after = after ≡ none

-- The second resource is the first without the fields: the attributes are without them, and the rest of
-- it is the same. Fields are only ignored of a resource that is there.
abbrev pub Ignores : List String → Option Resource → Option Resource → Type 0
Ignores fs (some r) after =
    (attrs : Option Fields) × (after ≡ some (record r { attributes = attrs }))
    × AreWithout fs r.attributes attrs
Ignores fs none after = (fs ≡ []) × (after ≡ none)

nothing_removed : (fs : Fields) → IsWithout [] fs fs
nothing_removed fs = (tt, λ k ks d. refl, λ k ks h. h)

-- one field more is removed
through :
    (f k : String) (ks fs : List String) (before mid after : Fields)
    → split b'.' f ≡ k ∷ ks
    → remove_nested_field (object before) k ks ≡ object mid
    → IsWithout fs mid after
    → IsWithout (f ∷ fs) before after
through f k ks fs before mid after e m (gone, kept, none_added) = (
  (
    rw e (
        none_added k ks (subst (λ v. values_at v k ks ≡ []) m (removed_self (object before) k ks))),
    gone,
  ),
  λ i is apart.
      kept i is apart.1
      ∙ subst (λ v. values_at v i is ≡ values_at (object before) i is) m
          (removed_other (object before) k ks i is
            (subst (λ path. diverge path (i ∷ is) ≡ true) e apart.0)),
  λ i is h.
      none_added i is
        (subst (λ v. values_at v i is ≡ []) m (removed_none (object before) k ks i is h)),
)

remove_from-AreWithout :
    (f : String) (fs path : List String) (attrs after : Option Fields)
    → split b'.' f ≡ path
    → AreWithout fs (remove_from attrs path) after
    → AreWithout (f ∷ fs) attrs after
unfolding remove_from remove_nested_field
remove_from-AreWithout f fs path none after e h = h
remove_from-AreWithout f fs [] (some before) none e h = h
remove_from-AreWithout f fs (k ∷ []) (some before) none e h = h
remove_from-AreWithout f fs (k ∷ j ∷ js) (some before) none e h = h
remove_from-AreWithout f fs [] (some before) (some after) e (gone, kept, none_added) =
    ((rw e refl, gone), λ i is apart. kept i is apart.1, none_added)
remove_from-AreWithout f fs (k ∷ []) (some before) (some after) e h =
    through f k [] fs before _ after e refl h
remove_from-AreWithout f fs (k ∷ j ∷ js) (some before) (some after) e h =
    through f k (j ∷ js) fs before _ after e refl h

remove_field-Ignores :
    (f : String) (fs : List String) (first mid after : Option Resource)
    → remove_field (split b'.' f) first ≡ ok mid
    → Ignores fs mid after
    → Ignores (f ∷ fs) first after
unfolding remove_field
remove_field-Ignores f fs none mid after e h = cc
remove_field-Ignores f fs (some r) none after e h = cc
remove_field-Ignores f fs (some r) (some q) after e (attrs, same, w) =
    let is : record r { attributes = remove_from r.attributes (split b'.' f) } ≡ q = cc in
    let (attrs', same', w') = subst (λ p. Ignores fs (some p) after) (sym is) (attrs, same, w) in
    (attrs', same', remove_from-AreWithout f fs (split b'.' f) r.attributes attrs' refl w')

nothing_ignored : (r : Option Resource) → Ignores [] r r
nothing_ignored none = (refl, refl)
nothing_ignored (some r) = (r.attributes, refl, same r.attributes)
  where
    same : (attrs : Option Fields) → AreWithout [] attrs attrs
    same none = refl
    same (some fs) = nothing_removed fs

pub remove_fields-Ignores :
    (fs : List String) (live dry_run : Option Resource) (both : Option Resource × Option Resource)
    → remove_fields fs live dry_run ≡ ok both
    → Ignores fs live both.0 × Ignores fs dry_run both.1
unfolding remove_fields
remove_fields-Ignores [] live dry_run both e =
    let same : ◌≡◌ {A = Option Resource × Option Resource} (live, dry_run) both = cc in
    subst (λ p. Ignores [] live p.0 × Ignores [] dry_run p.1) same
      (nothing_ignored live, nothing_ignored dry_run)
remove_fields-Ignores (f ∷ fs) live dry_run both e =
    let (live', l, e') = bind-eq-ok (remove_field (split b'.' f) live) _ e in
    let (dry_run', d, e'') = bind-eq-ok (remove_field (split b'.' f) dry_run) _ e' in
    let (left, right) = remove_fields-Ignores fs live' dry_run' both e'' in
    (
      remove_field-Ignores f fs live live' both.0 l left,
      remove_field-Ignores f fs dry_run dry_run' both.1 d right,
    )

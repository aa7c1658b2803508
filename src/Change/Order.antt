-- ===== src/Change/Order.antt =====
-- The steps that a change order lists are there, and reading them never panics.
use kusion.Base.{
  ◌↔◌, String, Bool, true, false, Option, none, some, List, [], ◌∷◌, ◌==◌, ◌≡◌, refl, ◌∙◌, arith,
  eq_iff, eq_refl, if◌then◌else◌, All, All-append, contains, Bool-cases, inl, inr, Option-cases,
}
use kusion.Base.GoMap.{GoMap, get, set, keys, get-set, Visits, contains-visit, contains-keys}
use kusion.Control.{ok}
use kusion.Models.{Resource}
use kusion.Change.{
  ActionType, un_change, ChangeStep, ChangeOrder, steps_of, get_step, passes, values_from, values,
  all_un_change_from, all_un_change, record_step, new_change_step, is_action,
}

-- Each listed key has a step, and the step has that key for its id.
abbrev pub HasStep : GoMap ChangeStep → String → Type 0
HasStep m k = (s : ChangeStep) × (get k m ≡ some s) × (s.id ≡ k)

abbrev pub IsListed : ChangeOrder → Type 0
IsListed o = All (HasStep (steps_of o)) o.step_keys

HasStep-set :
    (m : GoMap ChangeStep) (id k : String) (s : ChangeStep)
    → s.id ≡ id
    → HasStep m k
    → HasStep (set id s m) k
HasStep-set m id k s e (t, found, named) = elim (Bool-cases (id == k)) [
  | inl same ↦ (s, rw (get-set, same), e ∙ (eq_iff id k).0 same)
  | inr other ↦ (t, rw (get-set, other) found, named)
]

All-HasStep-set :
    (m : GoMap ChangeStep) (id : String) (s : ChangeStep) (ks : List String)
    → s.id ≡ id
    → All (HasStep m) ks
    → All (HasStep (set id s m)) ks
All-HasStep-set m id s [] e h = tt
All-HasStep-set m id s (k ∷ ks) e h = (HasStep-set m id k s e h.0, All-HasStep-set m id s ks e h.1)

abbrev pub IsListed? : Option ChangeOrder → Type 0
IsListed? none = Unit
IsListed? (some o) = IsListed o

-- Recording a step keeps a change order well formed: every listed key has its step.
pub record_step-IsListed :
    (id : String) (a : ActionType) (plan live : Option Resource) (o : Option ChangeOrder)
    → IsListed? o
    → IsListed? (record_step id a plan live o)
unfolding record_step
record_step-IsListed id a plan live none h = tt
record_step-IsListed id a plan live (some o) h =
    let step = new_change_step id a plan live in
    All-append (HasStep (set id step (steps_of o))) o.step_keys (id ∷ [])
      (All-HasStep-set (steps_of o) id step o.step_keys refl h)
      ((step, rw (get-set, eq_refl), refl), tt)

-- Every filter lets the step through.
abbrev pub all_of : List (ChangeStep → Bool) → ChangeStep → Bool
all_of [] s = true
all_of (f ∷ fs) s = if f s then all_of fs s else false

passes-all :
    (fs : List (ChangeStep → Bool)) (s : ChangeStep) → passes fs (some s) ≡ ok (all_of fs s)
unfolding passes
passes-all [] s = refl
passes-all (f ∷ fs) s = ground (arith, passes-all fs s)

-- The steps of a list of keys that pass a test.
abbrev pub steps_where :
    GoMap ChangeStep → (ChangeStep → Bool) → List String → List (Option ChangeStep)
steps_where m f [] = []
steps_where m f (k ∷ ks) =
    let rest = steps_where m f ks in
    elim (get k m) [ none ↦ rest | some s ↦ if f s then some s ∷ rest else rest ]

values_from-eq :
    (o : ChangeOrder) (fs : List (ChangeStep → Bool)) (ks : List String)
    → All (HasStep (steps_of o)) ks
    → values_from o fs ks ≡ ok (steps_where (steps_of o) (all_of fs) ks)
unfolding values_from get_step
values_from-eq o fs [] h = refl
values_from-eq o fs (k ∷ ks) ((s, found, named), h) =
    ground (arith, passes-all fs s, values_from-eq o fs ks h)

-- On a well-formed order `Values` does not panic: it returns the steps of the listed keys, in
-- their order, that pass every filter.
pub values-eq_steps_where :
    (o : ChangeOrder) (fs : List (ChangeStep → Bool))
    → IsListed o
    → values o fs ≡ ok (steps_where (steps_of o) (all_of fs) o.step_keys)
unfolding values
values-eq_steps_where o fs h = values_from-eq o fs o.step_keys h

all_un_change_from_sound :
    (m : GoMap ChangeStep) (ks : List String) (k : String) (s : ChangeStep)
    → all_un_change_from m ks ≡ true
    → contains k ks ≡ true
    → get k m ≡ some s
    → is_action s.action un_change ≡ true
unfolding all_un_change_from contains
all_un_change_from_sound m [] k s h i e = cc
all_un_change_from_sound m (j ∷ js) k s h i e =
    ground (arith, eq_iff j k, all_un_change_from_sound m js k s)

all_un_change_from_complete :
    (m : GoMap ChangeStep) (ks : List String)
    → ((k : String) (s : ChangeStep) → get k m ≡ some s → s.action ≡ un_change)
    → all_un_change_from m ks ≡ true
unfolding all_un_change_from
all_un_change_from_complete m [] h = refl
all_un_change_from_complete m (j ∷ js) h = elim (Option-cases (get j m)) [
  | inl e ↦ ground (arith, all_un_change_from_complete m js h)
  | inr (s, e) ↦ ground (arith, h j s e, all_un_change_from_complete m js h)
]

is_un_change : (a : ActionType) → is_action a un_change ≡ true → a ≡ un_change
is_un_change a h = ground arith

-- In whatever order the map is ranged over, `AllUnChange` holds exactly when every recorded step
-- leaves its resource as it is.
pub all_un_change_iff :
    {visit : List String → List String}
    → Visits visit
    → (o : ChangeOrder)
    → (all_un_change visit o ≡ true)
      ↔ ((k : String) (s : ChangeStep) → get k (steps_of o) ≡ some s → s.action ≡ un_change)
unfolding all_un_change
all_un_change_iff {visit} v o = (
  λ h k s e. is_un_change s.action (
      all_un_change_from_sound (steps_of o) (visit (keys (steps_of o))) k s h
        (contains-visit v (keys (steps_of o)) k ∙ contains-keys k (steps_of o) ∙ rw e refl) e),
  λ h. all_un_change_from_complete (steps_of o) (visit (keys (steps_of o))) h,
)

-- ===== src/Operation/Saved.antt =====
-- What `UpdateState` hands to the storage, and that reading it back gives the index again.
use kusion.Base.{
  ◌+◌, ◌%◌, String, Option, none, some, List, [], ◌∷◌, ◌≡◌, refl, ◌∙◌, arith, eq_iff, if◌then◌else◌,
  contains, Option-cases, inl, inr,
}
use mathlib.Core.Path.{subst}
use kusion.Base.GoMap.{GoMap, get, keys, deref, Visits, contains-visit, contains-keys}
use kusion.Control.{Result, value, error}
use kusion.Models.{Resource, index, last_with, listed, get-index_from}
use kusion.States.{State, query_for, StateStorage, IsSaving}
use kusion.Operation.{Operation, live_resources, next_state, after_apply, update_state, uint64_mod}
use kusion.Operation.Refresh.{IsKeyed}

abbrev or_else : Option Resource → Option Resource → Option Resource
or_else none found = found
or_else (some r) found = some r

last_with-live_resources :
    (k : String) (idx : GoMap (Option Resource)) (ks : List String) (found : Option Resource)
    → IsKeyed idx
    → last_with k (live_resources idx ks) found
      ≡ (if contains k ks then or_else (deref (get k idx)) found else found)
unfolding last_with live_resources contains
last_with-live_resources k idx [] found h = refl
last_with-live_resources k idx (j ∷ js) found h = elim (Option-cases (deref (get j idx))) [
  | inl e ↦ ground (arith, eq_iff j k, last_with-live_resources k idx js found h)
  | inr (r, e) ↦ ground (
    arith,
    eq_iff j k,
    h j r e,
    last_with-live_resources k idx js found h,
    last_with-live_resources k idx js (some r) h,
  )
]

live_resources-round_trip :
    {visit : List String → List String}
    → Visits visit
    → (idx : GoMap (Option Resource)) (k : String) → IsKeyed idx
    → get k (index (live_resources idx (visit (keys idx)))) ≡ deref (get k idx)
unfolding index get
live_resources-round_trip {visit} v idx k h =
    get-index_from k [] (live_resources idx (visit (keys idx)))
    ∙ ground (
      arith,
      last_with-live_resources k idx (visit (keys idx)) none h,
      contains-visit v (keys idx) k,
      contains-keys k idx,
    )

-- The state that is saved counts one more change, wrapping at 64 bits, and its resources, indexed by
-- key, are the index again: every live entry is saved under its key and no deleted one is, in
-- whatever order the map is ranged over.
next_state-saves :
    {visit : List String → List String}
    → Visits visit
    → (idx : GoMap (Option Resource)) (state : State) (rs : List Resource) → IsKeyed idx
    → (next_state visit idx state).resources ≡ some rs
    → ((next_state visit idx state).serial ≡ (state.serial + 1) % uint64_mod)
      × ((k : String) → get k (index rs) ≡ deref (get k idx))
unfolding next_state
next_state-saves {visit} v idx state rs h e = (
  refl,
  λ k.
      let same : live_resources idx (visit (keys idx)) ≡ rs = cc in
      subst (λ l. get k (index l) ≡ deref (get k idx)) same (live_resources-round_trip v idx k h),
)

next_state-listed :
    {visit : List String → List String}
    → Visits visit
    → (idx : GoMap (Option Resource)) (state out : State) (k : String) → IsKeyed idx
    → out.resources ≡ (next_state visit idx state).resources
    → get k (index (listed out.resources)) ≡ deref (get k idx)
unfolding next_state
next_state-listed {visit} v idx state out k h e = rw e (live_resources-round_trip v idx k h)

after_apply-value :
    {W : Type 0} (o p : Operation) (w' : W) (r : Result (Unit {0}) × State × W)
    → after_apply o r ≡ (value tt, p, w')
    → r ≡ (value tt, p.result_state, w')
after_apply-value o p w' (value u, state, w) e = ground arith
after_apply-value o p w' (error msg, state, w) e = ground arith

-- Through a storage that keeps its promise, a state update that succeeds can be read back: asked for
-- by its tenant, project, stack and cluster, the latest state is the operation's result state, and
-- its resources, indexed by key, are the operation's index.
pub update_state-reads_back :
    {W : Type 0} {storage : StateStorage W} {visit : List String → List String}
    → IsSaving storage
    → Visits visit
    → (o p : Operation) (w w' : W) → IsKeyed o.state_resource_index
    → update_state storage visit o w ≡ (value tt, p, w')
    → ((storage.get_latest_state (query_for p.result_state) w').0 ≡ value (some p.result_state))
      × ((k : String)
          → get k (index (listed p.result_state.resources)) ≡ deref (get k o.state_resource_index))
unfolding update_state
update_state-reads_back {storage = storage} {visit} sv v o p w w' h e =
    let s = next_state visit o.state_resource_index o.result_state in
    let applied = after_apply-value o p w' (storage.apply s w) e in
    (
      sv.reads_back s p.result_state w w' applied,
      λ k.
          next_state-listed v o.state_resource_index o.result_state p.result_state k h
            (sv.keeps s p.result_state w w' applied).0,
    )

-- ===== src/Kubernetes/Watching.antt =====
-- `Watch` of pkg/engine/runtime/kubernetes/kubernetes_runtime.go: which objects are watched. A channel
-- is a number that the world hands out, and what arrives in it is a list of events. `doWatch` waits for
-- the first object that fits, and for ever if none of the events fits.
mod Sighted
pub mod Depth
use kusion.Base.{
  ℕ, zero, suc, String, Bool, true, false, Option, none, some, List, [], ◌∷◌, ◌++◌, ◌==◌, ◌&&◌,
  ◌||◌, ◌≡◌, refl, if◌then◌else◌, not,
}
use kusion.Base.Text.{◌<>◌}
use kusion.Status.{Status, new_error_status}
use kusion.Control.{Outcome, ok, failed, panicked, nil_dereference}
use kusion.Value.{Value, str, list, object, Items, nil, cons, Fields, get_field}
use kusion.Models.{Resource}
use kusion.Cluster.{
  Cluster, Call, Reply, answered, rejected, continue_with, ClientError, other, error_text, Gvk,
  RestMapping, Target,
}
use kusion.Kubernetes.Reading.{build_resource}
use kusion.Kubernetes.Kinds.{
  build_id_for_kubernetes, is_empty, get_dependent_gvk, get_named_gvk, owned_by, named_by,
}

-- `SequentialWatchers`
pub record Watchers : Type 0 where
  pub ids : List String
  pub watchers : List ℕ

abbrev pub new_watchers : Watchers
new_watchers = record { ids = []; watchers = [] }

unfoldable pub insert : String → ℕ → Watchers → Watchers
insert id ch w = record { ids = w.ids ++ id ∷ []; watchers = w.watchers ++ ch ∷ [] }

-- `Watch` of the client opens a channel, and `KindFor` looks EndpointSlice up. An event whose object is
-- not unstructured is `none`.
pub record WatchSource (W : Type 0) : Type 0 where
  pub open_watch : Target → Call W (ℕ × List (Option Fields))
  pub kind_for_slices : Call W Gvk

-- the object of the first event that passes the checker of `doWatch`
unfoldable pub first_fit : (Fields → Bool) → List (Option Fields) → Option Fields
first_fit fits [] = none
first_fit fits (none ∷ es) = first_fit fits es
first_fit fits (some obj ∷ es) = let rest = first_fit fits es in if fits obj then some obj else rest

-- What waiting for the first object comes to: the object, or no end, as no event fits.
pub data Sight : Type 0 where
  seen : Fields → Sight
  unseen :
      (fits : Fields → Bool) (events : List (Option Fields)) → first_fit fits events ≡ none → Sight

unfoldable pub sight :
    (fits : Fields → Bool) (events : List (Option Fields)) (found : Option Fields)
    → first_fit fits events ≡ found
    → Sight
sight fits events (some obj) e = seen obj
sight fits events none e = unseen fits events e

unfoldable pub do_watch :
    {W : Type 0} → (Fields → Bool) → Reply (ℕ × List (Option Fields)) × W → Reply (ℕ × Sight) × W
unfolding sight
do_watch fits (rejected e, w) = (rejected e, w)
do_watch fits (answered (ch, events), w) =
    (answered (ch, sight fits events (first_fit fits events) refl), w)

-- A run that has ended, one that waits for ever for an object that none of the events has, and one that
-- has used up its fuel.
pub data Progress (A : Type 0) : Type 0 where
  ended : A → Progress A
  waiting :
      (fits : Fields → Bool) (events : List (Option Fields))
      → first_fit fits events ≡ none
      → Progress A
  unfinished : Progress A

pub record WatchResponse : Type 0 where
  pub watchers : Option Watchers
  pub status : Option Status

module _ {W : Type 0} (c : Cluster W) (src : WatchSource W) where
  watch_in : Fields → (Fields → Bool) → Reply RestMapping × W → Reply (ℕ × Sight) × W
  unfolding do_watch
  watch_in cur fits (rejected e, w) = (rejected e, w)
  watch_in cur fits (answered m, w) =
      do_watch fits
        (src.open_watch (record { resource = m.resource; namespace = some (c.namespace cur) }) w)

  -- `next` is what the checker of `doWatch` has set once that has returned.
  watch_by_relation : Fields → Gvk → (Fields → Fields → Bool) → Call W (ℕ × Sight)
  unfolding watch_in
  watch_by_relation cur gvk related w =
      watch_in cur (λ watched. related watched cur) (c.rest_mapping gvk w)

  abbrev Followed : Type 0
  Followed = Progress (Reply Watchers × W)

  next_owner : (Fields → Watchers → W → Followed) → Watchers → Reply (ℕ × Sight) × W → Followed
  unfolding insert build_id_for_kubernetes
  next_owner rest ws (rejected e, w) = ended (rejected e, w)
  next_owner rest ws (answered (ch, unseen fits events e), w) = waiting fits events e
  next_owner rest ws (answered (ch, seen dependent), w) =
      rest dependent (insert (build_id_for_kubernetes c dependent) ch ws) w

  -- The loop over the dependents, with fuel. Its test for a nil dependent never breaks it, as `doWatch`
  -- has returned.
  unfoldable pub follow : ℕ → Fields → Gvk → Watchers → W → Followed
  unfolding is_empty next_owner watch_by_relation owned_by get_dependent_gvk
  follow zero owner gvk ws w = unfinished
  follow (suc fuel) owner gvk ws w =
      let deeper =
        next_owner
          (λ dependent. follow fuel dependent (get_dependent_gvk (c.gvk_of dependent).kind)) ws
          (watch_by_relation owner gvk (owned_by c) w) in
      if is_empty gvk then ended (answered ws, w) else deeper

  abbrev Watched : Type 0
  Watched = Progress (Reply Watchers × W)

  -- A Service has the one dependent.
  watched_once : Watchers → Reply (ℕ × Sight) × W → Watched
  unfolding insert build_id_for_kubernetes
  watched_once ws (rejected e, w) = ended (rejected e, w)
  watched_once ws (answered (ch, unseen fits events e), w) = waiting fits events e
  watched_once ws (answered (ch, seen dependent), w) =
      ended (answered (insert (build_id_for_kubernetes c dependent) ch ws), w)

  has_slices : Reply Gvk → Bool
  unfolding is_empty
  has_slices (answered gvk) = not (is_empty gvk)
  has_slices (rejected e) = false

  -- EndpointSlices, or Endpoints where the cluster has none
  dependent_of_service : Fields → Reply Gvk × W → Reply (ℕ × Sight) × W
  unfolding has_slices get_dependent_gvk get_named_gvk watch_by_relation owned_by named_by
  dependent_of_service obj (found, w) =
      let kind = (c.gvk_of obj).kind in
      if has_slices found
      then watch_by_relation obj (get_dependent_gvk kind) (owned_by c) w
      else watch_by_relation obj (get_named_gvk kind) (named_by c) w

  watch_service : Fields → Watchers → W → Watched
  unfolding watched_once dependent_of_service
  watch_service obj ws w = watched_once ws (dependent_of_service obj (src.kind_for_slices w))

  watch_root : ℕ → Fields → Reply (ℕ × Sight) × W → Watched
  unfolding follow watch_service insert build_id_for_kubernetes get_dependent_gvk
  watch_root fuel obj (rejected e, w) = ended (rejected e, w)
  watch_root fuel obj (answered (ch, unseen fits events e), w) = waiting fits events e
  watch_root fuel obj (answered (ch, seen first), w) =
      let ws = insert (build_id_for_kubernetes c obj) ch new_watchers in
      if c.kind obj == "Service"
      then watch_service obj ws w
      else follow fuel obj (get_dependent_gvk (c.gvk_of obj).kind) ws w

  watch_built : ℕ → Reply (Fields × Target) × W → Watched
  unfolding watch_root do_watch
  watch_built fuel (rejected e, w) = ended (rejected e, w)
  watch_built fuel (answered (obj, target), w) =
      watch_root fuel obj
        (do_watch (λ watched. c.name watched == c.name obj) (src.open_watch target w))

  watch_objects : ℕ → Option Resource → W → Watched
  unfolding watch_built build_resource
  watch_objects fuel none w = ended (rejected (other "requestResource is nil"), w)
  watch_objects fuel (some r) w = watch_built fuel (build_resource c r w)

  response_of : Reply Watchers → WatchResponse
  response_of (answered ws) = record { watchers = some ws; status = none }
  response_of (rejected e) = record {
    watchers = none;
    status = some (new_error_status (error_text e));
  }

  respond : Watched → Progress (WatchResponse × W)
  unfolding response_of
  respond (ended (reply, w)) = ended (response_of reply, w)
  respond (waiting fits events e) = waiting fits events e
  respond unfinished = unfinished

  unfoldable pub watch : ℕ → Option Resource → W → Progress (WatchResponse × W)
  unfolding watch_objects respond
  watch fuel r w = respond (watch_objects fuel r w)

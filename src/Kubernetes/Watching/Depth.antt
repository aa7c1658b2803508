-- ===== src/Kubernetes/Watching/Depth.antt =====
-- The dependents of an object are watched to a depth of three, the object included.
use kusion.Base.{ℕ, ◌≤◌, String, Option, none, some, ◌≡◌, List, All, length}
use kusion.Value.{Fields}
use kusion.Cluster.{Cluster, Reply, answered, rejected, Gvk, RestMapping}
use kusion.Kubernetes.Kinds.Chain.{Chain}
use kusion.Kubernetes.Watching.Sighted.{IsUnfit}
use kusion.Kubernetes.Watching.{
  Watchers, WatchSource, WatchResponse, Progress, ended, waiting, unfinished,
}

-- an event whose object, if it is one, has the kind
abbrev pub IsOfKind : {W : Type 0} → Cluster W → Gvk → Option Fields → Type 0
IsOfKind c g none = Unit
IsOfKind c g (some obj) = (c.gvk_of obj).kind ≡ g.kind

-- What watching relies on: an object that a watch of a kind's resource tells of has that kind.
pub record IsTyped {W : Type 0} (c : Cluster W) (src : WatchSource W) : Type 0 where
  pub told :
      (g : Gvk) (m : RestMapping) (w w' v : W) (ns : String) (ch : ℕ)
      (events : List (Option Fields))
      → c.rest_mapping g w ≡ (answered m, w')
      → (src.open_watch (record { resource = m.resource; namespace = some ns }) v).0
        ≡ answered (ch, events)
      → All (IsOfKind c g) events

-- at most `n` objects are watched, each with a channel
abbrev pub Watches : ℕ → Watchers → Type 0
Watches n ws = (length ws.ids ≤ n) × (length ws.watchers ≡ length ws.ids)

-- The loop has not used up its fuel, and has at most `n` objects where it has ended without an error.
abbrev Ended : {W : Type 0} → ℕ → Progress (Reply Watchers × W) → Type 0
Ended n unfinished = ⊥
Ended n (waiting fits events e) = Unit
Ended n (ended (answered ws, w)) = Watches n ws
Ended n (ended (rejected e, w)) = Unit

-- The run has not used up its fuel: it waits for ever for an object that fits none of the events of a
-- watch, or it has ended, and a response with watchers has at most `n`, each with an id.
abbrev pub EndsWithin : {W : Type 0} → ℕ → Progress (WatchResponse × W) → Type 0
EndsWithin n unfinished = ⊥
EndsWithin n (waiting fits events e) = All (IsUnfit fits) events
EndsWithin n (ended (response, w)) = (ws : Watchers) → response.watchers ≡ some ws → Watches n ws

-- ===== src/Runtimes/Started.antt =====
-- What `Runtimes` of pkg/engine/runtime/init/init.go returns.
use kusion.Base.{
  String, true, false, Option, none, some, List, [], ◌∷◌, ◌==◌, ◌≡◌, is_nil, arith, eq_iff, eq_refl,
  refl, inl, inr, Bool-cases, All,
}
use kusion.Base.GoMap.{GoMap, get, set, get-set}
use kusion.Control.{failed, Result, value, error, OnOk, OnOk-bind, OnOk-map, OnOk-if}
use kusion.Models.{Resource, listed}
use kusion.Runtime.{Runtime}
use kusion.Runtimes.{
  InitFn, init_runtime, unless_started, add_runtime, runtime_for, runtimes_from, runtimes,
}

module _ {W : Type 0} (support : GoMap (InitFn W)) (visit : List String → List String) (w : W) where
  -- Every runtime of the map was started by the function that its type is listed with.
  abbrev AreSupported : GoMap (Runtime W) → Type 0
  AreSupported m =
      (t : String) (rt : Runtime W)
      → get t m ≡ some rt
      → (init : InitFn W) × (get t support ≡ some init) × (init w ≡ value rt)

  record Grows (m m' : GoMap (Runtime W)) : Type 0 where
    kept : (t : String) → is_nil (get t m) ≡ false → is_nil (get t m') ≡ false
    supported : AreSupported m → AreSupported m'

  set_there :
      (t k : String) (r rt : Runtime W) (m : GoMap (Runtime W))
      → (t == k) ≡ true
      → get k (set t r m) ≡ some rt
      → r ≡ rt
  set_there t k r rt m same e = ground (arith, get-set t k r m)

  AreSupported-set :
      (t : String) (m : GoMap (Runtime W)) (init : InitFn W) (r : Runtime W)
      → get t support ≡ some init
      → init w ≡ value r
      → AreSupported m
      → AreSupported (set t r m)
  AreSupported-set t m init r s i h k rt e = elim (Bool-cases (t == k)) [
    | inl same ↦ (init, cc (s, (eq_iff t k).0 same), cc (i, set_there t k r rt m same e))
    | inr other ↦ h k rt (ground (arith, get-set t k r m))
  ]

  abbrev HasStarted : String → GoMap (Runtime W) → GoMap (Runtime W) → Type 0
  HasStarted t m m' = Grows m m' × (is_nil (get t m') ≡ false)

  init_runtime-Grows :
      (t : String) (m : GoMap (Runtime W)) (init : InitFn W) (r : Result (Runtime W))
      → get t support ≡ some init
      → init w ≡ r
      → OnOk (HasStarted t m) (init_runtime support visit w t m r)
  unfolding init_runtime
  init_runtime-Grows t m init (error e) s i = tt
  init_runtime-Grows t m init (value r) s i = (
    record {
      kept = λ k h. ground (arith, get-set t k r m);
      supported = AreSupported-set t m init r s i;
    },
    ground (arith, get-set t t r m, eq_refl t),
  )

  unless_started-Grows :
      (t : String) (m : GoMap (Runtime W)) (init : InitFn W) (o : Option (Runtime W))
      → get t support ≡ some init
      → get t m ≡ o
      → OnOk (HasStarted t m) (unless_started support visit w t m init o)
  unfolding unless_started
  unless_started-Grows t m init none s e = init_runtime-Grows t m init (init w) s refl
  unless_started-Grows t m init (some r) s e =
      (record { kept = λ k h. h; supported = λ h. h }, ground (arith, e))

  add_runtime-Grows :
      (t : String) (m : GoMap (Runtime W)) (o : Option (InitFn W))
      → get t support ≡ o
      → OnOk (HasStarted t m) (add_runtime support visit w t m o)
  unfolding add_runtime
  add_runtime-Grows t m none s = tt
  add_runtime-Grows t m (some init) s = unless_started-Grows t m init (get t m) s refl

  runtime_for-Grows :
      (r : Resource) (m : GoMap (Runtime W))
      → OnOk (HasStarted r.type m) (runtime_for support visit w r m)
  unfolding runtime_for
  runtime_for-Grows r m =
      OnOk-if (HasStarted r.type m) (r.type == "") (failed _)
        (add_runtime support visit w r.type m (get r.type support)) (λ _. tt)
        (λ _. add_runtime-Grows r.type m (get r.type support) refl)

  record AllStarted (rs : List Resource) (m m' : GoMap (Runtime W)) : Type 0 where
    grows : Grows m m'
    started : All (λ r. is_nil (get r.type m') ≡ false) rs

  runtimes_from-AllStarted :
      (rs : List Resource) (m : GoMap (Runtime W))
      → OnOk (AllStarted rs m) (runtimes_from support visit w rs m)
  unfolding runtimes_from
  runtimes_from-AllStarted [] m = record {
    grows = record { kept = λ k h. h; supported = λ h. h };
    started = tt;
  }
  runtimes_from-AllStarted (r ∷ rs) m =
      OnOk-bind (HasStarted r.type m) (AllStarted (r ∷ rs) m) (runtime_for support visit w r m)
        (runtimes_from support visit w rs) (runtime_for-Grows r m)
        (λ m' first.
          OnOk-map (runtimes_from support visit w rs m') (runtimes_from-AllStarted rs m')
            (λ m'' rest. record {
              grows = record {
                kept = λ k h. rest.grows.kept k (first.0.kept k h);
                supported = λ h. rest.grows.supported (first.0.supported h);
              };
              started = (rest.grows.kept r.type first.1, rest.started);
            }))

  abbrev pub IsStarted : Option (List Resource) → GoMap (Runtime W) → Type 0
  IsStarted rs m =
      All (λ r. is_nil (get r.type m) ≡ false) (listed rs)
      × ((t : String) (rt : Runtime W)
          → get t m ≡ some rt
          → (init : InitFn W) × (get t support ≡ some init) × (init w ≡ value rt))

  -- If the runtimes are returned, then there is one for each resource's type, and each was started by
  -- the function that the table lists its type with.
  pub runtimes-IsStarted :
      (rs : Option (List Resource)) → OnOk (IsStarted rs) (runtimes support visit w rs)
  unfolding runtimes get
  runtimes-IsStarted rs =
      OnOk-map (runtimes_from support visit w (listed rs) [])
        (runtimes_from-AllStarted (listed rs) [])
        (λ m all. (all.started, all.grows.supported (λ t rt e. cc)))

-- ===== src/Runtime.antt =====
-- pkg/engine/runtime/runtime.go: the requests and answers of a runtime, and the interface that the
-- engine calls. `Watch` is left out: only the watch operation calls it.
use kusion.Base.{String, Bool, false, Option, some, ◌≡◌}
use kusion.Control.{Outcome, ok}
use kusion.Status.{Status}
use kusion.Models.{Resource}

pub record Stack : Type 0 where
  pub name : String
  pub path : String

pub record ApplyRequest : Type 0 where
  pub prior_resource : Option Resource
  pub plan_resource : Option Resource
  pub stack : Stack
  pub dry_run : Bool

pub record ReadRequest : Type 0 where
  pub prior_resource : Option Resource
  pub plan_resource : Option Resource
  pub stack : Stack

-- The answers of `Apply`, `Read` and `Import`.
pub record Response : Type 0 where
  pub resource : Option Resource
  pub status : Option Status

-- Each method answers or panics, and changes the world. `Import` may answer nil.
pub record Runtime (W : Type 0) : Type 0 where
  pub apply : ApplyRequest → W → Outcome Response × W
  pub read : ReadRequest → W → Outcome Response × W
  pub import_resource : Option Resource → W → Outcome (Option Response) × W
  pub delete : Option Resource → Stack → W → Outcome (Option Status) × W

-- The resource of a response is under an id, if there is one.
abbrev pub IsUnder : String → Response → Type 0
IsUnder id response = (r : Resource) → response.resource ≡ some r → r.id ≡ id

-- What the engine relies on: what a runtime applies or imports for a planned resource is under its id.
pub record IsHonest {W : Type 0} (rt : Runtime W) : Type 0 where
  pub apply_own :
      (request : ApplyRequest) (w : W) (p r : Resource) (response : Response)
      → request.dry_run ≡ false
      → request.plan_resource ≡ some p
      → (rt.apply request w).0 ≡ ok response
      → response.resource ≡ some r
      → r.id ≡ p.id
  pub import_own :
      (p r : Resource) (w : W) (response : Response)
      → (rt.import_resource (some p) w).0 ≡ ok (some response)
      → response.resource ≡ some r
      → r.id ≡ p.id

-- ===== src/Kubernetes/Importing/Owned.antt =====
-- What `Import` answers is under the id of the plan.
use kusion.Base.{String, some, ◌≡◌, refl, Option, none, arith}
use kusion.Control.{Result, value, error, OnOk}
use kusion.Status.{is_err}
use kusion.Value.{Fields}
use kusion.Models.{Resource}
use kusion.Runtime.{Response, IsUnder}
use kusion.Cluster.{Cluster}
use kusion.Base.{if_both}
use kusion.Kubernetes.Reading.{read_resource}
use kusion.Kubernetes.Reading.Own.{read_resource-own}
use kusion.Kubernetes.Importing.{
  object_of, import_as, import_live, import_read, import_resource, cleaned,
}

-- the answer, if there is one, is under the id
abbrev pub IsImported : String → Option Response → Type 0
IsImported id none = Unit
IsImported id (some response) = IsUnder id response

module _ {W : Type 0} (c : Cluster W) (p : Resource) where
  import_as-own : (r : Resource) (o : Result Fields) → r.id ≡ p.id → IsUnder p.id (import_as c r o)
  unfolding import_as
  import_as-own r (error e) h = λ q f. cc
  import_as-own r (value fs) h = λ q f. ground arith

  import_live-own :
      (o : Option Resource)
      → ((r : Resource) → o ≡ some r → r.id ≡ p.id)
      → OnOk (IsImported p.id) (import_live c o)
  unfolding import_live
  import_live-own none h = tt
  import_live-own (some r) h = import_as-own r (cleaned c (object_of r.attributes)) (h r refl)

  import_read-own :
      (response : Response)
      → IsUnder p.id response
      → OnOk (IsImported p.id) (import_read c response)
  unfolding import_read
  import_read-own response h =
      if_both (OnOk (IsImported p.id)) (is_err response.status) _ _ (λ r e. cc)
        (import_live-own response.resource h)

  pub import_resource-own : (w : W) → OnOk (IsImported p.id) (import_resource c (some p) w).0
  unfolding import_resource
  import_resource-own w = import_read-own (read_resource c (some p) w).0 (read_resource-own c p w)

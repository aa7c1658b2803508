-- ===== src/Kubernetes/Applying/Owned.antt =====
-- What `Apply` answers is under the id of the plan.
use kusion.Base.{String, Bool, true, false, Option, none, some, ◌≡◌, if_both}
use kusion.Control.{Outcome, ok, failed, panicked, Result, value, error, OnOk}
use kusion.Status.{is_err}
use kusion.Value.{Fields}
use kusion.Models.{Resource}
use kusion.Runtime.{ApplyRequest, Response, IsUnder}
use kusion.Cluster.{Cluster, Reply, answered, rejected, Target}
use kusion.Kubernetes.Reading.{with_object, build_resource}
use kusion.Kubernetes.Applying.{
  Texts, finish, created, unmarshalled, merged, patched, acted, dry_create, dry_patch, real_create,
  real_patch, create_or_patch, with_patch, with_texts, apply_read, apply_built, apply_plan, apply,
  texts,
}

module _ {W : Type 0} (c : Cluster W) (plan : Resource) where
  finish-own : (fs : Fields) → IsUnder plan.id (finish c plan fs)
  unfolding finish with_object
  finish-own fs r e = cc

  created-own : (obj : Fields) (reply : Reply Fields) → IsUnder plan.id (created c plan obj reply)
  unfolding created
  created-own obj (answered fs) = finish-own fs
  created-own obj (rejected e) = finish-own obj

  unmarshalled-own : (o : Result Fields) → IsUnder plan.id (unmarshalled c plan o)
  unfolding unmarshalled
  unmarshalled-own (error e) = λ r h. cc
  unmarshalled-own (value fs) = finish-own fs

  merged-own : (o : Result String) → IsUnder plan.id (merged c plan o)
  unfolding merged
  merged-own (error e) = λ r h. cc
  merged-own (value text) = unmarshalled-own (c.unmarshal text)

  patched-own :
      (merge : Result String) (reply : Reply Fields) → IsUnder plan.id (patched c plan merge reply)
  unfolding patched
  patched-own merge (answered fs) = finish-own fs
  patched-own merge (rejected e) = merged-own merge

  acted-own : (obj : Fields) (reply : Reply Fields) → IsUnder plan.id (acted c plan obj reply)
  unfolding acted
  acted-own obj (answered fs) = finish-own obj
  acted-own obj (rejected e) = λ r h. cc

  module _ (obj : Fields) (target : Target) where
    create_or_patch-own :
        (dry_run : Bool) (live : Option Resource) (current body : String) (w : W)
        → IsUnder plan.id (create_or_patch c plan obj target dry_run live current body w).0
    unfolding create_or_patch dry_create dry_patch real_create real_patch
    create_or_patch-own true none current body w = created-own obj _
    create_or_patch-own true (some live) current body w = patched-own _ _
    create_or_patch-own false none current body w = acted-own obj _
    create_or_patch-own false (some live) current body w = acted-own obj _

    with_patch-own :
        (dry_run : Bool) (live : Option Resource) (current : String) (body : Result String) (w : W)
        → IsUnder plan.id (with_patch c plan obj target dry_run live current body w).0
    unfolding with_patch
    with_patch-own dry_run live current (error e) w = λ r h. cc
    with_patch-own dry_run live current (value body) w =
        create_or_patch-own dry_run live current body w

    with_texts-own :
        (dry_run : Bool) (live : Option Resource) (t : Outcome Texts) (w : W)
        → OnOk (IsUnder plan.id) (with_texts c plan obj target dry_run live t w).0
    unfolding with_texts
    with_texts-own dry_run live (failed s) w = tt
    with_texts-own dry_run live (panicked p) w = tt
    with_texts-own dry_run live (ok (original, modified, current)) w =
        with_patch-own dry_run live current _ w

    apply_read-own :
        (dry_run : Bool) (prior : Option Resource) (response : Response) (w : W)
        → OnOk (IsUnder plan.id) (apply_read c dry_run prior plan obj target response w).0
    unfolding apply_read
    apply_read-own dry_run prior response w =
        if_both (λ (q : Outcome Response × W). OnOk (IsUnder plan.id) q.0) (is_err response.status)
          _ _ (λ r h. cc)
          (with_texts-own dry_run response.resource (texts c prior plan response.resource) w)

  apply_built-own :
      (dry_run : Bool) (prior : Option Resource) (built : Reply (Fields × Target) × W)
      → OnOk (IsUnder plan.id) (apply_built c dry_run prior plan built).0
  unfolding apply_built
  apply_built-own dry_run prior (rejected e, w) = λ r h. cc
  apply_built-own dry_run prior (answered (obj, target), w) =
      apply_read-own obj target dry_run prior _ _

  pub apply-own :
      (request : ApplyRequest) (w : W)
      → request.plan_resource ≡ some plan
      → OnOk (IsUnder plan.id) (apply c request w).0
  unfolding apply apply_plan
  apply-own request w e =
      rw e (apply_built-own request.dry_run request.prior_resource (build_resource c plan w))

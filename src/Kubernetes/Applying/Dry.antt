-- ===== src/Kubernetes/Applying/Dry.antt =====
-- A dry run of `Apply` only queries the cluster and asks it for dry runs.
use kusion.Base.{String, true, Option, none, some, ◌≡◌, refl, if_both}
use kusion.Control.{Outcome, ok, failed, panicked, Result, value, error}
use kusion.Status.{is_err}
use kusion.Value.{Fields}
use kusion.Models.{Resource}
use kusion.Runtime.{ApplyRequest, Response}
use kusion.Cluster.{Cluster, Reply, answered, rejected, Target, SurvivesQueries}
use kusion.Kubernetes.Reading.{build_resource}
use kusion.Kubernetes.Reading.Queries.{build_resource-Q, read_resource-Q}
use kusion.Kubernetes.Applying.{
  Texts, dry_create, dry_patch, create_or_patch, with_patch, with_texts, apply_read, apply_built,
  apply_plan, apply, texts,
}

module _ {W : Type 0} (Q : W → Type 0) (c : Cluster W) (survives : SurvivesQueries Q c) where
  module _ (plan : Resource) (obj : Fields) (target : Target) where
    create_or_patch-Q :
        (live : Option Resource) (current body : String) (w : W)
        → Q w
        → Q (create_or_patch c plan obj target true live current body w).1
    unfolding create_or_patch dry_create dry_patch
    create_or_patch-Q none current body w h = survives.created target obj _ w refl h
    create_or_patch-Q (some live) current body w h =
        survives.patched target (c.name obj) body _ w refl h

    with_patch-Q :
        (live : Option Resource) (current : String) (body : Result String) (w : W)
        → Q w
        → Q (with_patch c plan obj target true live current body w).1
    unfolding with_patch
    with_patch-Q live current (error e) w h = h
    with_patch-Q live current (value body) w h = create_or_patch-Q live current body w h

    with_texts-Q :
        (live : Option Resource) (t : Outcome Texts) (w : W)
        → Q w
        → Q (with_texts c plan obj target true live t w).1
    unfolding with_texts
    with_texts-Q live (failed s) w h = h
    with_texts-Q live (panicked p) w h = h
    with_texts-Q live (ok (original, modified, current)) w h = with_patch-Q live current _ w h

    apply_read-Q :
        (prior : Option Resource) (response : Response) (w : W)
        → Q w
        → Q (apply_read c true prior plan obj target response w).1
    unfolding apply_read
    apply_read-Q prior response w h =
        if_both (λ (q : Outcome Response × W). Q q.1) (is_err response.status) _ _ h
          (with_texts-Q response.resource (texts c prior plan response.resource) w h)

  apply_built-Q :
      (prior : Option Resource) (plan : Resource) (built : Reply (Fields × Target) × W)
      → Q built.1
      → Q (apply_built c true prior plan built).1
  unfolding apply_built
  apply_built-Q prior plan (rejected e, w) h = h
  apply_built-Q prior plan (answered (obj, target), w) h =
      apply_read-Q plan obj target prior _ _ (read_resource-Q Q c survives (some plan) w h)

  apply_plan-Q : (prior plan : Option Resource) (w : W) → Q w → Q (apply_plan c true prior plan w).1
  unfolding apply_plan
  apply_plan-Q prior none w h = h
  apply_plan-Q prior (some plan) w h =
      apply_built-Q prior plan (build_resource c plan w) (build_resource-Q Q c survives plan w h)

  pub apply-Q :
      (request : ApplyRequest) (w : W) → request.dry_run ≡ true → Q w → Q (apply c request w).1
  unfolding apply
  apply-Q request w dry h = rw dry (apply_plan-Q request.prior_resource request.plan_resource w h)

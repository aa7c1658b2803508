-- ===== src/Kubernetes/Applying.antt =====
-- `Apply` of pkg/engine/runtime/kubernetes/kubernetes_runtime.go: the three-way patch, dry or not. The
-- merge patch has the type `application/merge-patch+json` throughout.
pub mod Owned
pub mod Dry
use kusion.Base.{String, Bool, true, false, Option, none, some, List, [], ◌∷◌, ◌==◌, if◌then◌else◌}
use kusion.Status.{Status, is_err, new_error_status, new_error_status_with_code, illegal_manifest}
use kusion.Control.{
  Outcome, ok, failed, panicked, Result, value, error, ◌>>=◌, ◌>>?◌, nil_dereference,
}
use kusion.Value.{Fields, end}
use kusion.Models.{Resource, resource_key}
use kusion.JsonUtil.{must_marshal_to_string}
use kusion.Runtime.{Runtime, ReadRequest, ApplyRequest, Response, Stack}
use kusion.Cluster.{
  Cluster, Call, Reply, answered, rejected, of_result, continue_with, ClientError, not_found,
  no_match, other, error_text, Gvk, RestMapping, Target, Service, PatchOptions, dry_run_all,
}
use kusion.Kubernetes.Reading.{
  answer_with, no_answer, fails, with_object, build_resource, read_resource, read,
}

-- the texts of the original, the modified and the current attributes
abbrev Texts : Type 0
Texts = String × String × String

module _ {W : Type 0} (c : Cluster W) where
  finish : Resource → Fields → Response
  unfolding with_object
  finish plan fs = answer_with (some (with_object plan fs)) none

  -- What a server refuses in a dry run is planned by the client.
  created : Resource → Fields → Reply Fields → Response
  unfolding finish
  created plan obj (answered fs) = finish plan fs
  created plan obj (rejected e) = finish plan obj

  unmarshalled : Resource → Result Fields → Response
  unfolding finish
  unmarshalled plan (error e) = fails e
  unmarshalled plan (value fs) = finish plan fs

  merged : Resource → Result String → Response
  unfolding unmarshalled
  merged plan (error e) = fails e
  merged plan (value text) = unmarshalled plan (c.unmarshal text)

  patched : Resource → Result String → Reply Fields → Response
  unfolding finish merged
  patched plan merge (answered fs) = finish plan fs
  patched plan merge (rejected e) = merged plan merge

  -- What is saved is the planned object, not the one that the server made of it.
  acted : Resource → Fields → Reply Fields → Response
  unfolding finish
  acted plan obj (answered fs) = finish plan obj
  acted plan obj (rejected e) = fails (error_text e)

  module _ (plan : Resource) (obj : Fields) (target : Target) where
    dry_create : W → Response × W
    unfolding created
    dry_create w =
        let (reply, w') = c.create target obj (record { dry_run = dry_run_all }) w in
        (created plan obj reply, w')

    dry_patch : String → String → W → Response × W
    unfolding patched
    dry_patch current body w =
        let options : PatchOptions = record { dry_run = dry_run_all; field_manager = "" } in
        let (reply, w') = c.patch target (c.name obj) body options w in
        (patched plan (c.merge_patch current body) reply, w')

    real_create : W → Response × W
    unfolding acted
    real_create w =
        let (reply, w') = c.create target obj (record { dry_run = [] }) w in
        (acted plan obj reply, w')

    real_patch : String → W → Response × W
    unfolding acted
    real_patch body w =
        let options : PatchOptions = record { dry_run = []; field_manager = "kusion" } in
        let (reply, w') = c.patch target (c.name obj) body options w in (acted plan obj reply, w')

    create_or_patch : Bool → Option Resource → String → String → W → Response × W
    unfolding dry_create dry_patch real_create real_patch
    create_or_patch true none current body w = dry_create w
    create_or_patch true (some live) current body w = dry_patch current body w
    create_or_patch false none current body w = real_create w
    create_or_patch false (some live) current body w = real_patch body w

    with_patch : Bool → Option Resource → String → Result String → W → Response × W
    unfolding create_or_patch
    with_patch dry_run live current (error e) w = (fails e, w)
    with_patch dry_run live current (value body) w = create_or_patch dry_run live current body w

    with_texts : Bool → Option Resource → Outcome Texts → W → Outcome Response × W
    unfolding with_patch
    with_texts dry_run live (failed s) w = (failed s, w)
    with_texts dry_run live (panicked p) w = (panicked p, w)
    with_texts dry_run live (ok (original, modified, current)) w =
        let (response, w') =
          with_patch dry_run live current (c.three_way_patch original modified current) w in
        (ok response, w')

  text_of : Option Resource → Outcome String
  unfolding must_marshal_to_string
  text_of none = ok ""
  text_of (some r) = must_marshal_to_string (c.marshal r.attributes)

  texts : Option Resource → Resource → Option Resource → Outcome Texts
  unfolding text_of
  texts prior plan live = do
    original ← text_of prior
    modified ← text_of (some plan)
    current ← text_of live
    ok (original, modified, current)

  apply_read :
      Bool → Option Resource → Resource → Fields → Target → Response → W → Outcome Response × W
  unfolding texts with_texts is_err
  apply_read dry_run prior plan obj target response w =
      if is_err response.status
      then (ok (answer_with none response.status), w)
      else with_texts plan obj target dry_run response.resource (texts prior plan response.resource)
          w

  -- the live state is read by the plan alone
  apply_built :
      Bool → Option Resource → Resource → Reply (Fields × Target) × W → Outcome Response × W
  unfolding read_resource apply_read
  apply_built dry_run prior plan (rejected e, w) = (ok (fails (error_text e)), w)
  apply_built dry_run prior plan (answered (obj, target), w) =
      let (response, w') = read_resource c (some plan) w in
      apply_read dry_run prior plan obj target response w'

  apply_plan : Bool → Option Resource → Option Resource → W → Outcome Response × W
  unfolding apply_built build_resource
  apply_plan dry_run prior none w = (ok (fails "plan state is nil"), w)
  apply_plan dry_run prior (some plan) w = apply_built dry_run prior plan (build_resource c plan w)

  unfoldable pub apply : ApplyRequest → W → Outcome Response × W
  unfolding apply_plan
  apply request w = apply_plan request.dry_run request.prior_resource request.plan_resource w

-- ===== src/Kubernetes/Reading.antt =====
-- The part of pkg/engine/runtime/kubernetes/kubernetes_runtime.go that finds and reads an object.
pub mod Own
pub mod Queries
use kusion.Base.{String, Bool, true, false, Option, none, some, List, [], ◌∷◌, ◌==◌, if◌then◌else◌}
use kusion.Status.{Status, is_err, new_error_status, new_error_status_with_code, illegal_manifest}
use kusion.Control.{
  Outcome, ok, failed, panicked, Result, value, error, ◌>>=◌, ◌>>?◌, nil_dereference,
}
use kusion.Value.{Fields, end}
use kusion.Models.{Resource, resource_key}
use kusion.JsonUtil.{must_marshal_to_string}
use kusion.Runtime.{Runtime, ReadRequest, ApplyRequest, Response, Stack}
use kusion.Cluster.{
  Cluster, Call, Reply, answered, rejected, of_result, continue_with, ClientError, not_found,
  no_match, other, error_text, Gvk, RestMapping, Target, Service, PatchOptions, dry_run_all,
}

abbrev pub answer_with : Option Resource → Option Status → Response
answer_with r s = record { resource = r; status = s }

abbrev pub no_answer : Response
no_answer = answer_with none none

abbrev pub fails : String → Response
fails e = answer_with none (some (new_error_status e))

-- `&models.Resource{ID: r.ResourceKey(), …}` with the attributes of an object
unfoldable pub with_object : Resource → Fields → Resource
with_object r fs = record {
  id = resource_key r;
  type = r.type;
  attributes = some fs;
  depends_on = r.depends_on;
  extensions = r.extensions;
}

module _ {W : Type 0} (c : Cluster W) where
  target_of : String → RestMapping → Target
  target_of ns m = record {
    resource = m.resource;
    namespace = if m.namespaced then some ns else none;
  }

  on_target : String → RestMapping → Call W Target
  unfolding target_of
  on_target ns m w = (answered (target_of ns m), w)

  build_dynamic_resource : Gvk → String → Call W Target
  unfolding on_target
  build_dynamic_resource gvk ns w = continue_with (c.rest_mapping gvk w) (on_target ns)

  convert_string : String → Result (Fields × Gvk)
  convert_string yaml = c.decode yaml

  decoded : Result String → Result (Fields × Gvk)
  unfolding convert_string
  decoded (error e) = error e
  decoded (value yaml) = convert_string yaml

  with_target : Fields → Target → Call W (Fields × Target)
  with_target obj target w = (answered (obj, target), w)

  build_from : Fields × Gvk → Call W (Fields × Target)
  unfolding build_dynamic_resource with_target
  build_from (obj, gvk) w =
      continue_with (build_dynamic_resource gvk (c.namespace obj) w) (with_target obj)

  unfoldable pub build_resource : Resource → Call W (Fields × Target)
  unfolding decoded build_from
  build_resource r w = continue_with (of_result (decoded (c.to_yaml r.attributes)), w) build_from

  read_object : Resource → Reply Fields → Response
  read_object r (answered fs) = answer_with (some (with_object r fs)) none
  read_object r (rejected (not_found msg)) = no_answer
  read_object r (rejected e) = fails (error_text e)

  read_built : Resource → Reply (Fields × Target) × W → Response × W
  unfolding read_object
  read_built r (rejected (no_match msg), w) = (no_answer, w)
  read_built r (rejected e, w) = (fails (error_text e), w)
  read_built r (answered (obj, target), w) =
      let (reply, w') = c.get target (c.name obj) w in (read_object r reply, w')

  unfoldable pub read_resource : Option Resource → W → Response × W
  unfolding read_built build_resource
  read_resource none w = (fails "can not read k8s resource with empty body", w)
  read_resource (some r) w = read_built r (build_resource r w)

  -- the planned resource, or the prior one
  either : Option Resource → Option Resource → Option Resource
  either none prior = prior
  either (some r) prior = some r

  unfoldable pub read : ReadRequest → W → Response × W
  unfolding either read_resource
  read request w = read_resource (either request.plan_resource request.prior_resource) w

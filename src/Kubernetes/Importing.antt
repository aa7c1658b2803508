-- ===== src/Kubernetes/Importing.antt =====
-- `Import` of pkg/engine/runtime/kubernetes/kubernetes_runtime.go: a live object is cleaned of what the
-- server adds.
pub mod Owned
use kusion.Base.{String, Bool, true, false, Option, none, some, List, [], ◌∷◌, ◌==◌, if◌then◌else◌}
use kusion.Status.{Status, is_err, new_error_status, new_error_status_with_code, illegal_manifest}
use kusion.Control.{
  Outcome, ok, failed, panicked, Result, value, error, ◌>>=◌, ◌>>?◌, nil_dereference,
}
use kusion.Value.{Fields, end}
use kusion.Models.{Resource, resource_key}
use kusion.JsonUtil.{must_marshal_to_string}
use kusion.Runtime.{Runtime, ReadRequest, ApplyRequest, Response, Stack}
use kusion.Cluster.{
  Cluster, Call, Reply, answered, rejected, of_result, continue_with, ClientError, not_found,
  no_match, other, error_text, Gvk, RestMapping, Target, Service, PatchOptions, dry_run_all,
}
use kusion.Kubernetes.Reading.{
  answer_with, no_answer, fails, with_object, build_resource, read_resource, read,
}

-- a nil map reads like an empty one
abbrev object_of : Option Fields → Fields
object_of none = end
object_of (some fs) = fs

module _ {W : Type 0} (c : Cluster W) where
  unfoldable pub normalize_server_side_fields : Fields → Fields
  normalize_server_side_fields fs = c.remove_nested ("metadata" ∷ "managedFields" ∷ []) (
      c.remove_nested ("metadata" ∷ "generation" ∷ []) (
        c.remove_nested ("metadata" ∷ "uid" ∷ []) (
          c.remove_nested ("metadata" ∷ "selfLink" ∷ []) (
            c.remove_nested ("metadata" ∷ "creationTimestamp" ∷ []) (
              c.remove_nested ("metadata" ∷ "resourceVersion" ∷ [])
                (c.remove_nested ("status" ∷ []) fs))))))

  reset_addresses : Service → Service
  reset_addresses s = record s { cluster_ip = ""; cluster_ips = [] }

  -- Resetting an empty field changes nothing, so the tests of the lengths are left out.
  normalize_service : Fields → Result Fields
  unfolding reset_addresses
  normalize_service fs = c.from_service fs >>? λ s. c.to_service (reset_addresses s)

  illegal : String → Response
  illegal e = answer_with none (some (new_error_status_with_code illegal_manifest e))

  import_as : Resource → Result Fields → Response
  unfolding illegal
  import_as r (error e) = illegal e
  import_as r (value fs) = answer_with (some (record r { attributes = some fs })) none

  normalized : Fields → Result Fields
  unfolding normalize_service normalize_server_side_fields
  normalized fs = (if c.kind fs == "Service" then normalize_service fs else value fs) >>? λ gs.
      value (normalize_server_side_fields gs)

  cleaned : Fields → Result Fields
  unfolding normalized
  cleaned fs = if c.last_applied fs == "" then normalized fs else c.unmarshal (c.last_applied fs)

  import_live : Option Resource → Outcome (Option Response)
  unfolding cleaned import_as
  import_live none = panicked nil_dereference
  import_live (some r) = ok (some (import_as r (cleaned (object_of r.attributes))))

  import_read : Response → Outcome (Option Response)
  unfolding import_live is_err
  import_read response =
      if is_err response.status
      then ok (some (answer_with none response.status))
      else import_live response.resource

  unfoldable pub import_resource : Option Resource → W → Outcome (Option Response) × W
  unfolding import_read read_resource
  import_resource planned w =
      let (response, w') = read_resource c planned w in (import_read response, w')

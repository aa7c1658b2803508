-- ===== src/Kubernetes.antt =====
-- pkg/engine/runtime/kubernetes/kubernetes_runtime.go: the runtime of Kubernetes resources.
pub mod Reading
pub mod Applying
pub mod Importing
pub mod Lawful
pub mod Kinds
pub mod Watching
use kusion.Base.{String, Bool, true, false, Option, none, some, List, [], ◌∷◌, ◌==◌, if◌then◌else◌}
use kusion.Status.{Status, is_err, new_error_status, new_error_status_with_code, illegal_manifest}
use kusion.Control.{
  Outcome, ok, failed, panicked, Result, value, error, ◌>>=◌, ◌>>?◌, nil_dereference,
}
use kusion.Value.{Fields, end}
use kusion.Models.{Resource, resource_key}
use kusion.JsonUtil.{must_marshal_to_string}
use kusion.Runtime.{Runtime, ReadRequest, ApplyRequest, Response, Stack}
use kusion.Cluster.{
  Cluster, Call, Reply, answered, rejected, of_result, continue_with, ClientError, not_found,
  no_match, other, error_text, Gvk, RestMapping, Target, Service, PatchOptions, dry_run_all,
}
use kusion.Kubernetes.Reading.{
  answer_with, no_answer, fails, with_object, build_resource, read_resource, read,
}
use kusion.Kubernetes.Applying.{apply}
use kusion.Kubernetes.Importing.{import_resource}

module _ {W : Type 0} (c : Cluster W) where
  deleted : Option ClientError → Option Status
  deleted none = none
  deleted (some (not_found msg)) = none
  deleted (some e) = some (new_error_status (error_text e))

  delete_built : Reply (Fields × Target) × W → Option Status × W
  unfolding deleted
  delete_built (rejected e, w) = (some (new_error_status (error_text e)), w)
  delete_built (answered (obj, target), w) =
      let (e, w') = c.delete target (c.name obj) w in (deleted e, w')

  unfoldable pub delete : Option Resource → W → Option Status × W
  unfolding delete_built build_resource
  delete none w = (some (new_error_status "requestResource is nil"), w)
  delete (some r) w = delete_built (build_resource c r w)

  unfoldable pub kubernetes_runtime : Runtime W
  unfolding read apply import_resource delete
  kubernetes_runtime = record {
    apply = apply c;
    read = λ request w. let (response, w') = read c request w in (ok response, w');
    import_resource = import_resource c;
    delete = λ r stack w. let (s, w') = delete r w in (ok s, w');
  }

-- ===== src/Kubernetes/Reading/Queries.antt =====
-- Reading an object only queries the cluster.
use kusion.Base.{String, Option, none, some}
use kusion.Value.{Fields}
use kusion.Models.{Resource}
use kusion.Runtime.{ReadRequest}
use kusion.Cluster.{
  Cluster, Reply, answered, rejected, not_found, no_match, other, of_result, Gvk, Target,
  SurvivesQueries, continue_with-keeps,
}
use kusion.Kubernetes.Reading.{
  on_target, build_dynamic_resource, decoded, with_target, build_from, build_resource, read_built,
  read_resource, read,
}

module _ {W : Type 0} (Q : W → Type 0) (c : Cluster W) (survives : SurvivesQueries Q c) where
  build_dynamic_resource-Q :
      (gvk : Gvk) (ns : String) (w : W) → Q w → Q (build_dynamic_resource c gvk ns w).1
  unfolding build_dynamic_resource on_target
  build_dynamic_resource-Q gvk ns w h =
      continue_with-keeps Q (c.rest_mapping gvk w) (on_target c ns) (survives.mapped gvk w h)
        (λ m w' h'. h')

  build_from-Q : (built : Fields × Gvk) (w : W) → Q w → Q (build_from c built w).1
  unfolding build_from with_target
  build_from-Q (obj, gvk) w h =
      continue_with-keeps Q (build_dynamic_resource c gvk (c.namespace obj) w) (with_target c obj)
        (build_dynamic_resource-Q gvk (c.namespace obj) w h) (λ target w' h'. h')

  pub build_resource-Q : (r : Resource) (w : W) → Q w → Q (build_resource c r w).1
  unfolding build_resource
  build_resource-Q r w h =
      continue_with-keeps Q (of_result (decoded c (c.to_yaml r.attributes)), w) (build_from c) h
        build_from-Q

  read_built-Q :
      (r : Resource) (built : Reply (Fields × Target) × W) → Q built.1 → Q (read_built c r built).1
  unfolding read_built
  read_built-Q r (rejected (no_match msg), w) h = h
  read_built-Q r (rejected (not_found msg), w) h = h
  read_built-Q r (rejected (other msg), w) h = h
  read_built-Q r (answered (obj, target), w) h = survives.got target (c.name obj) w h

  pub read_resource-Q : (r : Option Resource) (w : W) → Q w → Q (read_resource c r w).1
  unfolding read_resource
  read_resource-Q none w h = h
  read_resource-Q (some r) w h = read_built-Q r (build_resource c r w) (build_resource-Q r w h)

  pub read-Q : (request : ReadRequest) (w : W) → Q w → Q (read c request w).1
  unfolding read
  read-Q request w h = read_resource-Q _ w h

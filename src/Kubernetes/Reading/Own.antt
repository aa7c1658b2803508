-- ===== src/Kubernetes/Reading/Own.antt =====
-- What a read answers is under the id of the resource that is read.
use kusion.Base.{some}
use kusion.Value.{Fields}
use kusion.Models.{Resource}
use kusion.Runtime.{IsUnder}
use kusion.Cluster.{Cluster, Reply, answered, rejected, not_found, no_match, other, Target}
use kusion.Kubernetes.Reading.{with_object, read_object, read_built, build_resource, read_resource}

module _ {W : Type 0} (c : Cluster W) (p : Resource) where
  read_object-own : (reply : Reply Fields) → IsUnder p.id (read_object c p reply)
  unfolding read_object with_object
  read_object-own (answered fs) = λ r e. cc
  read_object-own (rejected (not_found msg)) = λ r e. cc
  read_object-own (rejected (no_match msg)) = λ r e. cc
  read_object-own (rejected (other msg)) = λ r e. cc

  read_built-own : (built : Reply (Fields × Target) × W) → IsUnder p.id (read_built c p built).0
  unfolding read_built
  read_built-own (rejected (no_match msg), w) = λ r e. cc
  read_built-own (rejected (not_found msg), w) = λ r e. cc
  read_built-own (rejected (other msg), w) = λ r e. cc
  read_built-own (answered (obj, target), w) = read_object-own _

  pub read_resource-own : (w : W) → IsUnder p.id (read_resource c (some p) w).0
  unfolding read_resource
  read_resource-own w = read_built-own (build_resource c p w)

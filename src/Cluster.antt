-- ===== src/Cluster.antt =====
-- The Kubernetes client and the JSON and YAML libraries, as the Kubernetes runtime calls them
-- (client-go, apimachinery, json-patch): a parameter of pkg/engine/runtime/kubernetes.
use kusion.Base.{String, Bool, Option, List, [], ◌∷◌, ◌≡◌}
use kusion.Control.{Result, value, error}
use kusion.Value.{Fields}

-- `IsNotFound` and `IsNoMatchError` tell two kinds of errors from the others.
pub data ClientError : Type 0 where
  not_found no_match other : String → ClientError

abbrev pub error_text : ClientError → String
error_text (not_found msg) = msg
error_text (no_match msg) = msg
error_text (other msg) = msg

pub data Reply {ℓ} (A : Type ℓ) : Type ℓ where
  answered : A → Reply A
  rejected : ClientError → Reply A

abbrev pub of_result {ℓ} : {A : Type ℓ} → Result A → Reply A
of_result (value a) = answered a
of_result (error e) = rejected (other e)

-- A call of the cluster answers, and may change it.
abbrev pub Call : Type 0 → Type 0 → Type 0
Call W A = W → Reply A × W

module _ {W A B : Type 0} where
  abbrev pub continue_with : Reply A × W → (A → Call W B) → Reply B × W
  continue_with (answered a, w) f = f a w
  continue_with (rejected e, w) f = (rejected e, w)

pub record Gvk : Type 0 where
  pub group : String
  pub version : String
  pub kind : String

pub record RestMapping : Type 0 where
  pub resource : String
  pub namespaced : Bool

-- `dynamic.ResourceInterface`: a kind of resource, in a namespace or cluster-wide
pub record Target : Type 0 where
  pub resource : String
  pub namespace : Option String

pub record CreateOptions : Type 0 where
  pub dry_run : List String

pub record PatchOptions : Type 0 where
  pub dry_run : List String
  pub field_manager : String

-- `metav1.DryRunAll`
abbrev pub dry_run_all : List String
dry_run_all = "All" ∷ []

-- a `corev1.Service`: the fields that the runtime resets, and the others
pub record Service : Type 0 where
  pub cluster_ip : String
  pub cluster_ips : List String
  pub others : Fields

-- An object is the content of an `unstructured.Unstructured`.
pub record Cluster (W : Type 0) : Type 0 where
  pub to_yaml : Option Fields → Result String
  pub decode : String → Result (Fields × Gvk)
  pub marshal : Option Fields → Result String
  pub unmarshal : String → Result Fields
  pub three_way_patch : String → String → String → Result String
  pub merge_patch : String → String → Result String
  pub name : Fields → String
  pub namespace : Fields → String
  pub kind : Fields → String
  pub api_version : Fields → String
  pub gvk_of : Fields → Gvk
  pub last_applied : Fields → String
  pub remove_nested : List String → Fields → Fields
  pub from_service : Fields → Result Service
  pub to_service : Service → Result Fields
  pub rest_mapping : Gvk → Call W RestMapping
  pub get : Target → String → Call W Fields
  pub create : Target → Fields → CreateOptions → Call W Fields
  pub patch : Target → String → String → PatchOptions → Call W Fields
  pub delete : Target → String → W → Option ClientError × W

-- `Q` holds of the world after a query of the cluster and after a dry run of all stages.
pub record SurvivesQueries {W : Type 0} (Q : W → Type 0) (c : Cluster W) : Type 0 where
  pub mapped : (g : Gvk) (w : W) → Q w → Q (c.rest_mapping g w).1
  pub got : (t : Target) (name : String) (w : W) → Q w → Q (c.get t name w).1
  pub created :
      (t : Target) (obj : Fields) (options : CreateOptions) (w : W)
      → options.dry_run ≡ dry_run_all
      → Q w
      → Q (c.create t obj options w).1
  pub patched :
      (t : Target) (name body : String) (options : PatchOptions) (w : W)
      → options.dry_run ≡ dry_run_all
      → Q w
      → Q (c.patch t name body options w).1

pub continue_with-keeps :
    {W A B : Type 0} (Q : W → Type 0) (r : Reply A × W) (f : A → Call W B)
    → Q r.1
    → ((a : A) (w : W) → Q w → Q (f a w).1)
    → Q (continue_with r f).1
continue_with-keeps Q (answered a, w) f h k = k a w h
continue_with-keeps Q (rejected e, w) f h k = h

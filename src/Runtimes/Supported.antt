-- ===== src/Runtimes/Supported.antt =====
-- pkg/engine/runtime/init/init.go: the table of the supported runtimes, which are what the engine relies
-- on. Connecting to a cluster, by the client library, is a parameter.
use mathlib.Core.Path.{subst}
use kusion.Base.{
  String, Bool, true, false, none, some, [], ◌∷◌, ◌==◌, ◌≡◌, refl, ap, ◌∙◌, if◌then◌else◌,
}
use kusion.Base.GoMap.{GoMap, get}
use kusion.Control.{Result, value, error}
use kusion.Runtime.{Runtime, IsHonest}
use kusion.Runtimes.{InitFn}
use kusion.Cluster.{Cluster, SurvivesQueries}
use kusion.Machine.{Machine, SurvivesLocal}
use kusion.Kubernetes.{kubernetes_runtime}
use kusion.Kubernetes.Lawful.{kubernetes-IsHonest, kubernetes-SurvivesDryRun}
use kusion.Terraform.{terraform_runtime}
use kusion.Terraform.Lawful.{terraform-IsHonest, terraform-SurvivesDryRun}
use kusion.Node.Previewing.{SurvivesDryRun}
use kusion.Operation.{Operation, Request, init_states}
use kusion.Operations.{Setup, preview}
use kusion.Operations.Dry.{OnlyCalls, SurvivesPreview, preview-is_dry}
use kusion.Node.Previewing.{IsPreview}

module _ {W : Type 0} (connect : W → Result (Cluster W)) (m : Machine W) where
  connected : Result (Cluster W) → Result (Runtime W)
  connected (error e) = error e
  connected (value c) = value (kubernetes_runtime c)

  unfoldable pub new_kubernetes_runtime : InitFn W
  unfolding connected
  new_kubernetes_runtime w = connected (connect w)

  unfoldable pub new_terraform_runtime : InitFn W
  new_terraform_runtime w = value (terraform_runtime m)

  -- `SupportRuntimes`
  unfoldable pub support_runtimes : GoMap (InitFn W)
  support_runtimes =
      ("Kubernetes", new_kubernetes_runtime) ∷ ("Terraform", new_terraform_runtime) ∷ []

  -- What holds of both runtimes holds of every one that the table starts.
  module _ (P : Runtime W → Type 0) where
    connected-P :
        (r : Result (Cluster W)) (rt : Runtime W)
        → ((c : Cluster W) → r ≡ value c → P (kubernetes_runtime c))
        → connected r ≡ value rt
        → P rt
    unfolding connected
    connected-P (error e) rt h f = cc
    connected-P (value c) rt h f =
        let same : kubernetes_runtime c ≡ rt = cc in subst P same (h c refl)

    starts-P :
        (init init' : InitFn W) (w : W) (rt : Runtime W)
        → ((rt' : Runtime W) → init w ≡ value rt' → P rt')
        → init ≡ init'
        → init' w ≡ value rt
        → P rt
    starts-P init init' w rt h e f = h rt (ap (λ g. g w) e ∙ f)

    found-P :
        (b d : Bool) (init : InitFn W) (w : W) (rt : Runtime W)
        → ((rt' : Runtime W) → new_kubernetes_runtime w ≡ value rt' → P rt')
        → ((rt' : Runtime W) → new_terraform_runtime w ≡ value rt' → P rt')
        → (if b
            then some new_kubernetes_runtime
            else if d
            then some new_terraform_runtime
            else none)
          ≡ some init
        → init w ≡ value rt
        → P rt
    found-P true d init w rt k t e f = starts-P new_kubernetes_runtime init w rt k (cc) f
    found-P false true init w rt k t e f = starts-P new_terraform_runtime init w rt t (cc) f
    found-P false false init w rt k t e f = cc

    started-P :
        (t : String) (init : InitFn W) (w : W) (rt : Runtime W)
        → ((c : Cluster W) → connect w ≡ value c → P (kubernetes_runtime c))
        → P (terraform_runtime m)
        → get t support_runtimes ≡ some init
        → init w ≡ value rt
        → P rt
    unfolding support_runtimes get new_kubernetes_runtime new_terraform_runtime
    started-P t init w rt k h e f =
        found-P ("Kubernetes" == t) ("Terraform" == t) init w rt
          (λ rt' g. connected-P (connect w) rt' k g)
          (λ rt' g. let same : terraform_runtime m ≡ rt' = cc in subst P same h) e f

  -- Every runtime that the table starts answers, for what it applies or imports, under the id of the plan,
  -- which is what the engine relies on when it saves a node's resource under its key.
  pub started-IsHonest :
      (t : String) (init : InitFn W) (w : W) (rt : Runtime W)
      → get t support_runtimes ≡ some init
      → init w ≡ value rt
      → IsHonest rt
  started-IsHonest t init w rt =
      started-P IsHonest t init w rt (λ c e. kubernetes-IsHonest c) (terraform-IsHonest m)

  pub supported-SurvivesPreview :
      {G : Type 0} (Q : W → Type 0) (setup : Setup W G)
      → setup.support ≡ support_runtimes
      → ((q : Request) (v : W) → Q v → Q (init_states setup.storage setup.copy setup.release q v).1)
      → ((v : W) (c : Cluster W) → connect v ≡ value c → SurvivesQueries Q c)
      → SurvivesLocal Q m
      → SurvivesPreview Q setup
  supported-SurvivesPreview Q setup table latest queries local = record {
    latest = latest;
    started = λ t init v rt e f.
        started-P (SurvivesDryRun Q) t init v rt
          (λ c k. kubernetes-SurvivesDryRun c Q (queries v c k))
          (terraform-SurvivesDryRun Q m local) (rw table at e) f;
  }

  -- A preview with the supported runtimes keeps what is true of the world and is kept by reading the
  -- latest state, by queries and dry runs of any cluster that is connected to, and by work on local
  -- files and commands of Terraform that are queries: it makes no other call of a cluster and runs no
  -- other command of Terraform, whatever it returns.
  pub preview-only_queries :
      {G : Type 0} (Q : W → Type 0) (setup : Setup W G) (request : Request) (o : Operation) (w : W)
      → setup.support ≡ support_runtimes
      → OnlyCalls setup
      → ((q : Request) (v : W) → Q v → Q (init_states setup.storage setup.copy setup.release q v).1)
      → ((v : W) (c : Cluster W) → connect v ≡ value c → SurvivesQueries Q c)
      → SurvivesLocal Q m
      → IsPreview o.operation_type
      → Q w
      → Q (preview setup request o w).1
  preview-only_queries Q setup request o w table calls latest queries local =
      preview-is_dry Q setup request o w calls
        (supported-SurvivesPreview Q setup table latest queries local)

-- ===== src/Kubernetes/Lawful.antt =====
-- The Kubernetes runtime keeps what the engine relies on.
use kusion.Base.{some}
use kusion.Control.{OnOk-ok}
use kusion.Runtime.{IsHonest, IsUnder}
use kusion.Node.Previewing.{SurvivesDryRun}
use kusion.Cluster.{Cluster, SurvivesQueries}
use kusion.Kubernetes.{kubernetes_runtime}
use kusion.Kubernetes.Reading.Queries.{read-Q}
use kusion.Kubernetes.Applying.Owned.{apply-own}
use kusion.Kubernetes.Applying.Dry.{apply-Q}
use kusion.Kubernetes.Importing.Owned.{IsImported, import_resource-own}

module _ {W : Type 0} (c : Cluster W) where
  pub kubernetes-IsHonest : IsHonest (kubernetes_runtime c)
  unfolding kubernetes_runtime
  kubernetes-IsHonest = record {
    apply_own = λ request w p r response dry planed answer e.
        OnOk-ok (IsUnder p.id) _ response (apply-own c p request w planed) answer r e;
    import_own = λ p r w response answer e.
        OnOk-ok (IsImported p.id) _ (some response) (import_resource-own c p w) answer r e;
  }

  pub kubernetes-SurvivesDryRun :
      (Q : W → Type 0) → SurvivesQueries Q c → SurvivesDryRun Q (kubernetes_runtime c)
  unfolding kubernetes_runtime
  kubernetes-SurvivesDryRun Q survives = record {
    read = λ request w h. read-Q Q c survives request w h;
    dry_run = λ request w dry h. apply-Q Q c survives request w dry h;
  }

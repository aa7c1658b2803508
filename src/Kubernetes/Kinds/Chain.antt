-- ===== src/Kubernetes/Kinds/Chain.antt =====
-- The kinds that objects of a kind generate, and those generate, are a short chain.
use kusion.Base.{
  ℕ, zero, suc, String, true, ◌≡◌, ◌⊎◌, inl, inr, refl, ◌==◌, ◌||◌, if_both, Bool-cases,
}
use kusion.Cluster.{Gvk}
use kusion.Kubernetes.Kinds.{is_empty, get_dependent_gvk, slices, no_gvk}

-- A kind whose chain of generated kinds ends after `n` steps.
abbrev pub Chain : ℕ → Gvk → Type 0
Chain zero g = is_empty g ≡ true
Chain (suc n) g = (is_empty g ≡ true) ⊎ Chain n (get_dependent_gvk g.kind)

pub get_dependent_gvk-Chain : (kind : String) → Chain 2 (get_dependent_gvk kind)
unfolding get_dependent_gvk is_empty
get_dependent_gvk-Chain kind = elim (Bool-cases (kind == "Deployment")) [
  | inl e ↦ rw e (inr (inr refl))
  | inr e ↦ rw e (elim (Bool-cases ((kind == "DaemonSet") || (kind == "StatefulSet"))) [
    | inl f ↦ rw f (inr (inr refl))
    | inr f ↦ rw f (elim (Bool-cases (kind == "CronJob")) [
      | inl g ↦ rw g (inr (inr refl))
      | inr g ↦
          rw g
            (elim (Bool-cases (
              (kind == "ReplicaSet")
              || (kind == "Job")
              || (kind == "ReplicationController")
              || (kind == "ControllerRevision"))) [
                | inl h ↦ rw h (inr (inl refl))
                | inr h ↦ rw h (
                    if_both (Chain 2) (kind == "Service") slices no_gvk (inr (inl refl)) (inl refl))
              ])
    ])
  ])
]

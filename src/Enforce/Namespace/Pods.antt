-- ===== src/Enforce/Namespace/Pods.antt =====
-- The Pods of a namespace under `EnforceNamespace` and `RestoreNamespace`.
use gpu_budget_operator.Base.{String, false, Option, some, ◌≡◌, refl, ◌∙◌, ◌⊎◌, inl, inr, Any}
use gpu_budget_operator.Objects.{Pod, ScaleKind}
use gpu_budget_operator.Cluster.{Cluster}
use gpu_budget_operator.Cluster.Lawful.{IsLawful}
use gpu_budget_operator.Cluster.Deletion.{IsEnding, IsGraceful}
use gpu_budget_operator.Enforce.Pods.{skips_pod, enforce_pods}
use gpu_budget_operator.Enforce.Pods.Loop.{IsReport, ending_skipped}
use gpu_budget_operator.Enforce.Pods.Deleted.{enforce_pods-IsDeleted}
use gpu_budget_operator.Enforce.Namespace.{enforce_namespace, restore_namespace}
use gpu_budget_operator.Enforce.Namespace.Frame.{LeavesAlone}
use gpu_budget_operator.Enforce.Namespace.RestoreFrame.{restore_namespace_untouched}
use gpu_budget_operator.Enforce.Namespace.Telling.{
  IsTold, TellsOf, workloads_untold, job_sets_untold, jobs_untold, services_untold,
  enforce_namespace_tells,
}

module _ (c : Cluster) (view : String → c.State → String → Option (Pod c.Quantity))
    (L : IsLawful (λ p. p.meta.name) (λ p. p.meta.namespace) c.pods c.is_not_found view)
    (G : IsGraceful c view)
    (workloads_apart : (k : ScaleKind) (ns n : String)
      → LeavesAlone (c.workloads k) (λ s. view ns s n))
    (jobs_apart : (ns n : String) → LeavesAlone c.jobs (λ s. view ns s n))
    (job_sets_apart : (ns n : String) → LeavesAlone c.job_sets (λ s. view ns s n))
    (services_apart : (ns n : String) → LeavesAlone c.inference_services (λ s. view ns s n)) where
  -- What the deletion of a Pod is.
  abbrev pub Acted : Pod c.Quantity → Option (Pod c.Quantity) → Type 0
  Acted p o = (skips_pod c p ≡ false) × IsEnding c p o

  pub Acted_final :
      (p q : Pod c.Quantity) (o : Option (Pod c.Quantity)) → Acted p (some q) → Acted q o → ⊥
  Acted_final p q o a b = ending_skipped c view G p q (some q) a.1 refl b.0

  pods_tell : TellsOf c view Acted (IsReport c view G) Acted_final (enforce_pods c)
  pods_tell ns s n = elim (enforce_pods-IsDeleted c view L G ns s n) [
    | inl same ↦ inl same
    | inr (p, a, b, d, r) ↦ inr (p, a, (b, d), r)
  ]

  pub enforce_namespace-IsDeleted :
      (ns : String) (s : c.State) (n : String)
      → IsTold view Acted
          (IsReport c view G)
          Acted_final
          ns
          s
          (enforce_namespace c ns s).state
          (enforce_namespace c ns s).resources
          n
  enforce_namespace-IsDeleted =
      enforce_namespace_tells c view Acted (IsReport c view G) Acted_final
        (λ k. workloads_untold c view Acted (IsReport c view G) Acted_final k (workloads_apart k))
        (job_sets_untold c view Acted (IsReport c view G) Acted_final job_sets_apart)
        (jobs_untold c view Acted (IsReport c view G) Acted_final jobs_apart)
        (services_untold c view Acted (IsReport c view G) Acted_final services_apart) pods_tell

  -- A namespace enforced and reset, whatever fails in either: each stored Pod is in the end as it
  -- was before both, or it had no owner, was not terminating and requested GPUs, is gone or terminating
  -- also after the reset, and is among the resources that the enforcement returned.
  pub restore_namespace-IsEnding :
      (ns n : String) (s : c.State)
      → let run = enforce_namespace c ns s in
        let back = restore_namespace c ns run.resources run.state in
        (view ns back.1 n ≡ view ns s n)
        ⊎ ((p : Pod c.Quantity) × (view ns s n ≡ some p)
            × ((skips_pod c p ≡ false) × IsEnding c p (view ns back.1 n))
            × Any (IsReport c view G n) run.resources)
  restore_namespace-IsEnding ns n s =
      let run = enforce_namespace c ns s in
      let kept =
        restore_namespace_untouched c (λ t. view ns t n) (λ k. workloads_apart k ns n)
          (job_sets_apart ns n) (jobs_apart ns n) (services_apart ns n) ns run.resources
          run.state in
      elim (enforce_namespace-IsDeleted ns s n) [
        | inl same ↦ inl (kept ∙ same)
        | inr (p, here, (due, ended), told) ↦ inr (p, here, (due, rw kept ended), told)
      ]

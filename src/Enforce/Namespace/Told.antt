-- ===== src/Enforce/Namespace/Told.antt =====
-- What the whole enforcement of a namespace does to one stored workload, and what it tells of it.
use gpu_budget_operator.Base.{String, false, Option, some, ◌≡◌, ◌≢◌, sym, subst, inl, inr, arith}
use gpu_budget_operator.Objects.{Workload, ScaleKind, ScaleKind-discrete}
use gpu_budget_operator.Cluster.{Cluster}
use gpu_budget_operator.Cluster.Lawful.{IsLawful}
use gpu_budget_operator.Enforce.Scale.{skips, scaled_to_zero, enforce_workloads}
use gpu_budget_operator.Enforce.Scale.Enforced.{
  IsReport, skips-scaled_to_zero, enforce_workloads-IsScaled,
}
use gpu_budget_operator.Enforce.Namespace.{enforce_namespace}
use gpu_budget_operator.Enforce.Namespace.Telling.{
  IsTold, TellsOf, workloads_untold, job_sets_untold, jobs_untold, services_untold, pods_untold,
  enforce_namespace_tells,
}
use gpu_budget_operator.Enforce.Namespace.Frame.{LeavesAlone}

module _ (c : Cluster) (k : ScaleKind)
    (view : String → c.State → String → Option (Workload c.Quantity))
    (L : IsLawful (λ w. w.meta.name) (λ w. w.meta.namespace) (c.workloads k) c.is_not_found view)
    (others : (j : ScaleKind)
      → j ≢ k
      → (ns n : String) → LeavesAlone (c.workloads j) (λ s. view ns s n))
    (jobs_apart : (ns n : String) → LeavesAlone c.jobs (λ s. view ns s n))
    (job_sets_apart : (ns n : String) → LeavesAlone c.job_sets (λ s. view ns s n))
    (services_apart : (ns n : String) → LeavesAlone c.inference_services (λ s. view ns s n))
    (pods_apart : (ns n : String) → LeavesAlone c.pods (λ s. view ns s n)) where
  -- What an action on a workload of the kind is.
  abbrev pub Acted : Workload c.Quantity → Option (Workload c.Quantity) → Type 0
  Acted w o = (skips c k w ≡ false) × (o ≡ some (scaled_to_zero c w))

  pub Acted_final :
      (w v : Workload c.Quantity) (o : Option (Workload c.Quantity))
      → Acted w (some v)
      → Acted v o
      → ⊥
  Acted_final w v o a b = ground (arith, a.0, a.1, b.0, skips-scaled_to_zero c k w)

  workloads_tell :
      (j : ScaleKind) → TellsOf c view Acted (IsReport c k) Acted_final (enforce_workloads c j)
  workloads_tell j ns s n = elim (ScaleKind-discrete j k) [
    | yes p ↦
        subst
          (λ i.
            IsTold view Acted (IsReport c k) Acted_final ns s (enforce_workloads c i ns s).state
              (enforce_workloads c i ns s).resources n)
          (sym p)
          (elim (enforce_workloads-IsScaled c k view L ns s n) [
            | inl same ↦ inl same
            | inr (w, a, b, d, r) ↦ inr (w, a, (b, d), r)
          ])
    | no p ↦ workloads_untold c view Acted (IsReport c k) Acted_final j (others j p) ns s n
  ]

  -- Whichever of the seven steps fail: after enforcement every stored workload of the kind is as it
  -- was, or it was eligible, is now scaled to zero with its count kept in the annotation, and is
  -- among the resources that are returned beside the error.
  pub enforce_namespace-IsTold :
      (ns : String) (s : c.State) (n : String)
      → IsTold view Acted
          (IsReport c k)
          Acted_final
          ns
          s
          (enforce_namespace c ns s).state
          (enforce_namespace c ns s).resources
          n
  enforce_namespace-IsTold =
      enforce_namespace_tells c view Acted (IsReport c k) Acted_final workloads_tell
        (job_sets_untold c view Acted (IsReport c k) Acted_final job_sets_apart)
        (jobs_untold c view Acted (IsReport c k) Acted_final jobs_apart)
        (services_untold c view Acted (IsReport c k) Acted_final services_apart)
        (pods_untold c view Acted (IsReport c k) Acted_final pods_apart)

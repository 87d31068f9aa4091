-- ===== src/Enforce/Namespace/Jobs.antt =====
-- The Jobs of a namespace under `EnforceNamespace` and `RestoreNamespace`.
use gpu_budget_operator.Base.{
  String, false, Option, none, some, ◌≡◌, ◌≢◌, refl, sym, ap, ◌∙◌, ◌⊎◌, inl, inr, arith, Any,
  Any-map, string_dec,
}
use mathlib.Core.Option.{some-injective}
use gpu_budget_operator.Objects.{Job, ScaleKind, EnforcedResource}
use gpu_budget_operator.Cluster.{Cluster}
use gpu_budget_operator.Cluster.Lawful.{IsLawful}
use gpu_budget_operator.Enforce.Restore.{restore}
use gpu_budget_operator.Enforce.Scale.{scale_restorer}
use gpu_budget_operator.Enforce.Jobs.{
  skips_job, suspended, resumed, recover_job, enforce_jobs, job_restorer, restore_job,
}
use gpu_budget_operator.Enforce.Jobs.Suspended.{
  IsReport, IsResumed, skips_job-suspended, enforce_jobs-suspended, resumed-IsResumed,
  recover_job-suspended, recover_job_place,
}
use gpu_budget_operator.Enforce.JobSets.{job_set_restorer}
use gpu_budget_operator.Enforce.InferenceServices.{service_restorer}
use gpu_budget_operator.Enforce.Namespace.{enforce_namespace, restore_resource, restore_namespace}
use gpu_budget_operator.Enforce.Namespace.Frame.{LeavesAlone}
use gpu_budget_operator.Enforce.Namespace.RestoreFrame.{restore_alone, restore_resource_cases}
use gpu_budget_operator.Enforce.Namespace.Telling.{
  TellsOf, workloads_untold, job_sets_untold, services_untold, pods_untold, enforce_namespace_tells,
}
use gpu_budget_operator.Enforce.Namespace.Entries.{IsEntry, IsAbout, restore_namespace_attempts}

module _ (c : Cluster) (view : String → c.State → String → Option (Job c.Quantity))
    (L : IsLawful (λ j. j.meta.name) (λ j. j.meta.namespace) c.jobs c.is_not_found view)
    (workloads_apart : (k : ScaleKind) (ns n : String)
      → LeavesAlone (c.workloads k) (λ s. view ns s n))
    (job_sets_apart : (ns n : String) → LeavesAlone c.job_sets (λ s. view ns s n))
    (services_apart : (ns n : String) → LeavesAlone c.inference_services (λ s. view ns s n))
    (pods_apart : (ns n : String) → LeavesAlone c.pods (λ s. view ns s n)) where
  -- What an action on a Job is.
  abbrev pub Acted : Job c.Quantity → Option (Job c.Quantity) → Type 0
  Acted j o = (skips_job c j ≡ false) × (o ≡ some (suspended c j))

  pub Acted_final :
      (i j : Job c.Quantity) (o : Option (Job c.Quantity)) → Acted i (some j) → Acted j o → ⊥
  Acted_final i j o a b = ground (arith, a.0, a.1, b.0, skips_job-suspended c i)

  jobs_tell : TellsOf c view Acted (IsReport c) Acted_final (enforce_jobs c)
  jobs_tell ns s n = elim (enforce_jobs-suspended c view L ns s n) [
    | inl same ↦ inl same
    | inr (j, a, b, d, r) ↦ inr (j, a, (b, d), r)
  ]

  -- Whichever of the seven steps fail: after enforcement every stored Job of the namespace is as it
  -- was, or it had no owner, was not suspended and requested GPUs, is now suspended, and is among
  -- the resources that are returned beside the errors.
  pub enforce_namespace-suspended :
      (ns : String) (s : c.State) (n : String)
      → let run = enforce_namespace c ns s in
        (view ns run.state n ≡ view ns s n)
        ⊎ ((j : Job c.Quantity) × (view ns s n ≡ some j)
            × ((skips_job c j ≡ false) × (view ns run.state n ≡ some (suspended c j)))
            × Any (IsReport c n) run.resources)
  enforce_namespace-suspended =
      enforce_namespace_tells c view Acted (IsReport c) Acted_final
        (λ k. workloads_untold c view Acted (IsReport c) Acted_final k (workloads_apart k))
        (job_sets_untold c view Acted (IsReport c) Acted_final job_sets_apart) jobs_tell
        (services_untold c view Acted (IsReport c) Acted_final services_apart)
        (pods_untold c view Acted (IsReport c) Acted_final pods_apart)

  restore_elsewhere :
      (ns n : String) (e : EnforcedResource) (s : c.State)
      → e.kind ≢ "Job"
      → view ns (restore_resource c ns e s).1 n ≡ view ns s n
  restore_elsewhere ns n e s differs =
      let look = λ (t : c.State). view ns t n in
      restore_resource_cases c look ns e s
        (λ k _. restore_alone (scale_restorer c k) look (workloads_apart k ns n) ns e.name s)
        (λ _. restore_alone (job_set_restorer c) look (job_sets_apart ns n) ns e.name s)
        (λ is. absurd (differs is))
        (λ _. restore_alone (service_restorer c) look (services_apart ns n) ns e.name s)

  restore_job_of :
      (ns : String) (e : EnforcedResource) (s : c.State)
      → e.kind ≡ "Job"
      → restore_resource c ns e s ≡ restore (job_restorer c) ns e.name s
  unfolding restore_resource restore_job string_dec
  restore_job_of ns e s p = rw p refl

  resumed_idle : (j : Job c.Quantity) → recover_job c (resumed c false (suspended c j)) ≡ none
  unfolding recover_job
  resumed_idle j = rw ((resumed-IsResumed c j).cleared, recover_job)

  -- A namespace enforced and reset, whatever fails in either: each stored Job is left alone by the
  -- enforcement, or the reset lets it run again, apart from the suspension as it was, or an error of
  -- the reset tells that its own restore failed.
  pub restore_namespace_resumes :
      (ns n : String) (s : c.State) (j : Job c.Quantity)
      → view ns s n ≡ some j
      → let run = enforce_namespace c ns s in
        let back = restore_namespace c ns run.resources run.state in
        (view ns run.state n ≡ some j)
        ⊎ ((v : Job c.Quantity) × (view ns back.1 n ≡ some v) × IsResumed c j v)
        ⊎ Any (IsAbout "Job" n) back.0
  restore_namespace_resumes ns n s j found = elim (enforce_namespace-suspended ns s n) [
    | inl same ↦ inl (same ∙ found)
    | inr (x, here, (due, stopped), told) ↦
        let run = enforce_namespace c ns s in
        let is : x ≡ j = some-injective _ _ (sym here ∙ found) in
        let listed =
          Any-map (IsReport c n) (IsEntry "Job" n) (λ r h. (h.0, h.1)) run.resources told in
        elim (restore_namespace_attempts c (job_restorer c) _ _ view L
          (λ _ y v h. recover_job_place c y v h) "Job" ns n (λ e t. restore_job_of ns e t)
          (restore_elsewhere ns n) run.resources run.state (suspended c j)
          (resumed c false (suspended c j)) listed (stopped ∙ ap (λ z. some (suspended c z)) is)
          (recover_job-suspended c j) (resumed_idle j)) [
            | inl done ↦ inr (inl (_, done, resumed-IsResumed c j))
            | inr failed ↦ inr (inr failed)
          ]
  ]

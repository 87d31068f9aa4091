-- ===== src/Enforce/Namespace/JobSets.antt =====
-- The JobSets of a namespace under `EnforceNamespace` and `RestoreNamespace`.
use gpu_budget_operator.Base.{
  String, false, Option, none, some, ◌≡◌, ◌≢◌, refl, sym, subst, ◌∙◌, ◌⊎◌, inl, inr, arith, Any,
  Any-map, string_dec,
}
use mathlib.Core.Option.{some-injective}
use gpu_budget_operator.Objects.{ScaleKind, EnforcedResource}
use gpu_budget_operator.Objects.Value.{Fields}
use gpu_budget_operator.Cluster.{Cluster}
use gpu_budget_operator.Cluster.Lawful.{IsLawful}
use gpu_budget_operator.Cluster.Helpers.{IsUnstructured}
use gpu_budget_operator.Enforce.Restore.{restore}
use gpu_budget_operator.Enforce.Scale.{scale_restorer}
use gpu_budget_operator.Enforce.Jobs.{job_restorer}
use gpu_budget_operator.Enforce.JobSets.{
  skips_job_set, enforce_job_sets, resume_job_set, recover_job_set, job_set_restorer,
  restore_job_set,
}
use gpu_budget_operator.Enforce.JobSets.Changed.{
  IsReport, IsSuspended, IsResumed, skips_job_set-suspended, recover_job_set-suspended,
  recover_place, resume_job_set-IsResumed,
}
use gpu_budget_operator.Enforce.JobSets.Suspended.{enforce_job_sets-IsSuspended}
use gpu_budget_operator.Enforce.InferenceServices.{service_restorer}
use gpu_budget_operator.Enforce.Namespace.{enforce_namespace, restore_resource, restore_namespace}
use gpu_budget_operator.Enforce.Namespace.Frame.{LeavesAlone}
use gpu_budget_operator.Enforce.Namespace.RestoreFrame.{restore_alone, restore_resource_cases}
use gpu_budget_operator.Enforce.Namespace.Telling.{
  TellsOf, workloads_untold, jobs_untold, services_untold, pods_untold, enforce_namespace_tells,
}
use gpu_budget_operator.Enforce.Namespace.Entries.{IsEntry, IsAbout, restore_namespace_tries}

module _ (c : Cluster) (U : IsUnstructured c.unstructured)
    (view : String → c.State → String → Option Fields)
    (L : IsLawful c.unstructured.get_name c.unstructured.get_namespace c.job_sets c.is_not_found
      view)
    (workloads_apart : (k : ScaleKind) (ns n : String)
      → LeavesAlone (c.workloads k) (λ s. view ns s n))
    (jobs_apart : (ns n : String) → LeavesAlone c.jobs (λ s. view ns s n))
    (services_apart : (ns n : String) → LeavesAlone c.inference_services (λ s. view ns s n))
    (pods_apart : (ns n : String) → LeavesAlone c.pods (λ s. view ns s n)) where
  -- What an action on a JobSet is.
  abbrev pub Acted : Fields → Option Fields → Type 0
  Acted o after =
      (o' : Fields) × (skips_job_set c o ≡ false) × (after ≡ some o') × IsSuspended c U o o'

  pub Acted_final : (o p : Fields) (q : Option Fields) → Acted o (some p) → Acted p q → ⊥
  Acted_final o p q a b =
      let is : some p ≡ some a.0 = a.2 in
      ground (arith, is, b.1, a.3.0, skips_job_set-suspended c U a.0)

  job_sets_tell : TellsOf c view Acted (IsReport c U) Acted_final (enforce_job_sets c)
  job_sets_tell ns s n = elim (enforce_job_sets-IsSuspended c U view L ns s n) [
    | inl same ↦ inl same
    | inr (o, o', here, due, stored, is, told) ↦ inr (o, here, (o', due, stored, is), told)
  ]

  -- Whichever of the seven steps fail: after enforcement every stored JobSet of the namespace is as
  -- it was, or it was not suspended and requested GPUs, reads as suspended now, and is among the
  -- resources that are returned beside the errors.
  pub enforce_namespace-IsSuspended :
      (ns : String) (s : c.State) (n : String)
      → let run = enforce_namespace c ns s in
        (view ns run.state n ≡ view ns s n)
        ⊎ ((o : Fields) × (view ns s n ≡ some o)
            × Acted o (view ns run.state n)
            × Any (IsReport c U n) run.resources)
  enforce_namespace-IsSuspended =
      enforce_namespace_tells c view Acted (IsReport c U) Acted_final
        (λ k. workloads_untold c view Acted (IsReport c U) Acted_final k (workloads_apart k))
        job_sets_tell (jobs_untold c view Acted (IsReport c U) Acted_final jobs_apart)
        (services_untold c view Acted (IsReport c U) Acted_final services_apart)
        (pods_untold c view Acted (IsReport c U) Acted_final pods_apart)

  restore_elsewhere :
      (ns n : String) (e : EnforcedResource) (s : c.State)
      → e.kind ≢ "JobSet"
      → view ns (restore_resource c ns e s).1 n ≡ view ns s n
  restore_elsewhere ns n e s differs =
      let look = λ (t : c.State). view ns t n in
      restore_resource_cases c look ns e s
        (λ k _. restore_alone (scale_restorer c k) look (workloads_apart k ns n) ns e.name s)
        (λ is. absurd (differs is))
        (λ _. restore_alone (job_restorer c) look (jobs_apart ns n) ns e.name s)
        (λ _. restore_alone (service_restorer c) look (services_apart ns n) ns e.name s)

  restore_job_set_of :
      (ns : String) (e : EnforcedResource) (s : c.State)
      → e.kind ≡ "JobSet"
      → restore_resource c ns e s ≡ restore (job_set_restorer c) ns e.name s
  unfolding restore_resource restore_job_set string_dec
  restore_job_set_of ns e s p = rw p refl

  resumed_idle : (ns : String) (o v : Fields) → IsResumed c U o v → recover_job_set c ns v ≡ none
  unfolding recover_job_set
  resumed_idle ns o v is = rw (is.1, recover_job_set)

  -- A namespace enforced and reset, whatever fails in either: each stored JobSet is left alone by
  -- the enforcement, or the reset makes it read as running, with its own annotations, or an error of
  -- the reset tells that its own restore failed.
  pub restore_namespace-IsResumed :
      (ns n : String) (s : c.State) (o : Fields)
      → view ns s n ≡ some o
      → let run = enforce_namespace c ns s in
        let back = restore_namespace c ns run.resources run.state in
        (view ns run.state n ≡ some o)
        ⊎ ((v : Fields) × (view ns back.1 n ≡ some v) × IsResumed c U o v)
        ⊎ Any (IsAbout "JobSet" n) back.0
  restore_namespace-IsResumed ns n s o found = elim (enforce_namespace-IsSuspended ns s n) [
    | inl same ↦ inl (same ∙ found)
    | inr (x, here, (o', due, stopped, suspended), told) ↦
        let run = enforce_namespace c ns s in
        let same : x ≡ o = some-injective _ _ (sym here ∙ found) in
        let is : IsSuspended c U o o' = subst (λ z. IsSuspended c U z o') same suspended in
        let listed =
          Any-map (IsReport c U n) (IsEntry "JobSet" n) (λ r h. (h.0, h.1)) run.resources told in
        elim (restore_namespace_tries c (job_set_restorer c) _ _ view L
          (λ ns' y v h. recover_place c U ns' y v h) "JobSet" ns n
          (λ e t. restore_job_set_of ns e t) (restore_elsewhere ns n) run.resources run.state o'
          (resume_job_set c ns o' false) listed stopped (recover_job_set-suspended c U ns o o' is)
          (λ v e. resumed_idle ns o v (resume_job_set-IsResumed c U ns o o' v is e))) [
            | inl (v, e, done) ↦ inr (inl (v, done, resume_job_set-IsResumed c U ns o o' v is e))
            | inr failed ↦ inr (inr failed)
          ]
  ]

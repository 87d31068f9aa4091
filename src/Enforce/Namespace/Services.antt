-- ===== src/Enforce/Namespace/Services.antt =====
-- The InferenceServices of a namespace under `EnforceNamespace` and `RestoreNamespace`.
use gpu_budget_operator.Base.{
  String, Option, some, List, [], ◌∷◌, ◌++◌, ◌≡◌, ◌≢◌, refl, sym, subst, ◌∙◌, ◌⊎◌, inl, inr, All,
  Any, Any-append_left, Any-append_right, Any-map, string_dec,
}
use mathlib.Core.Option.{some-injective}
use gpu_budget_operator.Objects.{ScaleKind, deployment, stateful_set, replica_set, EnforcedResource}
use gpu_budget_operator.Objects.Value.{Fields}
use gpu_budget_operator.Cluster.{Cluster}
use gpu_budget_operator.Cluster.Lawful.{IsLawful}
use gpu_budget_operator.Cluster.Helpers.{IsUnstructured, IsNested, IsJson}
use gpu_budget_operator.Enforce.Report.{Outcome}
use gpu_budget_operator.Enforce.Restore.{restore}
use gpu_budget_operator.Enforce.Scale.{
  scale_restorer, enforce_deployments, enforce_stateful_sets, enforce_replica_sets,
}
use gpu_budget_operator.Enforce.Jobs.{job_marker, enforce_jobs, job_restorer}
use gpu_budget_operator.Enforce.JobSets.{job_set_marker, enforce_job_sets, job_set_restorer}
use gpu_budget_operator.Enforce.Pods.{enforce_pods}
use gpu_budget_operator.Enforce.InferenceServices.{
  enforce_inference_services, service_restorer, restore_inference_service,
}
use gpu_budget_operator.Enforce.InferenceServices.Recalled.{
  IsDistinct, IsFresh, IsRecalled, zero_service-IsKept, recover_service_place, recover_service_idle,
}
use gpu_budget_operator.Enforce.InferenceServices.Listed.{IsReport}
use gpu_budget_operator.Enforce.InferenceServices.Stored.{enforce_inference_services-IsZeroed}
use gpu_budget_operator.Enforce.Namespace.{
  run_steps, enforce_namespace, restore_resource, restore_namespace,
}
use gpu_budget_operator.Enforce.Namespace.Frame.{LeavesAlone, pass_alone, enforce_pods_alone}
use gpu_budget_operator.Enforce.Namespace.RestoreFrame.{restore_alone, restore_resource_cases}
use gpu_budget_operator.Enforce.Namespace.Telling.{workloads_alone}
use gpu_budget_operator.Enforce.Namespace.Entries.{IsEntry, IsAbout, restore_namespace_tries}

-- Steps of which only one, `f`, changes what `look` sees.
module _ {S E V : Type 0} (look : S → V) (ns : String) (P : EnforcedResource → Type 0) where
  abbrev Unseen : (String → S → Outcome E S) → Type 0
  Unseen g = (s : S) → look (g ns s).state ≡ look s

  rest_alone :
      (gs : List (String → S → Outcome E S)) (s : S)
      → All Unseen gs
      → look (run_steps gs ns s).state ≡ look s
  unfolding run_steps
  rest_alone [] s h = refl
  rest_alone (g ∷ gs) s h = rest_alone gs (g ns s).state h.1 ∙ h.0 s

  run_steps_one :
      (fs : List (String → S → Outcome E S)) (f : String → S → Outcome E S)
      (gs : List (String → S → Outcome E S)) (s : S)
      → All Unseen fs
      → All Unseen gs
      → let run = run_steps (fs ++ (f ∷ gs)) ns s in
        (t : S) × (look t ≡ look s)
        × (look run.state ≡ look (f ns t).state)
        × (Any P (f ns t).resources → Any P run.resources)
  unfolding run_steps
  run_steps_one [] f gs s before after =
      (s, refl, rest_alone gs (f ns s).state after, λ h. Any-append_left P (f ns s).resources _ h)
  run_steps_one (g ∷ fs) f gs s before after =
      let (t, same, seen, told) = run_steps_one fs f gs (g ns s).state before.1 after in
      (t, same ∙ before.0 s, seen, λ h. Any-append_right P (g ns s).resources _ (told h))

module _ (c : Cluster) (U : IsUnstructured c.unstructured) (N : IsNested c.unstructured)
    (J : IsJson c) (D : IsDistinct c) (view : String → c.State → String → Option Fields)
    (L : IsLawful c.unstructured.get_name c.unstructured.get_namespace c.inference_services
      c.is_not_found view)
    (workloads_apart : (k : ScaleKind) (ns n : String)
      → LeavesAlone (c.workloads k) (λ s. view ns s n))
    (jobs_apart : (ns n : String) → LeavesAlone c.jobs (λ s. view ns s n))
    (job_sets_apart : (ns n : String) → LeavesAlone c.job_sets (λ s. view ns s n))
    (pods_apart : (ns n : String) → LeavesAlone c.pods (λ s. view ns s n)) where
  -- The step of the services among the others.
  services_step :
      (ns n : String) (s : c.State)
      → let run = enforce_namespace c ns s in
        (t : c.State) × (view ns t n ≡ view ns s n)
        × (view ns run.state n ≡ view ns (enforce_inference_services c ns t).state n)
        × (Any (IsReport c U N J view L n) (enforce_inference_services c ns t).resources
            → Any (IsReport c U N J view L n) run.resources)
  unfolding enforce_namespace enforce_deployments enforce_stateful_sets enforce_replica_sets
      enforce_job_sets enforce_jobs
  services_step ns n s =
      let look = λ (t : c.State). view ns t n in
      let scaled =
        λ (k : ScaleKind) (t : c.State). workloads_alone c look k (workloads_apart k ns n) ns t in
      run_steps_one look ns (IsReport c U N J view L n)
        (enforce_deployments c
          ∷ enforce_stateful_sets c
          ∷ enforce_replica_sets c
          ∷ enforce_job_sets c
          ∷ enforce_jobs c
          ∷ [])
        (enforce_inference_services c) (enforce_pods c ∷ []) s
        (
          scaled deployment,
          (
            scaled stateful_set,
            (
              scaled replica_set,
              (
                pass_alone (job_set_marker c) look (job_sets_apart ns n) ns,
                (pass_alone (job_marker c) look (jobs_apart ns n) ns, tt),
              ),
            ),
          ),
        )
        (enforce_pods_alone c look (pods_apart ns n) ns, tt)

  restore_elsewhere :
      (ns n : String) (e : EnforcedResource) (s : c.State)
      → e.kind ≢ "InferenceService"
      → view ns (restore_resource c ns e s).1 n ≡ view ns s n
  restore_elsewhere ns n e s differs =
      let look = λ (t : c.State). view ns t n in
      restore_resource_cases c look ns e s
        (λ k _. restore_alone (scale_restorer c k) look (workloads_apart k ns n) ns e.name s)
        (λ _. restore_alone (job_set_restorer c) look (job_sets_apart ns n) ns e.name s)
        (λ _. restore_alone (job_restorer c) look (jobs_apart ns n) ns e.name s)
        (λ is. absurd (differs is))

  restore_service_of :
      (ns : String) (e : EnforcedResource) (s : c.State)
      → e.kind ≡ "InferenceService"
      → restore_resource c ns e s ≡ restore (service_restorer c) ns e.name s
  unfolding restore_resource restore_inference_service string_dec
  restore_service_of ns e s p = rw p refl

  -- A namespace enforced and reset, whatever fails in either: each stored InferenceService without a
  -- record of the operator is left alone by the enforcement, or the reset makes all its replica bounds
  -- read as before, with no record left, or an error of the reset tells that its own restore failed.
  pub restore_namespace-IsRecalled :
      (ns n : String) (s : c.State) (o : Fields)
      → view ns s n ≡ some o
      → IsFresh c U N J D o
      → let run = enforce_namespace c ns s in
        let back = restore_namespace c ns run.resources run.state in
        (view ns run.state n ≡ some o)
        ⊎ ((v : Fields) × (view ns back.1 n ≡ some v) × IsRecalled c U N J D o v)
        ⊎ Any (IsAbout "InferenceService" n) back.0
  restore_namespace-IsRecalled ns n s o found fresh =
      let run = enforce_namespace c ns s in
      let (t, same, seen, told) = services_step ns n s in
      elim (enforce_inference_services-IsZeroed c U N J view L ns t n) [
        | inl still ↦ inl (seen ∙ still ∙ same ∙ found)
        | inr z ↦
            let is : z.before ≡ o = some-injective _ _ (sym z.found ∙ same ∙ found) in
            let kept =
              zero_service-IsKept c U N J D z.before z.after z.newly
                (subst (IsFresh c U N J D) (sym is) fresh) z.zeroed in
            let listed =
              Any-map (IsReport c U N J view L n) (IsEntry "InferenceService" n) (λ r h. (h.0, h.1))
                run.resources (told (z.told kept.newly_captured)) in
            elim (restore_namespace_tries c (service_restorer c) _ _ view L
              (λ _ x y h. recover_service_place c U N J D x y h) "InferenceService" ns n
              (λ e u. restore_service_of ns e u) (restore_elsewhere ns n) run.resources run.state
              z.after kept.answer listed (seen ∙ z.stored) kept.recovered
              (λ v e. recover_service_idle c U N J D v (kept.recalled v e).cleared)) [
                | inl (v, e, done) ↦
                    inr
                      (inl (v, done, subst (λ x. IsRecalled c U N J D x v) is (kept.recalled v e)))
                | inr failed ↦ inr (inr failed)
              ]
      ]

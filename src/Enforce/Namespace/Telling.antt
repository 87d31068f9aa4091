-- ===== src/Enforce/Namespace/Telling.antt =====
-- Objects that the steps of `EnforceNamespace` leave as they are or act on, and the resources that
-- tell of those acted on.
use gpu_budget_operator.Base.{
  String, Option, some, List, [], ◌∷◌, ◌++◌, ◌≡◌, refl, sym, subst, ◌∙◌, ◌⊎◌, inl, inr, All, Any,
  Any-append_left, Any-append_right,
}
use gpu_budget_operator.Objects.{ScaleKind, deployment, stateful_set, replica_set, EnforcedResource}
use gpu_budget_operator.Cluster.{Cluster}
use gpu_budget_operator.Enforce.Report.{Outcome}
use gpu_budget_operator.Enforce.Scale.{
  scale_marker, enforce_workloads, enforce_deployments, enforce_stateful_sets, enforce_replica_sets,
}
use gpu_budget_operator.Enforce.Jobs.{job_marker, enforce_jobs}
use gpu_budget_operator.Enforce.JobSets.{job_set_marker, enforce_job_sets}
use gpu_budget_operator.Enforce.InferenceServices.{enforce_inference_services}
use gpu_budget_operator.Enforce.Pods.{enforce_pods}
use gpu_budget_operator.Enforce.Namespace.{run_steps, enforce_steps, enforce_namespace}
use gpu_budget_operator.Enforce.Namespace.Frame.{
  LeavesAlone, pass_alone, enforce_pods_alone, enforce_inference_services_alone,
}

pub workloads_alone :
    {V : Type 0} (c : Cluster) (look : c.State → V) (j : ScaleKind)
    → LeavesAlone (c.workloads j) look
    → (ns : String) (s : c.State) → look (enforce_workloads c j ns s).state ≡ look s
unfolding enforce_workloads
workloads_alone c look j F ns s = pass_alone (scale_marker c j) look F ns s

-- Objects seen through `view`, of which an action makes something final, and the entry that tells.
module _ {S T : Type 0} (view : String → S → String → Option T) (Acted : T → Option T → Type 0)
    (Entry : String → EnforcedResource → Type 0)
    (final : (x y : T) (o : Option T) → Acted x (some y) → Acted y o → ⊥) where
  -- From `s` to `s'` the object `n` stays, or is acted on and told.
  abbrev pub IsTold : String → S → S → List EnforcedResource → String → Type 0
  IsTold ns s s' rs n =
      (view ns s' n ≡ view ns s n)
      ⊎ ((x : T) × (view ns s n ≡ some x) × Acted x (view ns s' n) × Any (Entry n) rs)

  IsTold-trans :
      (ns : String) (s t u : S) (rs qs : List EnforcedResource) (n : String)
      → IsTold ns s t rs n
      → IsTold ns t u qs n
      → IsTold ns s u (rs ++ qs) n
  IsTold-trans ns s t u rs qs n (inl a) (inl b) = inl (b ∙ a)
  IsTold-trans ns s t u rs qs n (inl a) (inr (x, e, d, r)) =
      inr (x, sym a ∙ e, d, Any-append_right (Entry n) rs qs r)
  IsTold-trans ns s t u rs qs n (inr (x, e, d, r)) (inl b) =
      inr (x, e, subst (Acted x) (sym b) d, Any-append_left (Entry n) rs qs r)
  IsTold-trans ns s t u rs qs n (inr (x, e, d, r)) (inr (y, f, g, q)) =
      absurd (final x y (view ns u n) (subst (Acted x) f d) g)

  module _ {E : Type 0} where
    abbrev pub Tells : (String → S → Outcome E S) → Type 0
    Tells f = (ns : String) (s : S) (n : String) → IsTold ns s (f ns s).state (f ns s).resources n

    pub run_steps-IsTold :
        (fs : List (String → S → Outcome E S))
        → All Tells fs
        → (ns : String) (s : S) (n : String)
        → IsTold ns s (run_steps fs ns s).state (run_steps fs ns s).resources n
    unfolding run_steps
    run_steps-IsTold [] h ns s n = inl refl
    run_steps-IsTold (f ∷ fs) (h, hs) ns s n =
        IsTold-trans ns s (f ns s).state _ _ _ n (h ns s n)
          (run_steps-IsTold fs hs ns (f ns s).state n)

-- The steps of a namespace: each leaves the objects alone, or tells.
module _ {T : Type 0} (c : Cluster) (view : String → c.State → String → Option T)
    (Acted : T → Option T → Type 0) (Entry : String → EnforcedResource → Type 0)
    (final : (x y : T) (o : Option T) → Acted x (some y) → Acted y o → ⊥) where
  abbrev pub TellsOf : (String → c.State → Outcome c.Err c.State) → Type 0
  TellsOf = Tells view Acted Entry final

  pub workloads_untold :
      (k : ScaleKind)
      → ((ns n : String) → LeavesAlone (c.workloads k) (λ s. view ns s n))
      → TellsOf (enforce_workloads c k)
  workloads_untold k F ns s n = inl (workloads_alone c (λ t. view ns t n) k (F ns n) ns s)

  pub job_sets_untold :
      ((ns n : String) → LeavesAlone c.job_sets (λ s. view ns s n)) → TellsOf (enforce_job_sets c)
  unfolding enforce_job_sets
  job_sets_untold F ns s n = inl (pass_alone (job_set_marker c) (λ t. view ns t n) (F ns n) ns s)

  pub jobs_untold :
      ((ns n : String) → LeavesAlone c.jobs (λ s. view ns s n)) → TellsOf (enforce_jobs c)
  unfolding enforce_jobs
  jobs_untold F ns s n = inl (pass_alone (job_marker c) (λ t. view ns t n) (F ns n) ns s)

  pub services_untold :
      ((ns n : String) → LeavesAlone c.inference_services (λ s. view ns s n))
      → TellsOf (enforce_inference_services c)
  services_untold F ns s n =
      inl (enforce_inference_services_alone c (λ t. view ns t n) (F ns n) ns s)

  pub pods_untold :
      ((ns n : String) → LeavesAlone c.pods (λ s. view ns s n)) → TellsOf (enforce_pods c)
  pods_untold F ns s n = inl (enforce_pods_alone c (λ t. view ns t n) (F ns n) ns s)

  pub enforce_namespace_tells :
      ((k : ScaleKind) → TellsOf (enforce_workloads c k))
      → TellsOf (enforce_job_sets c)
      → TellsOf (enforce_jobs c)
      → TellsOf (enforce_inference_services c)
      → TellsOf (enforce_pods c)
      → (ns : String) (s : c.State) (n : String)
      → IsTold view Acted Entry final ns s
          (enforce_namespace c ns s).state
          (enforce_namespace c ns s).resources
          n
  unfolding enforce_namespace enforce_deployments enforce_stateful_sets enforce_replica_sets
  enforce_namespace_tells workloads job_sets jobs services pods =
      run_steps-IsTold view Acted Entry final (enforce_steps c) (
        workloads deployment,
        (
          workloads stateful_set,
          (workloads replica_set, (job_sets, (jobs, (services, (pods, tt))))),
        ),
      )

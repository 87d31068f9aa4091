-- ===== src/Tests/Namespaces.antt =====
-- Enforcing and resetting the namespace `team`, as the Jobs, the JobSets and the Pods see it.
use gpu_budget_operator.Tests.Store.{find}
use gpu_budget_operator.Tests.Store.Laws.{store-LeavesAlone}
use gpu_budget_operator.Base.{string_dec, ℕ, String, some, ◌≡◌, refl, ◌⊎◌, Any, false}
use gpu_budget_operator.Objects.{Job, Pod, ScaleKind, deployment, stateful_set, replica_set}
use gpu_budget_operator.Objects.Value.{Fields}
use gpu_budget_operator.Enforce.Jobs.{skips_job, suspended}
use gpu_budget_operator.Enforce.Jobs.Suspended as JobFacts
use gpu_budget_operator.Enforce.JobSets.Changed as JobSetChanges
use gpu_budget_operator.Cluster.Deletion.{IsEnding}
use gpu_budget_operator.Enforce.Pods.{skips_pod}
use gpu_budget_operator.Enforce.Pods.Loop as PodFacts
use gpu_budget_operator.Enforce.Namespace.{enforce_namespace, restore_namespace}
use gpu_budget_operator.Enforce.Namespace.Frame.{LeavesAlone}
use gpu_budget_operator.Enforce.Namespace.Entries.{IsAbout}
use gpu_budget_operator.Enforce.Namespace.Jobs.{
  enforce_namespace-suspended, restore_namespace_resumes,
}
use gpu_budget_operator.Enforce.Namespace.JobSets as JobSetNamespace
use gpu_budget_operator.Enforce.Namespace.Pods.{restore_namespace-IsEnding}
use gpu_budget_operator.Base.Dict.{read}
use gpu_budget_operator.Enforce.InferenceServices.Recalled.{IsFresh, IsRecalled}
use gpu_budget_operator.Enforce.Namespace.Services.{restore_namespace-IsRecalled}
use gpu_budget_operator.Tests.Nested.{helpers-IsNested}
use gpu_budget_operator.Tests.Objects.{get_key, metadata, helpers-IsUnstructured}
use gpu_budget_operator.Tests.Memory.{
  pods-LeavesAlone, memory, job_view, jobs-IsLawful, job_set_view, job_sets-IsLawful, pod_view,
  pods-IsLawful, pods-IsGraceful, service_view, services-IsLawful, memory-IsJson, memory-IsDistinct,
}
use gpu_budget_operator.Tests.Data.{tuning, sweep, chat, team}

workloads_apart_of_jobs :
    (k : ScaleKind) (ns n : String) → LeavesAlone (memory.workloads k) (λ s. job_view ns s n)
workloads_apart_of_jobs deployment ns n = store-LeavesAlone _ _ _ _ _ (λ xs m. refl)
workloads_apart_of_jobs stateful_set ns n = store-LeavesAlone _ _ _ _ _ (λ xs m. refl)
workloads_apart_of_jobs replica_set ns n = store-LeavesAlone _ _ _ _ _ (λ xs m. refl)

enforce_namespace-suspended_example :
    let run = enforce_namespace memory "team" team in
    (job_view "team" run.state "tuning" ≡ job_view "team" team "tuning")
    ⊎ ((j : Job ℕ) × (job_view "team" team "tuning" ≡ some j)
        × ((skips_job memory j ≡ false)
            × (job_view "team" run.state "tuning" ≡ some (suspended memory j)))
        × Any (JobFacts.IsReport memory "tuning") run.resources)
enforce_namespace-suspended_example =
    enforce_namespace-suspended memory job_view jobs-IsLawful workloads_apart_of_jobs
      (λ ns n. store-LeavesAlone _ _ _ _ _ (λ xs m. refl))
      (λ ns n. store-LeavesAlone _ _ _ _ _ (λ xs m. refl))
      (λ ns n. pods-LeavesAlone _ (λ xs m. refl)) "team" team "tuning"

restore_namespace_resumes_example :
    let run = enforce_namespace memory "team" team in
    let back = restore_namespace memory "team" run.resources run.state in
    (job_view "team" run.state "tuning" ≡ some tuning)
    ⊎ ((v : Job ℕ) × (job_view "team" back.1 "tuning" ≡ some v)
        × JobFacts.IsResumed memory tuning v)
    ⊎ Any (IsAbout "Job" "tuning") back.0
unfolding find string_dec
restore_namespace_resumes_example =
    restore_namespace_resumes memory job_view jobs-IsLawful workloads_apart_of_jobs
      (λ ns n. store-LeavesAlone _ _ _ _ _ (λ xs m. refl))
      (λ ns n. store-LeavesAlone _ _ _ _ _ (λ xs m. refl))
      (λ ns n. pods-LeavesAlone _ (λ xs m. refl)) "team" "tuning" team tuning refl

workloads_apart_of_job_sets :
    (k : ScaleKind) (ns n : String) → LeavesAlone (memory.workloads k) (λ s. job_set_view ns s n)
workloads_apart_of_job_sets deployment ns n = store-LeavesAlone _ _ _ _ _ (λ xs m. refl)
workloads_apart_of_job_sets stateful_set ns n = store-LeavesAlone _ _ _ _ _ (λ xs m. refl)
workloads_apart_of_job_sets replica_set ns n = store-LeavesAlone _ _ _ _ _ (λ xs m. refl)

restore_namespace-IsResumed_example :
    let run = enforce_namespace memory "team" team in
    let back = restore_namespace memory "team" run.resources run.state in
    (job_set_view "team" run.state "sweep" ≡ some sweep)
    ⊎ ((v : Fields) × (job_set_view "team" back.1 "sweep" ≡ some v)
        × JobSetChanges.IsResumed memory helpers-IsUnstructured sweep v)
    ⊎ Any (IsAbout "JobSet" "sweep") back.0
unfolding find string_dec get_key metadata
restore_namespace-IsResumed_example =
    JobSetNamespace.restore_namespace-IsResumed memory helpers-IsUnstructured job_set_view
      job_sets-IsLawful workloads_apart_of_job_sets
      (λ ns n. store-LeavesAlone _ _ _ _ _ (λ xs m. refl))
      (λ ns n. store-LeavesAlone _ _ _ _ _ (λ xs m. refl))
      (λ ns n. pods-LeavesAlone _ (λ xs m. refl)) "team" "sweep" team sweep refl

workloads_apart_of_pods :
    (k : ScaleKind) (ns n : String) → LeavesAlone (memory.workloads k) (λ s. pod_view ns s n)
workloads_apart_of_pods deployment ns n = store-LeavesAlone _ _ _ _ _ (λ xs m. refl)
workloads_apart_of_pods stateful_set ns n = store-LeavesAlone _ _ _ _ _ (λ xs m. refl)
workloads_apart_of_pods replica_set ns n = store-LeavesAlone _ _ _ _ _ (λ xs m. refl)

restore_namespace-IsEnding_example :
    let run = enforce_namespace memory "team" team in
    let back = restore_namespace memory "team" run.resources run.state in
    (pod_view "team" back.1 "notebook" ≡ pod_view "team" team "notebook")
    ⊎ ((p : Pod ℕ) × (pod_view "team" team "notebook" ≡ some p)
        × ((skips_pod memory p ≡ false) × IsEnding memory p (pod_view "team" back.1 "notebook"))
        × Any (PodFacts.IsReport memory pod_view pods-IsGraceful "notebook") run.resources)
restore_namespace-IsEnding_example =
    restore_namespace-IsEnding memory pod_view pods-IsLawful pods-IsGraceful workloads_apart_of_pods
      (λ ns n. store-LeavesAlone _ _ _ _ _ (λ xs m. refl))
      (λ ns n. store-LeavesAlone _ _ _ _ _ (λ xs m. refl))
      (λ ns n. store-LeavesAlone _ _ _ _ _ (λ xs m. refl)) "team" "notebook" team

workloads_apart_of_services :
    (k : ScaleKind) (ns n : String) → LeavesAlone (memory.workloads k) (λ s. service_view ns s n)
workloads_apart_of_services deployment ns n = store-LeavesAlone _ _ _ _ _ (λ xs m. refl)
workloads_apart_of_services stateful_set ns n = store-LeavesAlone _ _ _ _ _ (λ xs m. refl)
workloads_apart_of_services replica_set ns n = store-LeavesAlone _ _ _ _ _ (λ xs m. refl)

chat_found : service_view "team" team "chat" ≡ some chat
unfolding find string_dec metadata
chat_found = refl

chat_fresh :
    IsFresh memory helpers-IsUnstructured helpers-IsNested memory-IsJson memory-IsDistinct chat
unfolding read metadata string_dec
chat_fresh = refl

restore_namespace-IsRecalled_example :
    let run = enforce_namespace memory "team" team in
    let back = restore_namespace memory "team" run.resources run.state in
    (service_view "team" run.state "chat" ≡ some chat)
    ⊎ ((v : Fields) × (service_view "team" back.1 "chat" ≡ some v)
        × IsRecalled memory helpers-IsUnstructured helpers-IsNested memory-IsJson memory-IsDistinct
            chat v)
    ⊎ Any (IsAbout "InferenceService" "chat") back.0
restore_namespace-IsRecalled_example =
    restore_namespace-IsRecalled memory helpers-IsUnstructured helpers-IsNested memory-IsJson
      memory-IsDistinct service_view services-IsLawful workloads_apart_of_services
      (λ ns n. store-LeavesAlone _ _ _ _ _ (λ xs m. refl))
      (λ ns n. store-LeavesAlone _ _ _ _ _ (λ xs m. refl))
      (λ ns n. pods-LeavesAlone _ (λ xs m. refl)) "team" "chat" team chat chat_found chat_fresh

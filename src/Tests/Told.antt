-- ===== src/Tests/Told.antt =====
-- The whole enforcement at the namespace `team`, as the Deployments see it.
use gpu_budget_operator.Base.{ℕ, String, Option, ◌≢◌, refl}
use gpu_budget_operator.Objects.{Workload, ScaleKind, deployment, stateful_set, replica_set}
use gpu_budget_operator.Enforce.Namespace.{enforce_namespace}
use gpu_budget_operator.Enforce.Namespace.Frame.{LeavesAlone}
use gpu_budget_operator.Enforce.Namespace.Telling.{IsTold}
use gpu_budget_operator.Enforce.Namespace.Told.{Acted, Acted_final, enforce_namespace-IsTold}
use gpu_budget_operator.Enforce.Scale.Enforced.{IsReport}
use gpu_budget_operator.Tests.Store.Laws.{store-LeavesAlone}
use gpu_budget_operator.Tests.Memory.{
  pods-LeavesAlone, Memory, memory, workload_view, workloads-IsLawful,
}
use gpu_budget_operator.Tests.Data.{team}

abbrev pub view : String → Memory → String → Option (Workload ℕ)
view = workload_view deployment

pub others_apart :
    (j : ScaleKind)
    → j ≢ deployment
    → (ns n : String) → LeavesAlone (memory.workloads j) (λ m. view ns m n)
others_apart deployment h ns n = absurd (h refl)
others_apart stateful_set h ns n = store-LeavesAlone _ _ _ _ _ (λ xs m. refl)
others_apart replica_set h ns n = store-LeavesAlone _ _ _ _ _ (λ xs m. refl)

pub jobs_apart : (ns n : String) → LeavesAlone memory.jobs (λ m. view ns m n)
jobs_apart ns n = store-LeavesAlone _ _ _ _ _ (λ xs m. refl)

pub job_sets_apart : (ns n : String) → LeavesAlone memory.job_sets (λ m. view ns m n)
job_sets_apart ns n = store-LeavesAlone _ _ _ _ _ (λ xs m. refl)

pub services_apart : (ns n : String) → LeavesAlone memory.inference_services (λ m. view ns m n)
services_apart ns n = store-LeavesAlone _ _ _ _ _ (λ xs m. refl)

pub pods_apart : (ns n : String) → LeavesAlone memory.pods (λ m. view ns m n)
pods_apart ns n = pods-LeavesAlone _ (λ xs m. refl)

enforce_namespace-IsTold_example :
    IsTold view
      (Acted memory deployment view
        (workloads-IsLawful deployment)
        others_apart
        jobs_apart
        job_sets_apart
        services_apart
        pods_apart)
      (IsReport memory deployment)
      (Acted_final memory deployment view
        (workloads-IsLawful deployment)
        others_apart
        jobs_apart
        job_sets_apart
        services_apart
        pods_apart)
      "team"
      team
      (enforce_namespace memory "team" team).state
      (enforce_namespace memory "team" team).resources
      "trainer"
enforce_namespace-IsTold_example =
    enforce_namespace-IsTold memory deployment view (workloads-IsLawful deployment) others_apart
      jobs_apart job_sets_apart services_apart pods_apart "team" team "trainer"

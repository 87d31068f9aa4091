-- ===== src/Tests/Reset.antt =====
-- Enforcing and resetting the namespace `team`, as the Deployments see it.
use gpu_budget_operator.Tests.Store.{find}
use gpu_budget_operator.Base.{
  string_dec, ℕ, List, some, [], ◌∷◌, ◌≡◌, refl, ◌⊎◌, inl, inr, arith, Any,
}
use gpu_budget_operator.Objects.{Workload, EnforcedResource, deployment}
use gpu_budget_operator.Enforce.Report.{resource}
use gpu_budget_operator.Enforce.Scale.{scaled_to_zero}
use gpu_budget_operator.Enforce.Scale.Restored.{IsRestored}
use gpu_budget_operator.Enforce.Namespace.{enforce_namespace, restore_namespace}
use gpu_budget_operator.Enforce.Namespace.Entries.{IsAbout}
use gpu_budget_operator.Enforce.Namespace.Attempted.{
  restore_namespace-IsRestored, restore_namespace-enforce_namespace,
}
use gpu_budget_operator.Tests.Memory.{Memory, memory, workloads-IsLawful}
use gpu_budget_operator.Tests.Told.{
  view, others_apart, jobs_apart, job_sets_apart, services_apart, pods_apart,
}
use gpu_budget_operator.Tests.Data.{trainer, team}

-- `team` with the trainer scaled to zero.
abbrev stopped : Memory
unfolding scaled_to_zero
stopped = record team { deployments = scaled_to_zero memory trainer ∷ [] }

-- A Job that is not stored, and the trainer.
abbrev entries : List EnforcedResource
entries =
    resource "batch/v1" "Job" "gone" "Suspended" 1000
    ∷ resource "apps/v1" "Deployment" "trainer" "ScaledToZero" 1000
    ∷ []

restore_namespace-IsRestored_example :
    ((v : Workload ℕ) × (view "team" (restore_namespace memory "team" entries stopped).1 "trainer"
        ≡ some v)
      × IsRestored memory trainer v)
    ⊎ Any (IsAbout "Deployment" "trainer") (restore_namespace memory "team" entries stopped).0
unfolding find stopped string_dec
restore_namespace-IsRestored_example =
    restore_namespace-IsRestored memory deployment view (workloads-IsLawful deployment) others_apart
      jobs_apart job_sets_apart services_apart pods_apart "team" "trainer" stopped trainer entries
      (inr (inl (refl, refl))) refl (omega arith)

restore_namespace-enforce_namespace_example :
    let run = enforce_namespace memory "team" team in
    let back = restore_namespace memory "team" run.resources run.state in
    (view "team" run.state "trainer" ≡ some trainer)
    ⊎ ((v : Workload ℕ) × (view "team" back.1 "trainer" ≡ some v) × IsRestored memory trainer v)
    ⊎ Any (IsAbout "Deployment" "trainer") back.0
unfolding find string_dec
restore_namespace-enforce_namespace_example =
    restore_namespace-enforce_namespace memory deployment view (workloads-IsLawful deployment)
      others_apart jobs_apart job_sets_apart services_apart pods_apart "team" "trainer" team trainer
      refl (omega arith)

-- ===== src/Enforce/Jobs.antt =====
-- `enforceJobs` and `restoreJob`.
pub mod Suspended
use gpu_budget_operator.Base.{
  ℕ, String, ◌<>◌, Bool, true, false, not, ◌||◌, Option, none, some, Result, ok, ◌==◌,
}
use gpu_budget_operator.Base.Dict.{read}
use gpu_budget_operator.Objects.{Job}
use gpu_budget_operator.Cluster.{Cluster}
use gpu_budget_operator.Enforce.Gpu.{pod_template_requests_gpu}
use gpu_budget_operator.Enforce.Report.{Error, client, wrapped, Outcome, resource, suspended_action}
use gpu_budget_operator.Enforce.Pass.{Marker, pass}
use gpu_budget_operator.Enforce.Restore.{Restorer, restore}
use gpu_budget_operator.Enforce.Scale.{is_owned, annotate, unannotate}

-- `AnnotationOriginalSuspend`
abbrev pub annotation_original_suspend : String
annotation_original_suspend = "gpubudget.io/original-suspend"

-- `Spec.Suspend != nil && *Spec.Suspend`
abbrev pub is_suspended : Option Bool → Bool
is_suspended none = false
is_suspended (some b) = b

module _ (c : Cluster) where
  open c use {State, Err, Quantity, is_not_found, jobs, now}

  unfoldable pub skips_job : Job Quantity → Bool
  skips_job j =
      is_owned j.meta || (is_suspended j.suspend || not (pod_template_requests_gpu c j.template))

  unfoldable pub suspended : Job Quantity → Job Quantity
  suspended j = record j {
    meta = annotate annotation_original_suspend "false" j.meta;
    suspend = some true;
  }

  abbrev pub job_marker : Marker State Err (Job Quantity)
  job_marker = record {
    api = jobs;
    name = λ j. j.meta.name;
    namespace = λ j. j.meta.namespace;
    list_failed = λ ns e. some (wrapped ("listing jobs in " <> ns) (client e));
    skips = skips_job;
    mark = λ ns j. ok (suspended j);
    update_failed = λ ns j e. wrapped ("suspending job " <> ns <> "/" <> j.meta.name) (client e);
    report = λ name t. resource "batch/v1" "Job" name suspended_action t;
    now = now;
  }

  unfoldable pub enforce_jobs : String → State → Outcome Err State
  enforce_jobs = pass job_marker

  -- The object that a restore sends, from the suspension that the annotation keeps.
  unfoldable pub resumed : Bool → Job Quantity → Job Quantity
  resumed original j = record j {
    meta = unannotate annotation_original_suspend j.meta;
    suspend = some original;
  }

  unfoldable pub recover_job : Job Quantity → Option (Result (Error Err) (Job Quantity))
  recover_job j = elim (read annotation_original_suspend j.meta.annotations) [
    | none ↦ none
    | some raw ↦ some (ok (resumed (raw == "true") j))
  ]

  abbrev pub job_restorer : Restorer State Err (Job Quantity)
  job_restorer = record { api = jobs; is_not_found = is_not_found; recover = λ ns j. recover_job j }

  unfoldable pub restore_job : String → String → State → Option (Error Err) × State
  restore_job = restore job_restorer

-- ===== src/Tests/Scale.antt =====
-- The theorems on scaled workloads at the namespace `team`.
use gpu_budget_operator.Fmt.{sscanf_d}
use gpu_budget_operator.Enforce.Restore.{restore_found, restore}
use gpu_budget_operator.Base.Dict.{make, insert, read}
use gpu_budget_operator.Enforce.Gpu.{pod_template_requests_gpu}
use gpu_budget_operator.Tests.Store.{answer, find, send, listed}
use gpu_budget_operator.Enforce.Pass.{mark_loop, pass}
use mathlib.Core.Option
use gpu_budget_operator.Base.{string_dec, ℕ, String, Option, some, ◌≡◌, refl, [], ◌∷◌}
use gpu_budget_operator.Objects.{Workload, deployment}
use gpu_budget_operator.Enforce.Scale.{
  recover_replicas, skips, scaled_to_zero, enforce_workloads, restore_workload, annotate,
  annotation_original_replicas,
}
use gpu_budget_operator.Enforce.Scale.Enforced.{settled, enforce_workloads-settled}
use gpu_budget_operator.Enforce.Scale.Answered.{IsAnswered, restore_workload-IsAnswered}
use gpu_budget_operator.Enforce.Report.{bad_annotation}
use gpu_budget_operator.Base.Int.{pos}
use gpu_budget_operator.Tests.Memory.{Memory, memory, workload_view, workloads-IsLawful}
use gpu_budget_operator.Tests.Data.{named, trainer, team}

abbrev view : String → Memory → String → Option (Workload ℕ)
view = workload_view deployment

abbrev after : Memory
after = (enforce_workloads memory deployment "team" team).state

-- `team` with the trainer scaled to zero.
abbrev stopped : Memory
unfolding scaled_to_zero
stopped = record team { deployments = scaled_to_zero memory trainer ∷ [] }

-- An annotation that does not parse.
abbrev unreadable : Workload ℕ
unreadable = record trainer {
  meta = annotate annotation_original_replicas "three" (named "trainer");
  replicas = some (pos 0);
}

abbrev broken : Memory
broken = record team { deployments = unreadable ∷ [] }

enforce_workloads-settled_example :
    view "team" after "trainer"
    ≡ Option.map
        (settled memory deployment view (workloads-IsLawful deployment))
        (view "team" team "trainer")
unfolding enforce_workloads pass mark_loop listed string_dec skips pod_template_requests_gpu read
    send find scaled_to_zero
enforce_workloads-settled_example =
    enforce_workloads-settled memory deployment view (workloads-IsLawful deployment) "team" team
      "trainer" refl

restore_workload-IsAnswered_example :
    IsAnswered memory deployment view
      (workloads-IsLawful deployment)
      "team"
      "trainer"
      broken
      unreadable
      (restore_workload memory deployment "team" "trainer" broken)
unfolding find string_dec
restore_workload-IsAnswered_example =
    restore_workload-IsAnswered memory deployment view (workloads-IsLawful deployment) "team"
      "trainer" broken unreadable refl

-- The annotation is no count, so the restore ends in its error.
unreadable_test :
    (restore_workload memory deployment "team" "trainer" broken).0 ≡ some (bad_annotation "three")
unfolding restore_workload restore answer find string_dec recover_replicas read insert make sscanf_d
    restore_found
unreadable_test = refl

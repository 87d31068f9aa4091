-- ===== src/Tests/Budgets.antt =====
-- The theorems on the reconciler at the budget of the namespace `team`.
use gpu_budget_operator.Tests.Store.{answer, find}
use gpu_budget_operator.Base.{string_dec, ℕ, none, some, [], ◌∷◌, ◌≡◌, refl, sym, ◌⊎◌}
use gpu_budget_operator.Budget.{GpuBudgetStatus}
use gpu_budget_operator.Enforce.Report.{resource}
use gpu_budget_operator.Controllers.Merge.{merge_enforced}
use gpu_budget_operator.Controllers.Merge.Keys.{IsMerge, append_nil, merge_enforced-IsMerge}
use gpu_budget_operator.Controllers.Rates.{rate_for}
use gpu_budget_operator.Controllers.Rates.Longest.{IsRate, rate_for-IsRate}
use gpu_budget_operator.Base.{true, ◌≤◌, ◌*◌, ◌/◌}
use gpu_budget_operator.Controllers.Period.{
  weekday, days_of_months, days_of_years, day_of, start_day, month_lengths, find_month,
  nanoseconds_per_day, date_of, find_year, period_start,
}
use gpu_budget_operator.Controllers.Period.Start.{IsStart, period_start-IsStart}
use gpu_budget_operator.Controllers.Usage.{Usage, compute_usage}
use gpu_budget_operator.Controllers.Usage.Priced.{IsChecked, compute_usage-IsChecked}
use gpu_budget_operator.Controllers.Status.{Settings}
use gpu_budget_operator.Controllers.Reconcile.{decide, reconcile}
use gpu_budget_operator.Controllers.Reconcile.Persisted.{IsUnstored, IsDecided, decide-IsDecided}
use gpu_budget_operator.Controllers.Reconcile.Retained.{Retains}
use gpu_budget_operator.Controllers.Reconcile.Reset.{IsRestoredReset, reconcile-Retains}
use gpu_budget_operator.Tests.Memory.{memory}
use gpu_budget_operator.Tests.Host.{whole, host, stored_status, host-IsKept, host-IsApart}
use gpu_budget_operator.Tests.Data.{budget, team}

abbrev pub settings : Settings ℕ
settings = record {
  prometheus_url = "http://prometheus";
  gpu_rates = ("A100", 2) ∷ ("A100-SXM4", 3) ∷ [];
}

abbrev four_hours : Usage whole host.to_upper
four_hours = record {
  total_hours = 4;
  total_dollars = 12;
  usage = record { gpu_type = "A100-SXM4-80GB"; gpu_hours = 4 } ∷ [];
}

merge_enforced-IsMerge_example :
    IsMerge budget.status.enforced_resources
      (resource "batch/v1" "Job" "tuning" "Suspended" 1000 ∷ [])
      (merge_enforced budget.status.enforced_resources
        (resource "batch/v1" "Job" "tuning" "Suspended" 1000 ∷ []))
merge_enforced-IsMerge_example =
    merge_enforced-IsMerge budget.status.enforced_resources
      (resource "batch/v1" "Job" "tuning" "Suspended" 1000 ∷ [])

rate_for-IsRate_example :
    IsRate whole host.to_upper settings.gpu_rates "A100-SXM4-80GB"
      (rate_for whole host.to_upper settings.gpu_rates "A100-SXM4-80GB")
rate_for-IsRate_example = rate_for-IsRate whole host.to_upper settings.gpu_rates "A100-SXM4-80GB"

decide-IsDecided_example :
    IsUnstored memory whole host settings stored_status host-IsKept budget
      (decide memory whole host settings budget 1000 four_hours none team)
    ⊎ ((st : GpuBudgetStatus ℕ) × (stored_status "team" "gpus"
            (decide memory whole host settings budget 1000 four_hours none team).state
          ≡ some st)
        × IsDecided memory whole host settings stored_status host-IsKept budget four_hours team st)
decide-IsDecided_example =
    decide-IsDecided memory whole host settings stored_status host-IsKept budget 1000 four_hours
      none team

reconcile-Retains_example :
    Retains memory whole host settings stored_status host-IsKept budget
      (host-IsApart "team" "gpus")
      (λ url s. refl)
      (λ p q s. refl)
      (reconcile memory whole host settings "team" "gpus" none team).state
    ⊎ IsRestoredReset memory whole host settings stored_status host-IsKept budget
        (host-IsApart "team" "gpus")
        (λ url s. refl)
        (λ p q s. refl)
        team
unfolding answer find string_dec
reconcile-Retains_example =
    reconcile-Retains memory whole host settings stored_status host-IsKept budget
      (host-IsApart "team" "gpus") (λ url s. refl) (λ p q s. refl) none "team" "gpus" team team refl
      (budget.status, refl, ([], sym (append_nil budget.status.enforced_resources)))

-- Half past ten on Wednesday the third of December 2025.
abbrev pub wednesday : ℕ
wednesday = 1764757800000000000

period_start-IsStart_example :
    (period_start "Weekly" wednesday ≤ wednesday)
    × ((start : ℕ) × (period_start "Weekly" wednesday ≡ start * nanoseconds_per_day)
        × IsStart "Weekly" (wednesday / nanoseconds_per_day) start)
period_start-IsStart_example = period_start-IsStart "Weekly" wednesday

date_of_test : date_of 20425 ≡ record { year = 2025; month = 12; day = 3 }
unfolding date_of find_year find_month month_lengths
date_of_test = refl

period_start_test : period_start "Weekly" wednesday ≡ 1764547200000000000
unfolding period_start start_day string_dec day_of days_of_years date_of find_year days_of_months
    find_month month_lengths weekday
period_start_test = refl

compute_usage-IsChecked_example :
    IsChecked whole host.to_upper settings.gpu_rates (("A100-SXM4-80GB", 4) ∷ ("H100", 1) ∷ []) (
      compute_usage whole host.to_upper settings.gpu_rates
        (("A100-SXM4-80GB", 4) ∷ ("H100", 1) ∷ [])
        true)
compute_usage-IsChecked_example =
    compute_usage-IsChecked whole host.to_upper settings.gpu_rates
      (("A100-SXM4-80GB", 4) ∷ ("H100", 1) ∷ [])

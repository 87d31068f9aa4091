-- ===== src/Tests/Usages.antt =====
-- The usage from Prometheus's samples on.
use gpu_budget_operator.Controllers.Rates.{rate_for}
use mathlib.Core.List.{Perm}
use gpu_budget_operator.Base.{
  ok, string_dec, ℕ, String, true, none, List, [], ◌∷◌, ◌≡◌, ◌≢◌, refl, All, ◌==◌, if◌then◌else◌,
}
use gpu_budget_operator.Base.Dict.{Dict, lookup}
use gpu_budget_operator.Base.Dict.Keys.{DistinctKeys}
use gpu_budget_operator.Metrics.{vector, gpu_hours_by_type}
use gpu_budget_operator.Metrics.Sums.{labelled, added, gpu_hours_by_type_sums}
use gpu_budget_operator.Controllers.Usage.{Usage, compute_usage}
use gpu_budget_operator.Controllers.Usage.Sorted.{IsSorted, entries_of, compute_usage-IsSorted}
use gpu_budget_operator.Tests.Host.{whole, host}
use gpu_budget_operator.Tests.Budgets.{settings}

-- Two samples of an A100, one of an H100 and one without a label.
abbrev samples : List (String × ℕ)
samples = ("H100", 1) ∷ ("A100", 2) ∷ ("", 7) ∷ ("A100", 3) ∷ []

gpu_hours_by_type_sums_example :
    (d : Dict ℕ) × (gpu_hours_by_type whole (vector samples) ≡ ok d)
    × ((k : String)
        → lookup k d ≡ (if k == "" then none else added whole none (labelled whole k samples)))
    × All (λ e. e.0 ≢ "") d
    × DistinctKeys d
gpu_hours_by_type_sums_example = gpu_hours_by_type_sums whole samples

gpu_hours_by_type_test :
    gpu_hours_by_type whole (vector samples) ≡ ok (("H100", 1) ∷ ("A100", 5) ∷ [])
unfolding gpu_hours_by_type string_dec
gpu_hours_by_type_test = refl

abbrev hours : Dict ℕ
hours = ("A100-SXM4", 5) ∷ ("A100", 1) ∷ []

abbrev usage : Usage whole host.to_upper
usage = record {
  total_hours = 6;
  total_dollars = 17;
  usage =
      record { gpu_type = "A100"; gpu_hours = 1 }
      ∷ record { gpu_type = "A100-SXM4"; gpu_hours = 5 }
      ∷ [];
}

compute_usage-IsSorted_example :
    IsSorted usage.usage × Perm usage.usage (entries_of whole host.to_upper hours)
unfolding compute_usage rate_for string_dec
compute_usage-IsSorted_example =
    compute_usage-IsSorted whole host.to_upper settings.gpu_rates hours true usage refl

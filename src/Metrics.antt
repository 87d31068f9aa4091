-- ===== src/Metrics.antt =====
-- metrics/prometheus.go: `BuildGPUHoursQuery` and `GPUHoursByType`. The client's `Query` call, the
-- printing of a duration and of a float, and a duration in hours are arguments.
pub mod Transport
pub mod Sums
pub mod Replaced
pub mod Rendered
use gpu_budget_operator.Base.{
  Result, ok, err, ℕ, zero, suc, ◌-◌, String, ◌<>◌, true, false, Option, none, some, List, [], ◌∷◌,
  ltb, ◌==◌, if◌then◌else◌,
}
use gpu_budget_operator.Base.Dict.{Dict, lookup, insert}
use gpu_budget_operator.Budget.{Floats}
use gpu_budget_operator.Controllers.Rates.{length, has_prefix}

abbrev pub namespace_placeholder : String
namespace_placeholder = "__NAMESPACE__"

abbrev pub range_placeholder : String
range_placeholder = "__RANGE__"

abbrev pub range_hours_placeholder : String
range_hours_placeholder = "__RANGE_HOURS__"

abbrev pub nanoseconds_per_minute : ℕ
nanoseconds_per_minute = 60000000000

-- `DefaultGPUHoursQueryTemplate`
abbrev pub default_template : String
default_template =
    "label_replace(\n  sum by (product) (\n    sum_over_time(\n      (\n        kube_pod_resource_request{resource=~\"nvidia.com/.+\", exported_namespace=\"__NAMESPACE__\"}\n        * on(node) group_left(product) label_replace(kube_node_labels, \"product\", \"$1\", \"label_nvidia_com_gpu_product\", \"(.+)\")\n      )[__RANGE__:5m]\n    ) * (5.0/60)\n  ),\n  \"gpuType\", \"$1\", \"product\", \"NVIDIA-(.+)\"\n)"

-- `skip` characters of a match are still to be passed over.
unfoldable pub replace_from : String → String → ℕ → String → String
unfolding has_prefix length
replace_from old new skip String.[] = ""
replace_from old new (suc skip) (String.◌∷◌ c s) = replace_from old new skip s
replace_from old new zero (String.◌∷◌ c s) = elim (has_prefix old (String.◌∷◌ c s)) [
  | true ↦ new <> replace_from old new (length old - 1) s
  | false ↦ String.◌∷◌ c (replace_from old new zero s)
]

-- `strings.ReplaceAll(s, old, new)` of an `old` that is not empty.
unfoldable pub replace_all : String → String → String → String
unfolding replace_from
replace_all s old new = replace_from old new zero s

module _ (print_duration print_hours : ℕ → String) where
  abbrev pub clamped : ℕ → ℕ
  clamped elapsed = if ltb elapsed nanoseconds_per_minute then nanoseconds_per_minute else elapsed

  unfoldable pub build_gpu_hours_query : String → String → ℕ → String
  unfolding replace_all
  build_gpu_hours_query template namespace elapsed =
      let chosen = if template == "" then default_template else template in
      let named = replace_all chosen namespace_placeholder namespace in
      let ranged = replace_all named range_placeholder (print_duration (clamped elapsed)) in
      replace_all ranged range_hours_placeholder (print_hours (clamped elapsed))

-- A `model.Value`: a vector of samples, each with its `gpuType` label, "" without one; or another type.
pub data QueryValue (F : Type 0) : Type 0 where
  vector : List (String × F) → QueryValue F
  other_value : String → QueryValue F  -- with the name of its type

module _ (fl : Floats) where
  -- `hoursByType[gpuType] += v`
  unfoldable pub add_hours : String → fl.F → Dict fl.F → Dict fl.F
  unfolding lookup insert
  add_hours k v d = elim (lookup k d) [
    | none ↦ insert k (fl.add fl.nought v) d
    | some w ↦ insert k (fl.add w v) d
  ]

  unfoldable pub sum_samples : List (String × fl.F) → Dict fl.F → Dict fl.F
  unfolding add_hours
  sum_samples [] d = d
  sum_samples ((gpu_type, v) ∷ samples) d = elim (gpu_type == "") [
    | true ↦ sum_samples samples d
    | false ↦ sum_samples samples (add_hours gpu_type v d)
  ]

  -- `none` is the error of an unexpected result type.
  unfoldable pub gpu_hours_by_type : QueryValue fl.F → Result String (Dict fl.F)
  unfolding sum_samples
  gpu_hours_by_type (vector samples) = ok (sum_samples samples [])
  gpu_hours_by_type (other_value kind) = err kind

-- ===== src/Budget.antt =====
-- v1alpha1/gpubudget_types.go: the GpuBudget with its spec and status. The named string types keep
-- their strings, a pointer is an Option, and a time is in nanoseconds since 1970 UTC.
use gpu_budget_operator.Base.{ℕ, String, Bool, Option, List}
use gpu_budget_operator.Base.Int.{ℤ}
use gpu_budget_operator.Base.Dict.{Dict}
use gpu_budget_operator.Objects.{EnforcedResource}

-- Go's float64, with the operations that the code applies to it.
pub record Floats : Type 1 where
  pub F : Type 0
  pub nought : F
  pub hundred : F
  pub add : F → F → F
  pub times : F → F → F
  pub over : F → F → F
  pub round : F → F
  -- `a > b` and `a <= b`, which are not each other's negation at a NaN.
  pub gt : F → F → Bool
  pub le : F → F → Bool

-- `ResetAnnotation`
abbrev pub reset_annotation : String
reset_annotation = "gpubudget.io/reset"

abbrev pub period_daily : String
period_daily = "Daily"

abbrev pub period_weekly : String
period_weekly = "Weekly"

abbrev pub period_monthly : String
period_monthly = "Monthly"

abbrev pub phase_compliant : String
phase_compliant = "Compliant"

abbrev pub phase_enforced : String
phase_enforced = "Enforced"

abbrev pub phase_unknown : String
phase_unknown = "Unknown"

-- `check_interval` is a Duration: nanoseconds, with a sign.
pub record GpuBudgetSpec (F : Type 0) : Type 0 where
  pub period : String
  pub gpu_hours_limit : Option F
  pub dollars_limit : Option F
  pub query : String
  pub check_interval : ℤ

pub record GpuTypeUsage (F : Type 0) : Type 0 where
  pub gpu_type : String
  pub gpu_hours : F

-- `metav1.Condition`, with the fields that the code sets.
pub record Condition : Type 0 where
  pub type : String
  pub status : String
  pub reason : String
  pub message : String

pub record GpuBudgetStatus (F : Type 0) : Type 0 where
  pub current_period_start : Option ℕ
  pub gpu_hours_used : F
  pub gpu_hours_by_type : List (GpuTypeUsage F)
  pub dollars_used : F
  pub phase : String
  pub last_checked_time : Option ℕ
  pub last_enforcement_time : Option ℕ
  pub enforced_resources : List EnforcedResource
  pub observed_generation : ℕ
  pub conditions : List Condition

-- With the metadata that the code reads or sets.
pub record GpuBudget (F : Type 0) : Type 0 where
  pub name : String
  pub namespace : String
  pub annotations : Option (Dict String)
  pub generation : ℕ
  pub resource_version : String
  pub spec : GpuBudgetSpec F
  pub status : GpuBudgetStatus F

-- ===== src/Controllers/Status.antt =====
-- What a reconcile writes into a GpuBudget: the reconciler's settings and intervals, its error, and
-- the statuses that `Reconcile`, `markFailed` and `handleManualReset` set.
use gpu_budget_operator.Base.{
  ℕ, zero, suc, String, Bool, true, false, ◌||◌, Option, none, some, List, [], ◌∷◌, if◌then◌else◌,
}
use gpu_budget_operator.Base.Int.{ℤ, pos, negsuc}
use gpu_budget_operator.Base.Dict.{Dict, remove}
use gpu_budget_operator.Objects.{EnforcedResource}
use gpu_budget_operator.Budget.{
  Floats, GpuBudgetSpec, Condition, GpuBudgetStatus, GpuBudget, reset_annotation, phase_compliant,
  phase_enforced, phase_unknown,
}
use gpu_budget_operator.Cluster.{Cluster}
use gpu_budget_operator.Enforce.Report.{Error}
use gpu_budget_operator.Controllers.Merge.{merge_enforced}
use gpu_budget_operator.Controllers.Period.{period_start}
use gpu_budget_operator.Controllers.Usage.{Usage, round_to_hundredths, round_usage_by_type}
use gpu_budget_operator.Controllers.Host.{Host}

-- `15*time.Minute` and `30 * time.Second`
abbrev pub default_interval : ℕ
default_interval = 900000000000

abbrev pub retry_interval : ℕ
retry_interval = 30000000000

-- `durationOrDefault`
unfoldable pub duration_or_default : ℤ → ℕ → ℕ
duration_or_default (pos zero) fallback = fallback
duration_or_default (pos (suc n)) fallback = suc n
duration_or_default (negsuc n) fallback = fallback

-- What `Reconcile` returns as its error.
pub data Failure (E : Type 0) : Type 0 where
  one : Error E → Failure E
  joined : String → List (Error E) → Failure E

pub record Settings (F : Type 0) : Type 0 where
  pub prometheus_url : String
  pub gpu_rates : Dict F

-- `condition` of type Ready.
abbrev pub ready : Bool → String → String → Condition
ready b reason text = record {
  type = "Ready";
  status = if b then "True" else "False";
  reason = reason;
  message = text;
}

module _ (c : Cluster) (fl : Floats) (h : Host c fl) (r : Settings fl.F) where
  open c use {State, Err}
  open fl use {F}

  abbrev pub without_reset : GpuBudget F → GpuBudget F
  without_reset gb = record gb { annotations = remove reset_annotation gb.annotations }

  -- The status after a reset, set on what the server sent back.
  abbrev pub cleared : GpuBudget F → GpuBudget F
  cleared gb = record gb {
    status = record gb.status {
      enforced_resources = [];
      phase = phase_compliant;
      last_enforcement_time = none;
    };
  }

  -- The object that `markFailed` sends.
  unfoldable pub failed : GpuBudget F → String → Error Err → GpuBudget F
  failed gb reason cause = record gb {
    status = record gb.status {
      phase = phase_unknown;
      conditions =
          h.set_status_condition gb.status.conditions (ready false reason (h.error_text cause));
    };
  }

  abbrev pub exceeded : F → Option F → Bool
  exceeded used none = false
  exceeded used (some limit) = fl.gt used limit

  unfoldable pub over_budget : GpuBudgetSpec F → Usage fl h.to_upper → Bool
  over_budget spec u =
      exceeded u.total_hours spec.gpu_hours_limit || exceeded u.total_dollars spec.dollars_limit

  -- `len(gb.Status.EnforcedResources) > 0`
  abbrev pub sticky : List EnforcedResource → Bool
  sticky [] = false
  sticky (x ∷ xs) = true

  -- The status with this pass's usage.
  unfoldable pub measured : GpuBudget F → ℕ → Usage fl h.to_upper → GpuBudgetStatus F
  unfolding round_to_hundredths round_usage_by_type period_start
  measured gb now u = record gb.status {
    current_period_start = some (period_start gb.spec.period now);
    gpu_hours_used = round_to_hundredths fl h.to_upper u.total_hours;
    gpu_hours_by_type = round_usage_by_type fl h.to_upper u.usage;
    dollars_used = round_to_hundredths fl h.to_upper u.total_dollars;
    last_checked_time = some now;
    observed_generation = gb.generation;
  }

  -- The enforcement branch: the merged resources, the time of the last action, the phase.
  unfoldable pub enforced_status : GpuBudgetStatus F → ℕ → List EnforcedResource → GpuBudgetStatus F
  unfolding merge_enforced
  enforced_status st now acted = record st {
    enforced_resources = merge_enforced st.enforced_resources acted;
    last_enforcement_time = if sticky acted then some now else st.last_enforcement_time;
    phase = phase_enforced;
  }

  unfoldable pub with_condition :
      GpuBudgetStatus F → Usage fl h.to_upper → List (Error Err) → GpuBudgetStatus F
  with_condition st u errors = record st {
    conditions = h.set_status_condition st.conditions (elim errors [
      | e ∷ es ↦ ready false "EnforcementFailed" (h.joined_text (e ∷ es))
      | [] ↦ ready true "UsageEvaluated" (h.print_usage u.total_hours u.total_dollars st.phase)
    ]);
  }

  abbrev pub needs_dollars : Option F → Bool
  needs_dollars none = false
  needs_dollars (some limit) = true

-- ===== src/Controllers/Host.antt =====
-- What the reconciler uses beside the cluster: the client at GpuBudgets, the Prometheus client, the
-- retry helper, the setter of conditions and the printing of texts. The metrics client's own
-- transport is part of `new_client`.
use gpu_budget_operator.Base.{ℕ, String, List, Result}
use gpu_budget_operator.Budget.{Floats, Condition, GpuBudget}
use gpu_budget_operator.Cluster.{Cluster}
use gpu_budget_operator.Enforce.Report.{Error}
use gpu_budget_operator.Metrics.{QueryValue}

module _ (c : Cluster) (fl : Floats) where
  pub record Host : Type 1 where
    pub Client : Type 0
    pub new_client : String → c.State → Result (Error c.Err) Client × c.State
    pub query : Client → String → c.State → Result c.Err (QueryValue fl.F) × c.State
    pub get : String → String → c.State → Result c.Err (GpuBudget fl.F) × c.State
    pub update : GpuBudget fl.F → c.State → Result c.Err (GpuBudget fl.F) × c.State
    pub update_status : GpuBudget fl.F → c.State → Result c.Err (GpuBudget fl.F) × c.State
    -- `retry.RetryOnConflict(retry.DefaultRetry, f)` of an `f` that leaves a resource version.
    pub retry_on_conflict :
        (c.State → Result c.Err String × c.State) → c.State → Result c.Err String × c.State
    pub set_status_condition : List Condition → Condition → List Condition
    -- `Error()` of an error, and of a joined one.
    pub error_text : Error c.Err → String
    pub joined_text : List (Error c.Err) → String
    pub print_usage : fl.F → fl.F → String → String
    -- The text that `%q` gives.
    pub quote : String → String
    pub print_duration : ℕ → String
    pub print_hours : ℕ → String
    pub to_upper : String → String

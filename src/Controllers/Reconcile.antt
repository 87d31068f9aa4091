-- ===== src/Controllers/Reconcile.antt =====
-- `Reconcile` and the methods that it calls. The reconciler's fields are `Settings` and the cached
-- Prometheus client, which is passed along.
pub mod Branches
pub mod Persisted
pub mod Stored
pub mod Retained
pub mod Reset
pub mod Standing
pub mod Requeue
use gpu_budget_operator.Base.{
  ℕ, zero, suc, ◌-◌, ◌*◌, String, ◌<>◌, Bool, true, false, ◌||◌, Option, none, some, List, [], ◌∷◌,
  Result, ok, err, ◌==◌, if◌then◌else◌,
}
use gpu_budget_operator.Base.Int.{ℤ, pos, negsuc}
use gpu_budget_operator.Base.Dict.{Dict, read, remove}
use gpu_budget_operator.Objects.{EnforcedResource}
use gpu_budget_operator.Budget.{
  Floats, GpuBudgetSpec, GpuTypeUsage, Condition, GpuBudgetStatus, GpuBudget, reset_annotation,
  phase_compliant, phase_enforced, phase_unknown,
}
use gpu_budget_operator.Cluster.{Cluster}
use gpu_budget_operator.Metrics.{QueryValue, build_gpu_hours_query, gpu_hours_by_type}
use gpu_budget_operator.Enforce.Report.{Error, client, message, wrapped}
use gpu_budget_operator.Enforce.Namespace.{Run, enforce_namespace, restore_namespace}
use gpu_budget_operator.Controllers.Merge.{merge_enforced}
use gpu_budget_operator.Controllers.Period.{period_start}
use gpu_budget_operator.Controllers.Usage.{
  Usage, compute_usage, round_to_hundredths, round_usage_by_type,
}
use gpu_budget_operator.Controllers.Host.{Host}
use gpu_budget_operator.Controllers.Status.{
  default_interval, retry_interval, duration_or_default, Failure, Settings, ready, one, joined,
  failed, exceeded, over_budget, sticky, measured, enforced_status, with_condition, without_reset,
  cleared, needs_dollars,
}

module _ (c : Cluster) (fl : Floats) (h : Host c fl) (r : Settings fl.F) where
  open c use {State, Err}
  open fl use {F}

  -- A reconcile's end: the error or `RequeueAfter`, and what is left outside and cached.
  pub record Reconciled : Type 0 where
    pub result : Result (Failure Err) ℕ
    pub state : State
    pub prom_client : Option h.Client

  -- `prometheusClient`
  unfoldable pub prometheus_client : Option h.Client → State → Result (Error Err) h.Client × State
  prometheus_client cached s =
      if r.prometheus_url == ""
      then (
        err (message "no prometheus URL configured: set the operator's --prometheus-url flag"),
        s,
      )
      else elim cached [ some p ↦ (ok p, s) | none ↦ h.new_client r.prometheus_url s ]

  -- The closure that `persistStatus` retries.
  unfoldable pub persist_attempt : GpuBudget F → State → Result Err String × State
  persist_attempt gb s =
      let (got, s') = h.get gb.namespace gb.name s in
      elim got [
        | err e ↦ (err e, s')
        | ok latest ↦
            let (sent, s'') = h.update_status (record latest { status = gb.status }) s' in
            elim sent [ err e ↦ (err e, s'') | ok stored ↦ (ok stored.resource_version, s'') ]
      ]

  unfoldable pub persist_status : GpuBudget F → State → Option Err × State
  unfolding persist_attempt
  persist_status gb s =
      let (done, s') = h.retry_on_conflict (persist_attempt gb) s in
      elim done [ err e ↦ (some e, s') | ok version ↦ (none, s') ]

  unfoldable pub handle_manual_reset :
      GpuBudget F → State → Result (Failure Err) (GpuBudget F) × State
  handle_manual_reset gb s =
      let (errors, s') = restore_namespace c gb.namespace gb.status.enforced_resources s in
      elim errors [
        | e ∷ es ↦ (
          err (joined ("restoring namespace " <> gb.namespace <> " during manual reset") (e ∷ es)),
          s',
        )
        | [] ↦
            let (sent, s'') = h.update (without_reset c fl h r gb) s' in
            elim sent [
              | err e ↦ (
                err (
                    one (
                      wrapped ("clearing reset annotation for " <> gb.namespace <> "/" <> gb.name)
                        (client e))),
                s'',
              )
              | ok gb' ↦ (ok (cleared c fl h r gb'), s'')
            ]
      ]

  unfoldable pub mark_failed :
      GpuBudget F → String → Error Err → Option h.Client → State → Reconciled
  unfolding failed
  mark_failed gb reason cause p s =
      let (sent, s') = h.update_status (failed c fl h r gb reason cause) s in
      record {
        result = elim sent [
          | err e ↦ err (one (wrapped ("updating status after " <> reason) (client e)))
          | ok _ ↦ ok retry_interval
        ];
        state = s';
        prom_client = p;
      }

  -- From the persisting of the status to the end.
  unfoldable pub finish : GpuBudget F → List (Error Err) → Option h.Client → State → Reconciled
  unfolding persist_status duration_or_default
  finish gb errors p s =
      let (e, s') = persist_status gb s in
      record {
        result = elim e [
          | some e ↦
              err (
                one (wrapped ("updating status for " <> gb.namespace <> "/" <> gb.name) (client e)))
          | none ↦ elim errors [
            | x ∷ xs ↦ err (joined ("enforcing budget in namespace " <> gb.namespace) (x ∷ xs))
            | [] ↦ ok (duration_or_default gb.spec.check_interval default_interval)
          ]
        ];
        state = s';
        prom_client = p;
      }

  -- From the comparison with the limits on.
  unfoldable pub decide :
      GpuBudget F → ℕ → Usage fl h.to_upper → Option h.Client → State → Reconciled
  unfolding finish over_budget measured enforced_status with_condition
  decide gb now u p s =
      let st = measured c fl h r gb now u in
      elim (over_budget c fl h r gb.spec u || sticky c fl h r st.enforced_resources) [
        | true ↦
            let run = enforce_namespace c gb.namespace s in
            finish
              (record gb {
                status =
                    with_condition c fl h r (enforced_status c fl h r st now run.resources) u
                      run.errors;
              })
              run.errors p run.state
        | false ↦
            finish
              (record gb {
                status = with_condition c fl h r (record st { phase = phase_compliant }) u [];
              })
              [] p s
      ]

  -- From the pricing of the usage on.
  unfoldable pub priced :
      GpuBudget F → ℕ → h.Client → State → Result String (Usage fl h.to_upper) → Reconciled
  unfolding mark_failed decide
  priced gb now p s (err gpu_type) =
      mark_failed gb "UnpricedGPUType"
        (message (
          "namespace "
          <> gb.namespace
          <> " used unpriced GPU type "
          <> h.quote gpu_type
          <> ": set the operator's --gpu-rate=<family>=<usd> flag for its GPU family"))
        (some p) s
  priced gb now p s (ok u) = decide gb now u (some p) s

  unfoldable pub counted :
      GpuBudget F → ℕ → h.Client → String → State → Result String (Dict F) → Reconciled
  unfolding mark_failed priced compute_usage
  counted gb now p query s (err kind) =
      mark_failed gb "MetricsQueryFailed"
        (message (
          "unexpected prometheus result type "
          <> kind
          <> " for query "
          <> h.quote query
          <> " (expected vector)"))
        (some p) s
  counted gb now p query s (ok hours) =
      priced gb now p s (
        compute_usage fl h.to_upper r.gpu_rates hours
          (needs_dollars c fl h r gb.spec.dollars_limit))

  -- From Prometheus's answer on.
  unfoldable pub answered :
      GpuBudget F → ℕ → h.Client → String → Result Err (QueryValue F) × State → Reconciled
  unfolding mark_failed counted gpu_hours_by_type
  answered gb now p query (err e, s) =
      mark_failed gb "MetricsQueryFailed" (wrapped "querying prometheus" (client e)) (some p) s
  answered gb now p query (ok v, s) = counted gb now p query s (gpu_hours_by_type fl v)

  abbrev pub query_of : GpuBudget F → ℕ → String
  unfolding build_gpu_hours_query period_start
  query_of gb now =
      build_gpu_hours_query h.print_duration h.print_hours gb.spec.query gb.namespace
        (now - period_start gb.spec.period now)

  -- From the Prometheus client on.
  unfoldable pub connected :
      GpuBudget F → Option h.Client → Result (Error Err) h.Client × State → Reconciled
  unfolding mark_failed answered
  connected gb cached (err e, s) = mark_failed gb "PrometheusClientError" e cached s
  connected gb cached (ok p, s) =
      let query = query_of gb (c.now s) in answered gb (c.now s) p query (h.query p query s)

  unfoldable pub evaluate : GpuBudget F → Option h.Client → State → Reconciled
  unfolding prometheus_client connected
  evaluate gb cached s = connected gb cached (prometheus_client cached s)

  -- `gb.Annotations[ResetAnnotation] == "true"`
  unfoldable pub wants_reset : GpuBudget F → Bool
  wants_reset gb = elim (read reset_annotation gb.annotations) [
    | none ↦ false
    | some v ↦ v == "true"
  ]

  -- What follows a reset.
  unfoldable pub after_reset :
      Option h.Client → Result (Failure Err) (GpuBudget F) × State → Reconciled
  unfolding evaluate
  after_reset cached (err e, s) = record { result = err e; state = s; prom_client = cached }
  after_reset cached (ok gb, s) = evaluate gb cached s

  -- What follows the reading of the budget.
  unfoldable pub found : Option h.Client → Result Err (GpuBudget F) × State → Reconciled
  unfolding handle_manual_reset evaluate wants_reset after_reset
  found cached (err e, s) = record {
    result = if c.is_not_found e then ok 0 else err (one (client e));
    state = s;
    prom_client = cached;
  }
  found cached (ok gb, s) = elim (wants_reset gb) [
    | false ↦ evaluate gb cached s
    | true ↦ after_reset cached (handle_manual_reset gb s)
  ]

  unfoldable pub reconcile : String → String → Option h.Client → State → Reconciled
  unfolding found
  reconcile ns n cached s = found cached (h.get ns n s)

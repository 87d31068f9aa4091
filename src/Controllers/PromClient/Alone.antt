-- ===== src/Controllers/PromClient/Alone.antt =====
-- A call of `prometheusClient` that nobody meets, step by step, beside the whole function.
use gpu_budget_operator.Base.{
  ℕ, zero, suc, false, Option, none, some, Result, ok, err, ◌≡◌, arith, inl, inr, Bool-cases,
  Call-cases, ◌==◌,
}
use gpu_budget_operator.Budget.{Floats}
use gpu_budget_operator.Cluster.{Cluster}
use gpu_budget_operator.Enforce.Report.{Error}
use gpu_budget_operator.Controllers.Host.{Host}
use gpu_budget_operator.Controllers.Status.{Settings}
use gpu_budget_operator.Controllers.Reconcile.{prometheus_client}
use gpu_budget_operator.Controllers.PromClient.{starting, returned, Place, Memory, step}

module _ (c : Cluster) (fl : Floats) (h : Host c fl) (r : Settings fl.F) where
  -- The next steps of one caller, as many as the fuel, until it returns or has to wait.
  unfoldable pub alone : ℕ → Memory c fl h r → Place c fl h r → Memory c fl h r × Place c fl h r
  alone zero m p = (m, p)
  alone (suc fuel) m (returned result) = (m, returned result)
  alone (suc fuel) m p = elim (step c fl h r m p) [
    | none ↦ (m, p)
    | some (m', p') ↦ alone fuel m' p'
  ]

  -- The client that is cached after a call.
  abbrev pub cached_after : Option h.Client → Result (Error c.Err) h.Client → Option h.Client
  cached_after cached (ok p) = some p
  cached_after cached (err e) = cached

  -- A call that nobody meets returns after at most six steps what the whole function returns, has
  -- freed the mutex, and leaves a client cached exactly when there was one or one was made.
  pub alone-prometheus_client :
      (cached : Option h.Client) (s : c.State)
      → let (result, s') = prometheus_client c fl h r cached s in
        alone 6 (record { locked = false; prom_client = cached; outside = s }) starting ≡ (
          record { locked = false; prom_client = cached_after cached result; outside = s' },
          returned result,
        )
  unfolding alone step prometheus_client
  alone-prometheus_client cached s = elim (Bool-cases (r.prometheus_url == "")) [
    | inl u ↦ ground (arith, u)
    | inr u ↦ go u cached
  ]
    where
      go :
          (r.prometheus_url == "") ≡ false
          → (o : Option h.Client)
          → let (result, s') = prometheus_client c fl h r o s in
            alone 6 (record { locked = false; prom_client = o; outside = s }) starting ≡ (
              record { locked = false; prom_client = cached_after o result; outside = s' },
              returned result,
            )
      go u none = elim (Call-cases (h.new_client r.prometheus_url s)) [
        | inl (p, s', e) ↦ ground (arith, u, e)
        | inr (x, s', e) ↦ ground (arith, u, e)
      ]
      go u (some p) = ground (arith, u)

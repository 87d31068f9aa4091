-- ===== src/Controllers/PromClient.antt =====
-- `prometheusClient` of controllers/gpubudget-controller.go under reconciles that run at the same
-- time: the mutex `promClientMu` and the client behind it. A reconcile takes one step at a time, and
-- anything outside may change between two steps.
pub mod Effect
pub mod Shared
pub mod Waiting
pub mod Alone
use gpu_budget_operator.Base.{
  ℕ, String, Bool, true, false, Option, none, some, Result, ok, err, ◌≡◌, eqb, ◌==◌, if◌then◌else◌,
}
use gpu_budget_operator.Budget.{Floats}
use gpu_budget_operator.Cluster.{Cluster}
use gpu_budget_operator.Enforce.Report.{Error, message}
use gpu_budget_operator.Controllers.Host.{Host}
use gpu_budget_operator.Controllers.Status.{Settings}

-- Where a caller stands, with the local variables that are live there.
pub data Point (Client E : Type 0) : Type 0 where
  starting : Point Client E  -- before the test of the URL
  waiting : Point Client E  -- at `Lock`
  entered : Point Client E  -- before `r.promClient != nil`
  missing : Point Client E  -- before `metrics.NewClient`
  made : Client → Point Client E  -- before `r.promClient = c`
  leaving : Result E Client → Point Client E  -- at the deferred `Unlock`
  returned : Result E Client → Point Client E

-- What the callers share: whether the mutex is held, the cached client, and all that is outside.
pub record Common (Client S : Type 0) : Type 0 where
  pub locked : Bool
  pub prom_client : Option Client
  pub outside : S

module _ (c : Cluster) (fl : Floats) (h : Host c fl) (r : Settings fl.F) where
  abbrev pub Place : Type 0
  Place = Point h.Client (Error c.Err)

  abbrev pub Memory : Type 0
  Memory = Common h.Client c.State

  abbrev pub no_url : Error c.Err
  no_url = message "no prometheus URL configured: set the operator's --prometheus-url flag"

  -- One step of one caller; `none` where it has to wait. A caller that has returned calls again.
  unfoldable pub step : Memory → Place → Option (Memory × Place)
  step m starting = some (m, if r.prometheus_url == "" then returned (err no_url) else waiting)
  step m waiting = if m.locked then none else some (record m { locked = true }, entered)
  step m entered = elim m.prom_client [
    | some p ↦ some (m, leaving (ok p))
    | none ↦ some (m, missing)
  ]
  step m missing =
      let (made_client, s) = h.new_client r.prometheus_url m.outside in
      elim made_client [
        | err e ↦ some (record m { outside = s }, leaving (err e))
        | ok p ↦ some (record m { outside = s }, made p)
      ]
  step m (made p) = some (record m { prom_client = some p }, leaving (ok p))
  step m (leaving result) = some (record m { locked = false }, returned result)
  step m (returned result) = some (m, starting)

  -- The callers, by number.
  pub record System : Type 0 where
    pub memory : Memory
    pub place : ℕ → Place

  abbrev pub update : (ℕ → Place) → ℕ → Place → ℕ → Place
  update f i p j = if eqb i j then p else f j

  pub data Step (s : System) : System → Type 0 where
    pick :
        (i : ℕ) (m : Memory) (p : Place)
        → step s.memory (s.place i) ≡ some (m, p)
        → Step s (record { memory = m; place = update s.place i p })
    world :
        (t : c.State)
        → Step s (record { memory = record s.memory { outside = t }; place = s.place })

  pub data Later (s : System) : System → Type 0 where
    here : Later s s
    next : {t u : System} → Later s t → Step t u → Later s u

  -- A reconciler that was just made.
  abbrev pub initial : c.State → System
  initial t = record {
    memory = record { locked = false; prom_client = none; outside = t };
    place = λ _. starting;
  }

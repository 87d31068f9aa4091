-- ===== src/Controllers/PromClient/Waiting.antt =====
-- Callers of `prometheusClient` that wait for its mutex.
use gpu_budget_operator.Base.{
  ℕ, true, false, none, some, Result, ok, err, ◌≡◌, ◌≢◌, refl, inl, inr, arith, Option-cases,
  Call-cases,
}
use gpu_budget_operator.Budget.{Floats}
use gpu_budget_operator.Cluster.{Cluster}
use gpu_budget_operator.Enforce.Report.{Error}
use gpu_budget_operator.Controllers.Host.{Host}
use gpu_budget_operator.Controllers.Status.{Settings}
use gpu_budget_operator.Controllers.PromClient.{
  starting, waiting, entered, missing, made, leaving, returned, Place, Memory, step, System, update,
  Later, initial,
}
use gpu_budget_operator.Controllers.PromClient.Effect.{inside}
use gpu_budget_operator.Controllers.PromClient.Shared.{Later-IsGuarded, initial-IsGuarded, moved}

module _ (c : Cluster) (fl : Floats) (h : Host c fl) (r : Settings fl.F) where
  -- A caller that has to wait finds the mutex held.
  waits_locked :
      (m : Memory c fl h r) (p : Place c fl h r) → step c fl h r m p ≡ none → m.locked ≡ true
  unfolding step
  waits_locked m starting e = absurd (ground (arith, e))
  waits_locked m waiting e = ground (arith, e)
  waits_locked m entered e = absurd (ground (arith, e))
  waits_locked m missing e = absurd (ground (arith, e))
  waits_locked m (made p) e = absurd (ground (arith, e))
  waits_locked m (leaving result) e = absurd (ground (arith, e))
  waits_locked m (returned result) e = absurd (ground (arith, e))

  -- Steps of the caller `j` and of nobody else.
  pub data Turns (j : ℕ) : System c fl h r → System c fl h r → Type 0 where
    rest : {s : System c fl h r} → Turns j s s
    turn :
        {s u : System c fl h r} (m : Memory c fl h r) (p : Place c fl h r)
        → step c fl h r s.memory (s.place j) ≡ some (m, p)
        → Turns j (record { memory = m; place = update c fl h r s.place j p }) u
        → Turns j s u

  -- The caller `j` has come to where the mutex is free.
  pub record IsFreed (s : System c fl h r) (j : ℕ) : Type 0 where
    pub last : System c fl h r
    pub turns : Turns j s last
    pub free : last.memory.locked ≡ false

  IsFreed-next :
      (s : System c fl h r) (j : ℕ) (m : Memory c fl h r) (p : Place c fl h r)
      → step c fl h r s.memory (s.place j) ≡ some (m, p)
      → IsFreed (record { memory = m; place = update c fl h r s.place j p }) j
      → IsFreed s j
  IsFreed-next s j m p e f = record { last = f.last; turns = turn m p e f.turns; free = f.free }

  abbrev at : (s : System c fl h r) → ℕ → Memory c fl h r → Place c fl h r → System c fl h r
  at s j m p = record { memory = m; place = update c fl h r s.place j p }

  there : (s : System c fl h r) (j : ℕ) (p : Place c fl h r) → update c fl h r s.place j p j ≡ p
  there s j p = moved c fl h r s.place j j p (ground arith)

  leaving-IsFreed :
      (s : System c fl h r) (j : ℕ) (result : Result (Error c.Err) h.Client)
      → s.place j ≡ leaving result
      → IsFreed s j
  unfolding step
  leaving-IsFreed s j result e =
      let m = record s.memory { locked = false } in
      IsFreed-next s j m (returned result) (rw e refl)
        (record { last = at s j m (returned result); turns = rest; free = refl })

  made-IsFreed : (s : System c fl h r) (j : ℕ) (p : h.Client) → s.place j ≡ made p → IsFreed s j
  unfolding step
  made-IsFreed s j p e =
      let m = record s.memory { prom_client = some p } in
      IsFreed-next s j m (leaving (ok p)) (rw e refl)
        (leaving-IsFreed (at s j m (leaving (ok p))) j (ok p) (there s j (leaving (ok p))))

  missing-IsFreed : (s : System c fl h r) (j : ℕ) → s.place j ≡ missing → IsFreed s j
  unfolding step
  missing-IsFreed s j e = elim (Call-cases (h.new_client r.prometheus_url s.memory.outside)) [
    | inl (p, t, q) ↦
        let m = record s.memory { outside = t } in
        IsFreed-next s j m (made p) (ground (arith, e, q))
          (made-IsFreed (at s j m (made p)) j p (there s j (made p)))
    | inr (x, t, q) ↦
        let m = record s.memory { outside = t } in
        IsFreed-next s j m (leaving (err x)) (ground (arith, e, q))
          (leaving-IsFreed (at s j m (leaving (err x))) j (err x) (there s j (leaving (err x))))
  ]

  entered-IsFreed : (s : System c fl h r) (j : ℕ) → s.place j ≡ entered → IsFreed s j
  unfolding step
  entered-IsFreed s j e = elim (Option-cases s.memory.prom_client) [
    | inr (p, q) ↦
        IsFreed-next s j s.memory (leaving (ok p)) (rw (e, q) refl)
          (leaving-IsFreed (at s j s.memory (leaving (ok p))) j (ok p) (there s j (leaving (ok p))))
    | inl q ↦
        IsFreed-next s j s.memory missing (rw (e, q) refl)
          (missing-IsFreed (at s j s.memory missing) j (there s j missing))
  ]

  -- A caller that holds the mutex frees it by its own steps.
  inside-IsFreed :
      (s : System c fl h r) (j : ℕ) (p : Place c fl h r)
      → s.place j ≡ p
      → inside c fl h r p ≡ true
      → IsFreed s j
  inside-IsFreed s j starting e i = absurd (cc)
  inside-IsFreed s j waiting e i = absurd (cc)
  inside-IsFreed s j entered e i = entered-IsFreed s j e
  inside-IsFreed s j missing e i = missing-IsFreed s j e
  inside-IsFreed s j (made p) e i = made-IsFreed s j p e
  inside-IsFreed s j (leaving result) e i = leaving-IsFreed s j result e
  inside-IsFreed s j (returned result) e i = absurd (cc)

  -- Nobody waits for a mutex that nobody will free: where a caller has to wait, exactly one caller
  -- is between `Lock` and `Unlock`, and some steps of that one alone lead to where the mutex is free
  -- and the one that waited can take its next step.
  pub step_waits :
      (t : c.State) (s : System c fl h r)
      → Later c fl h r (initial c fl h r t) s
      → (i : ℕ) → step c fl h r s.memory (s.place i) ≡ none
      → (j : ℕ) × (inside c fl h r (s.place j) ≡ true)
        × ((k : ℕ) → inside c fl h r (s.place k) ≡ true → k ≡ j)
        × ((f : IsFreed s j) × (step c fl h r f.last.memory (f.last.place i) ≢ none))
  unfolding step
  step_waits t s l i e =
      let g = Later-IsGuarded c fl h r (initial-IsGuarded c fl h r t) l in
      let locked = waits_locked s.memory (s.place i) e in
      let (j, in_j) = g.owner locked in
      let f = inside-IsFreed s j (s.place j) refl in_j in
      (
        j,
        in_j,
        λ k in_k. g.alone k j in_k in_j,
        (
          f,
          λ stuck.
              absurd (ground (arith, f.free, waits_locked f.last.memory (f.last.place i) stuck)),
        ),
      )

-- ===== src/Tests/Callers.antt =====
-- Two reconciles that ask for the Prometheus client.
use gpu_budget_operator.Base.{ℕ, String, none, some, string_dec, ◌≡◌, ◌≢◌, refl, true}
use gpu_budget_operator.Controllers.PromClient.{
  step, System, update, pick, Later, here, next, initial, Place, Memory,
}
use gpu_budget_operator.Controllers.PromClient.Effect.{inside}
use gpu_budget_operator.Controllers.PromClient.Shared.{prometheus_client_shared}
use gpu_budget_operator.Controllers.PromClient.Waiting.{IsFreed, step_waits}
use gpu_budget_operator.Tests.Memory.{memory}
use gpu_budget_operator.Tests.Host.{whole, host}
use gpu_budget_operator.Tests.Budgets.{settings}
use gpu_budget_operator.Tests.Data.{team}

record Run (s : System memory whole host settings) : Type 0 where
  last : System memory whole host settings
  later : Later memory whole host settings s last

abbrev begin : System memory whole host settings
begin = initial memory whole host settings team

abbrev turn :
    {s t : System memory whole host settings}
    → (i : ℕ) → (m : Memory memory whole host settings) → (p : Place memory whole host settings)
    → Later memory whole host settings s t
    → step memory whole host settings t.memory (t.place i) ≡ some (m, p)
    → Later memory whole host settings s
        (record { memory = m; place = update memory whole host settings t.place i p })
turn i m p l e = next l (pick i m p e)

-- Caller 0 has taken the mutex and caller 1 is at `Lock`.
abbrev contended : Run begin
unfolding step string_dec
contended = record { last = _; later = turn 1 _ _ (turn 0 _ _ (turn 0 _ _ here refl) refl) refl }

-- Caller 0 has made the client and returned.
abbrev first : Run contended.last
unfolding step string_dec
first = record {
  last = _;
  later = turn 0 _ _ (turn 0 _ _ (turn 0 _ _ (turn 0 _ _ here refl) refl) refl) refl;
}

-- Caller 1 has returned too.
abbrev second : Run first.last
unfolding step string_dec
second = record { last = _; later = turn 1 _ _ (turn 1 _ _ (turn 1 _ _ here refl) refl) refl }

-- The whole way to where caller 0 has returned.
abbrev first_later : Later memory whole host settings begin first.last
unfolding contended first step string_dec
first_later = turn 0 _ _ (turn 0 _ _ (turn 0 _ _ (turn 0 _ _ contended.later refl) refl) refl) refl

prometheus_client_shared_example : ◌≡◌ {A = String} "http://prometheus" "http://prometheus"
unfolding contended first second first_later step string_dec
prometheus_client_shared_example =
    prometheus_client_shared memory whole host settings team first.last second.last first_later
      second.later 0 1 "http://prometheus" "http://prometheus" refl refl

step_waits_example :
    (j : ℕ) × (inside memory whole host settings (contended.last.place j) ≡ true)
    × ((k : ℕ) → inside memory whole host settings (contended.last.place k) ≡ true → k ≡ j)
    × ((f : IsFreed memory whole host settings contended.last j) × (step memory whole host settings
            f.last.memory
            (f.last.place 1)
          ≢ none))
unfolding contended step string_dec
step_waits_example =
    step_waits memory whole host settings team contended.last contended.later 1 refl

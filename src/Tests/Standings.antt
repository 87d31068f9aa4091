-- ===== src/Tests/Standings.antt =====
-- The stored status of the budget of the namespace `team` from reconcile to reconcile.
use gpu_budget_operator.Tests.Store.{find, answer}
use gpu_budget_operator.Base.{string_dec, ℕ, none, some, ◌≡◌, refl, subst, inl, ◌⊎◌, true, ok, err}
use mathlib.Core.Option.{some-injective}
use gpu_budget_operator.Budget.{GpuBudgetStatus}
use gpu_budget_operator.Controllers.Reconcile.{reconcile}
use gpu_budget_operator.Controllers.Reconcile.Requeue.{IsAgain, reconcile-IsAgain}
use gpu_budget_operator.Tests.Store.{Refusal, is_missing}
use gpu_budget_operator.Controllers.Reconcile.Standing.{standing, Reach, IsSound}
use gpu_budget_operator.Controllers.Reconcile.Standing.Refined.{CanReset, reconcile-Reach}
use gpu_budget_operator.Controllers.Reconcile.Standing.Rounds.{
  Sound, start, then, tick, others, reconcile-IsSound,
}
use gpu_budget_operator.Tests.Memory.{Memory, memory}
use gpu_budget_operator.Tests.Host.{
  whole, host, stored_status, host-IsKept, host-IsApart, host-IsIdle, host_current,
}
use gpu_budget_operator.Tests.Budgets.{settings}
use gpu_budget_operator.Tests.Data.{budget, team}

reconcile-Reach_example :
    (st : GpuBudgetStatus ℕ) × (stored_status "team" "gpus"
        (reconcile memory whole host settings "team" "gpus" none team).state
      ≡ some st)
    × Reach
        (CanReset memory whole host settings stored_status host-IsKept "team" "gpus" budget team)
        (standing budget.status)
        (standing st)
unfolding answer find string_dec
reconcile-Reach_example =
    reconcile-Reach memory whole host settings stored_status host-IsKept "team" "gpus"
      (host-IsApart "team" "gpus") (host-IsIdle settings "team" "gpus") budget none team team refl
      refl

-- What the reconcile leaves as the stored status.
once :
    (st : GpuBudgetStatus ℕ) × (stored_status "team" "gpus"
        (reconcile memory whole host settings "team" "gpus" none team).state
      ≡ some st)
unfolding answer find string_dec
once =
    let (st, is, reach) =
      reconcile-Reach memory whole host settings stored_status host-IsKept "team" "gpus"
        (host-IsApart "team" "gpus") (host-IsIdle settings "team" "gpus") budget none team team refl
        refl in
    (st, is)

budget-IsSound : IsSound (standing budget.status)
budget-IsSound = record { free = λ p. absurd (cc); distinct = (tt, tt) }

team-Sound :
    Sound memory whole host settings stored_status host-IsKept "team" "gpus"
      (host-IsApart "team" "gpus")
      (host-IsIdle settings "team" "gpus")
      (host_current "team" "gpus")
      team
unfolding find string_dec
team-Sound st p =
    subst (λ x. IsSound (standing x)) (some-injective budget.status st p) budget-IsSound

reconcile-IsSound_example : IsSound (standing once.0)
reconcile-IsSound_example =
    reconcile-IsSound memory whole host settings stored_status host-IsKept "team" "gpus"
      (host-IsApart "team" "gpus") (host-IsIdle settings "team" "gpus") (host_current "team" "gpus")
      team (reconcile memory whole host settings "team" "gpus" none team).state once.0
      (then (then start (others team (λ st p. inl p))) (tick none)) team-Sound once.1

reconcile-IsAgain_example :
    IsAgain memory whole host settings
      (reconcile memory whole host settings "team" "gpus" none team)
    ⊎ ((e : Refusal) × (s : Memory) × (host.get "team" "gpus" team ≡ (err e, s))
        × (is_missing e ≡ true)
        × ((reconcile memory whole host settings "team" "gpus" none team).result ≡ ok 0)
        × ((reconcile memory whole host settings "team" "gpus" none team).state ≡ s))
reconcile-IsAgain_example = reconcile-IsAgain memory whole host settings "team" "gpus" none team

-- ===== src/Controllers/Reconcile/Requeue.antt =====
-- When a reconcile asks to be called again.
use gpu_budget_operator.Base.{
  ℕ, zero, suc, ◌<◌, String, ◌<>◌, true, Option, some, List, [], ◌∷◌, Result, ok, err, ◌≡◌, refl,
  sym, subst, ◌⊎◌, inl, inr, arith, Bool-cases, Option-cases, List-cases, Call-cases,
}
use gpu_budget_operator.Base.Int.{ℤ, pos, negsuc}
use gpu_budget_operator.Base.Dict.{Dict}
use gpu_budget_operator.Budget.{Floats, GpuBudget}
use gpu_budget_operator.Cluster.{Cluster}
use gpu_budget_operator.Metrics.{QueryValue}
use gpu_budget_operator.Enforce.Report.{Error, client, wrapped}
use gpu_budget_operator.Controllers.Host.{Host}
use gpu_budget_operator.Controllers.Usage.{Usage}
use gpu_budget_operator.Controllers.Status.{
  default_interval, retry_interval, duration_or_default, Failure, one, joined, Settings, failed,
}
use gpu_budget_operator.Controllers.Reconcile.{
  Reconciled, persist_status, mark_failed, finish, decide, priced, counted, answered, connected,
  evaluate, wants_reset, after_reset, found, reconcile,
}
use gpu_budget_operator.Controllers.Reconcile.Branches.{
  due, with_enforced, with_compliant, decide_due, decide_fine, found_plain, found_reset,
}

duration_or_default_pos : (i : ℤ) → 0 < duration_or_default i default_interval
unfolding duration_or_default
duration_or_default_pos (pos zero) = omega arith
duration_or_default_pos (pos (suc n)) = omega arith
duration_or_default_pos (negsuc n) = omega arith

module _ (c : Cluster) (fl : Floats) (h : Host c fl) (r : Settings fl.F) where
  -- The reconcile failed, or asks to be called again after some time.
  abbrev pub IsAgain : Reconciled c fl h r → Type 0
  IsAgain out =
      ((e : Failure c.Err) × (out.result ≡ err e))
      ⊎ ((wait : ℕ) × (out.result ≡ ok wait) × (0 < wait))

  finish-IsAgain :
      (gb : GpuBudget fl.F) (errors : List (Error c.Err)) (p : Option h.Client) (s : c.State)
      → IsAgain (finish c fl h r gb errors p s)
  unfolding finish
  finish-IsAgain gb errors p s = elim (Option-cases (persist_status c fl h r gb s).0) [
    | inr (e, q) ↦ inl (
      one (wrapped ("updating status for " <> gb.namespace <> "/" <> gb.name) (client e)),
      ground (arith, q),
    )
    | inl q ↦ elim (List-cases errors) [
      | inr (x, xs, w) ↦
          inl (
            joined ("enforcing budget in namespace " <> gb.namespace) (x ∷ xs),
            ground (arith, q, w),
          )
      | inl w ↦ inr (
        duration_or_default gb.spec.check_interval default_interval,
        ground (arith, q, w),
        duration_or_default_pos gb.spec.check_interval,
      )
    ]
  ]

  mark_failed-IsAgain :
      (gb : GpuBudget fl.F) (reason : String) (cause : Error c.Err) (p : Option h.Client)
      (s : c.State)
      → IsAgain (mark_failed c fl h r gb reason cause p s)
  unfolding mark_failed
  mark_failed-IsAgain gb reason cause p s =
      elim (Call-cases (h.update_status (failed c fl h r gb reason cause) s)) [
        | inl (new, s', q) ↦ inr (retry_interval, ground (arith, q), omega arith)
        | inr (e, s', q) ↦
            inl (one (wrapped ("updating status after " <> reason) (client e)), ground (arith, q))
      ]

  decide-IsAgain :
      (gb : GpuBudget fl.F) (now : ℕ) (u : Usage fl h.to_upper) (p : Option h.Client) (s : c.State)
      → IsAgain (decide c fl h r gb now u p s)
  decide-IsAgain gb now u p s = elim (Bool-cases (due c fl h r gb u)) [
    | inl e ↦
        subst IsAgain (sym (decide_due c fl h r gb now u p s e))
          (finish-IsAgain (with_enforced c fl h r gb now u s) _ p _)
    | inr e ↦
        subst IsAgain (sym (decide_fine c fl h r gb now u p s e))
          (finish-IsAgain (with_compliant c fl h r gb now u) [] p s)
  ]

  priced-IsAgain :
      (gb : GpuBudget fl.F) (now : ℕ) (p : h.Client) (s : c.State)
      (u : Result String (Usage fl h.to_upper))
      → IsAgain (priced c fl h r gb now p s u)
  unfolding priced
  priced-IsAgain gb now p s (err t) = mark_failed-IsAgain gb _ _ (some p) s
  priced-IsAgain gb now p s (ok u) = decide-IsAgain gb now u (some p) s

  counted-IsAgain :
      (gb : GpuBudget fl.F) (now : ℕ) (p : h.Client) (q : String) (s : c.State)
      (hours : Result String (Dict fl.F))
      → IsAgain (counted c fl h r gb now p q s hours)
  unfolding counted
  counted-IsAgain gb now p q s (err kind) = mark_failed-IsAgain gb _ _ (some p) s
  counted-IsAgain gb now p q s (ok hours) = priced-IsAgain gb now p s _

  answered-IsAgain :
      (gb : GpuBudget fl.F) (now : ℕ) (p : h.Client) (q : String)
      (answer : Result c.Err (QueryValue fl.F) × c.State)
      → IsAgain (answered c fl h r gb now p q answer)
  unfolding answered
  answered-IsAgain gb now p q (err e, s) = mark_failed-IsAgain gb _ _ (some p) s
  answered-IsAgain gb now p q (ok v, s) = counted-IsAgain gb now p q s _

  connected-IsAgain :
      (gb : GpuBudget fl.F) (cached : Option h.Client)
      (got : Result (Error c.Err) h.Client × c.State)
      → IsAgain (connected c fl h r gb cached got)
  unfolding connected
  connected-IsAgain gb cached (err e, s) = mark_failed-IsAgain gb _ _ cached s
  connected-IsAgain gb cached (ok p, s) = answered-IsAgain gb (c.now s) p _ _

  after_reset-IsAgain :
      (cached : Option h.Client) (got : Result (Failure c.Err) (GpuBudget fl.F) × c.State)
      → IsAgain (after_reset c fl h r cached got)
  unfolding after_reset evaluate
  after_reset-IsAgain cached (err e, s) = inl (e, refl)
  after_reset-IsAgain cached (ok gb, s) = connected-IsAgain gb cached _

  read-IsAgain :
      (gb : GpuBudget fl.F) (cached : Option h.Client) (s : c.State)
      → IsAgain (found c fl h r cached (ok gb, s))
  unfolding evaluate
  read-IsAgain gb cached s = elim (Bool-cases (wants_reset c fl h r gb)) [
    | inr e ↦
        subst IsAgain (sym (found_plain c fl h r gb cached s e)) (connected-IsAgain gb cached _)
    | inl e ↦
        subst IsAgain (sym (found_reset c fl h r gb cached s e)) (after_reset-IsAgain cached _)
  ]

  -- A reconcile never drops a budget: it ends in an error, which is retried, or asks to be called again
  -- after some time, unless the budget was read as not found; then it is done, and has sent nothing.
  pub reconcile-IsAgain :
      (ns n : String) (cached : Option h.Client) (s : c.State)
      → IsAgain (reconcile c fl h r ns n cached s)
        ⊎ ((e : c.Err) × (s' : c.State) × (h.get ns n s ≡ (err e, s'))
            × (c.is_not_found e ≡ true)
            × ((reconcile c fl h r ns n cached s).result ≡ ok 0)
            × ((reconcile c fl h r ns n cached s).state ≡ s'))
  unfolding reconcile found
  reconcile-IsAgain ns n cached s = elim (Call-cases (h.get ns n s)) [
    | inl (gb, s', q) ↦
        inl (subst (λ x. IsAgain (found c fl h r cached x)) (sym q) (read-IsAgain gb cached s'))
    | inr (e, s', q) ↦ elim (Bool-cases (c.is_not_found e)) [
      | inl gone ↦ inr (e, s', q, gone, ground (arith, q, gone), ground (arith, q))
      | inr other ↦ inl (inl (one (client e), ground (arith, q, other)))
    ]
  ]

-- ===== src/Controllers/Reconcile/Branches.antt =====
-- The ways from a budget that was read, and from its usage.
use gpu_budget_operator.Base.{ℕ, Bool, true, false, ◌||◌, Option, [], ok, ◌≡◌}
use gpu_budget_operator.Budget.{Floats, GpuBudget, phase_compliant}
use gpu_budget_operator.Cluster.{Cluster}
use gpu_budget_operator.Enforce.Namespace.{enforce_namespace}
use gpu_budget_operator.Controllers.Host.{Host}
use gpu_budget_operator.Controllers.Usage.{Usage}
use gpu_budget_operator.Controllers.Status.{
  Settings, over_budget, sticky, measured, enforced_status, with_condition,
}
use gpu_budget_operator.Controllers.Reconcile.{
  finish, decide, handle_manual_reset, after_reset, evaluate, wants_reset, found,
}

module _ (c : Cluster) (fl : Floats) (h : Host c fl) (r : Settings fl.F) where
  pub found_plain :
      (gb : GpuBudget fl.F) (cached : Option h.Client) (s : c.State)
      → wants_reset c fl h r gb ≡ false
      → found c fl h r cached (ok gb, s) ≡ evaluate c fl h r gb cached s
  unfolding found
  found_plain gb cached s e = rw (e, found)

  pub found_reset :
      (gb : GpuBudget fl.F) (cached : Option h.Client) (s : c.State)
      → wants_reset c fl h r gb ≡ true
      → found c fl h r cached (ok gb, s)
        ≡ after_reset c fl h r cached (handle_manual_reset c fl h r gb s)
  unfolding found
  found_reset gb cached s e = rw (e, found)

  abbrev pub due : GpuBudget fl.F → Usage fl h.to_upper → Bool
  due gb u = over_budget c fl h r gb.spec u || sticky c fl h r gb.status.enforced_resources

  abbrev pub with_enforced : GpuBudget fl.F → ℕ → Usage fl h.to_upper → c.State → GpuBudget fl.F
  with_enforced gb now u s =
      let run = enforce_namespace c gb.namespace s in
      record gb {
        status =
            with_condition c fl h r
              (enforced_status c fl h r (measured c fl h r gb now u) now run.resources) u
              run.errors;
      }

  abbrev pub with_compliant : GpuBudget fl.F → ℕ → Usage fl h.to_upper → GpuBudget fl.F
  with_compliant gb now u = record gb {
    status =
        with_condition c fl h r (record (measured c fl h r gb now u) { phase = phase_compliant }) u
          [];
  }

  pub decide_due :
      (gb : GpuBudget fl.F) (now : ℕ) (u : Usage fl h.to_upper) (p : Option h.Client) (s : c.State)
      → due gb u ≡ true
      → decide c fl h r gb now u p s
        ≡ finish c fl h r
            (with_enforced gb now u s)
            (enforce_namespace c gb.namespace s).errors
            p
            (enforce_namespace c gb.namespace s).state
  unfolding decide measured
  decide_due gb now u p s e = rw (e, decide)

  pub decide_fine :
      (gb : GpuBudget fl.F) (now : ℕ) (u : Usage fl h.to_upper) (p : Option h.Client) (s : c.State)
      → due gb u ≡ false
      → decide c fl h r gb now u p s ≡ finish c fl h r (with_compliant gb now u) [] p s
  unfolding decide measured
  decide_fine gb now u p s e = rw (e, decide)

-- ===== src/Controllers/Reconcile/Reset.antt =====
-- The enforced resources of the stored status over a whole reconcile, its reset included.
use gpu_budget_operator.Base.{
  String, ◌<>◌, true, Option, List, [], ◌∷◌, ok, err, ◌≡◌, refl, sym, ap, ◌∙◌, subst, ◌⊎◌, inl, inr,
  arith, Bool-cases, List-cases,
}
use gpu_budget_operator.Budget.{Floats, GpuBudgetStatus, GpuBudget}
use gpu_budget_operator.Cluster.{Cluster}
use gpu_budget_operator.Enforce.Report.{Error}
use gpu_budget_operator.Enforce.Namespace.{restore_namespace}
use gpu_budget_operator.Enforce.Namespace.Frame.{IsApart}
use gpu_budget_operator.Enforce.Namespace.RestoreFrame.{restore_namespace_alone}
use gpu_budget_operator.Controllers.Host.{Host}
use gpu_budget_operator.Controllers.Status.{Settings, Failure, joined}
use gpu_budget_operator.Controllers.Reconcile.{
  handle_manual_reset, after_reset, wants_reset, reconcile,
}
use gpu_budget_operator.Controllers.Reconcile.Branches.{found_plain, found_reset}
use gpu_budget_operator.Controllers.Reconcile.Persisted.{IsKept}
use gpu_budget_operator.Controllers.Reconcile.Retained.{Retains, Retains-same, evaluate-Retains}

module _ (c : Cluster) (fl : Floats) (h : Host c fl) (r : Settings fl.F)
    (stored : String → String → c.State → Option (GpuBudgetStatus fl.F)) (K : IsKept c fl h stored)
    (gb : GpuBudget fl.F) (apart : IsApart c (λ s. stored gb.namespace gb.name s))
    (new_client_apart : (url : String) (s : c.State)
      → stored gb.namespace gb.name (h.new_client url s).1 ≡ stored gb.namespace gb.name s)
    (query_apart : (p : h.Client) (q : String) (s : c.State)
      → stored gb.namespace gb.name (h.query p q s).1 ≡ stored gb.namespace gb.name s) where
  abbrev Kept : c.State → Type 0
  Kept = Retains c fl h r stored K gb apart new_client_apart query_apart

  -- The reset restored every enforced resource without an error.
  abbrev pub IsRestoredReset : c.State → Type 0
  IsRestoredReset s =
      (wants_reset c fl h r gb ≡ true)
      × ((restore_namespace c gb.namespace gb.status.enforced_resources s).0 ≡ [])

  restored_errors :
      (s : c.State) (e : Error c.Err) (es : List (Error c.Err))
      → (restore_namespace c gb.namespace gb.status.enforced_resources s).0 ≡ e ∷ es
      → (f : Failure c.Err) × (handle_manual_reset c fl h r gb s
          ≡ (err f, (restore_namespace c gb.namespace gb.status.enforced_resources s).1))
  unfolding handle_manual_reset
  restored_errors s e es q = (
    joined ("restoring namespace " <> gb.namespace <> " during manual reset") (e ∷ es),
    ground (arith, q),
  )

  after_reset_failed :
      (cached : Option h.Client) (f : Failure c.Err) (s : c.State)
      → (after_reset c fl h r cached (err f, s)).state ≡ s
  unfolding after_reset
  after_reset_failed cached f s = refl

  reset-Retains :
      (cached : Option h.Client) (s : c.State)
      → Kept s
      → Kept (after_reset c fl h r cached (handle_manual_reset c fl h r gb s)).state
        ⊎ ((restore_namespace c gb.namespace gb.status.enforced_resources s).0 ≡ [])
  reset-Retains cached s kept =
      elim (List-cases (restore_namespace c gb.namespace gb.status.enforced_resources s).0) [
        | inl q ↦ inr q
        | inr (e, es, q) ↦
            let (f, p) = restored_errors s e es q in
            inl (
              subst Kept
                (sym (
                  ap (λ x. (after_reset c fl h r cached x).state) p
                  ∙ after_reset_failed cached f _))
                (Retains-same c fl h r stored K gb apart new_client_apart query_apart s _
                  (restore_namespace_alone c _ apart gb.namespace gb.status.enforced_resources s)
                  kept))
      ]

  -- A reconcile that reads a budget and finds its stored status as read leaves a stored status that
  -- lists every enforced resource that was read, in place, whatever fails on the way; the one
  -- exception is that the reset annotation was set and every resource was restored without an error.
  pub reconcile-Retains :
      (cached : Option h.Client) (ns n : String) (s s' : c.State)
      → h.get ns n s ≡ (ok gb, s')
      → Kept s
      → Kept (reconcile c fl h r ns n cached s).state ⊎ IsRestoredReset s'
  unfolding reconcile
  reconcile-Retains cached ns n s s' e kept =
      let kept' : Kept s' =
        Retains-same c fl h r stored K gb apart new_client_apart query_apart s s'
          (ap (λ x. stored gb.namespace gb.name x.1) (sym e)
            ∙ K.get_alone ns n gb.namespace gb.name s)
          kept in
      rw e (elim (Bool-cases (wants_reset c fl h r gb)) [
        | inr plain ↦ rw (found_plain c fl h r gb cached s' plain) (
            inl (
              evaluate-Retains c fl h r stored K gb apart new_client_apart query_apart cached s'
                kept'))
        | inl wanted ↦
            rw (found_reset c fl h r gb cached s' wanted)
              (elim (reset-Retains cached s' kept') [ inl q ↦ inl q | inr q ↦ inr (wanted, q) ])
      ])

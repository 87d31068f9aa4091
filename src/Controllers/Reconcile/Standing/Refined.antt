-- ===== src/Controllers/Reconcile/Standing/Refined.antt =====
-- `Reconcile` against the diagram of the stored status.
use gpu_budget_operator.Base.{
  ℕ, String, ◌<>◌, true, false, Option, some, [], ◌∷◌, ok, err, ◌≡◌, sym, ap, ◌∙◌, subst, ◌⊎◌, inl,
  inr, arith, Bool-cases, List-cases, Call-cases,
}
use gpu_budget_operator.Budget.{Floats, GpuBudgetStatus, GpuBudget}
use gpu_budget_operator.Cluster.{Cluster}
use gpu_budget_operator.Enforce.Report.{wrapped, client}
use gpu_budget_operator.Enforce.Namespace.{restore_namespace}
use gpu_budget_operator.Enforce.Namespace.Frame.{IsApart}
use gpu_budget_operator.Enforce.Namespace.RestoreFrame.{restore_namespace_alone}
use gpu_budget_operator.Controllers.Host.{Host}
use gpu_budget_operator.Controllers.Usage.{Usage}
use gpu_budget_operator.Controllers.Status.{
  Settings, Failure, one, joined, failed, enforced_status, with_condition, measured, cleared,
  without_reset,
}
use gpu_budget_operator.Controllers.Reconcile.{
  handle_manual_reset, after_reset, evaluate, wants_reset, found, reconcile,
}
use gpu_budget_operator.Controllers.Reconcile.Branches.{
  due, with_compliant, with_enforced, found_plain, found_reset,
}
use gpu_budget_operator.Controllers.Reconcile.Persisted.{
  IsKept, with_enforced-IsDecided, sticky-false,
}
use gpu_budget_operator.Controllers.Reconcile.Stored.{Holds, IsAllowed, evaluate-Holds}
use gpu_budget_operator.Controllers.Reconcile.Standing.{
  Standing, standing, fail, comply, enforce, reset, Reach, here, next,
}

module _ (c : Cluster) (fl : Floats) (h : Host c fl) (r : Settings fl.F)
    (stored : String → String → c.State → Option (GpuBudgetStatus fl.F)) (K : IsKept c fl h stored)
    (space n : String) where
  -- What `Update` does to a budget with a status subresource, and what reads besides the budgets
  -- leave alone.
  pub record IsIdle : Type 0 where
    pub update_ok :
        (gb gb' : GpuBudget fl.F) (s s' : c.State)
        → h.update gb s ≡ (ok gb', s')
        → (gb'.namespace ≡ gb.namespace) × (gb'.name ≡ gb.name)
    pub update_alone :
        (gb : GpuBudget fl.F) (s : c.State) → stored space n (h.update gb s).1 ≡ stored space n s
    pub new_client_alone :
        (url : String) (s : c.State) → stored space n (h.new_client url s).1 ≡ stored space n s
    pub query_alone :
        (p : h.Client) (q : String) (s : c.State)
        → stored space n (h.query p q s).1 ≡ stored space n s

  module _ (apart : IsApart c (λ s. stored space n s)) (I : IsIdle) (R : Type 0)
      (base : Standing) where
    -- A status that the diagram reaches.
    abbrev Reached : GpuBudgetStatus fl.F → Type 0
    Reached st = Reach R base (standing st)

    abbrev pub Tracks : c.State → Type 0
    Tracks = Holds c fl h r stored K space n apart I.new_client_alone I.query_alone Reached

    Tracks-same : (s s' : c.State) → stored space n s' ≡ stored space n s → Tracks s → Tracks s'
    Tracks-same s s' e (st, q, x) = (st, e ∙ q, x)

    enforced_move :
        (gb : GpuBudget fl.F) (now : ℕ) (u : Usage fl h.to_upper) (s : c.State)
        → due c fl h r gb u ≡ true
        → Reached gb.status
        → Reached (with_enforced c fl h r gb now u s).status
    unfolding with_condition enforced_status
    enforced_move gb now u s e reached =
        next reached
          (enforce _ _ _ ((with_enforced-IsDecided c fl h r stored K gb now u s e).enforced e).1)

    compliant_move :
        (gb : GpuBudget fl.F) (now : ℕ) (u : Usage fl h.to_upper)
        → due c fl h r gb u ≡ false
        → Reached gb.status
        → Reached (with_compliant c fl h r gb now u).status
    unfolding with_condition measured
    compliant_move gb now u e reached =
        next reached (
          comply _
            (sticky-false c fl h r stored K gb.status.enforced_resources (ground (arith, e))))

    Reached-IsAllowed :
        (gb : GpuBudget fl.F)
        → gb.namespace ≡ space
        → gb.name ≡ n
        → Reached gb.status
        → IsAllowed c fl h r stored K space n apart I.new_client_alone I.query_alone Reached gb
    unfolding failed
    Reached-IsAllowed gb at named reached = record {
      in_space = at;
      named = named;
      fails = λ reason cause. next reached (fail _);
      enforces = λ now u s e. enforced_move gb now u s e reached;
      complies = λ now u e. compliant_move gb now u e reached;
    }

    evaluate-Tracks :
        (gb : GpuBudget fl.F)
        → gb.namespace ≡ space
        → gb.name ≡ n
        → Reached gb.status
        → (cached : Option h.Client) (s : c.State) → Tracks s
        → Tracks (evaluate c fl h r gb cached s).state
    evaluate-Tracks gb at named reached cached s kept =
        evaluate-Holds c fl h r stored K space n apart I.new_client_alone I.query_alone Reached gb
          (Reached-IsAllowed gb at named reached) cached s kept

  -- The reset annotation is set, and every enforced resource was restored without an error.
  abbrev pub CanReset : GpuBudget fl.F → c.State → Type 0
  CanReset gb s =
      (wants_reset c fl h r gb ≡ true)
      × ((restore_namespace c gb.namespace gb.status.enforced_resources s).0 ≡ [])

  module _ (apart : IsApart c (λ s. stored space n s)) (I : IsIdle) where
    -- How a reset can end.
    abbrev Ends : GpuBudget fl.F → c.State → Type 0
    Ends gb s =
        ((f : Failure c.Err) × (s' : c.State) × (handle_manual_reset c fl h r gb s ≡ (err f, s'))
          × (stored space n s' ≡ stored space n s))
        ⊎ ((gb' : GpuBudget fl.F) × (s' : c.State) × (handle_manual_reset c fl h r gb s
              ≡ (ok (cleared c fl h r gb'), s'))
            × (stored space n s' ≡ stored space n s)
            × ((restore_namespace c gb.namespace gb.status.enforced_resources s).0 ≡ [])
            × (gb'.namespace ≡ gb.namespace)
            × (gb'.name ≡ gb.name))

    updated_lem :
        (gb : GpuBudget fl.F) (s : c.State)
        → (restore_namespace c gb.namespace gb.status.enforced_resources s).0 ≡ []
        → Ends gb s
    unfolding handle_manual_reset
    updated_lem gb s fine =
        let s1 = (restore_namespace c gb.namespace gb.status.enforced_resources s).1 in
        let same =
          I.update_alone (without_reset c fl h r gb) s1
          ∙ restore_namespace_alone c _ apart gb.namespace gb.status.enforced_resources s in
        elim (Call-cases (h.update (without_reset c fl h r gb) s1)) [
          | inl (gb', s', e) ↦
              let (at, named) = I.update_ok _ gb' s1 s' e in
              inr (
                gb',
                s',
                ground (arith, fine, e),
                sym (ap (λ x. stored space n x.1) e) ∙ same,
                fine,
                at,
                named,
              )
          | inr (x, s', e) ↦ inl (
            one (
                wrapped ("clearing reset annotation for " <> gb.namespace <> "/" <> gb.name)
                  (client x)),
            s',
            ground (arith, fine, e),
            sym (ap (λ x. stored space n x.1) e) ∙ same,
          )
        ]

    handle_manual_reset_lem : (gb : GpuBudget fl.F) (s : c.State) → Ends gb s
    unfolding handle_manual_reset
    handle_manual_reset_lem gb s =
        elim (List-cases (restore_namespace c gb.namespace gb.status.enforced_resources s).0) [
          | inl fine ↦ updated_lem gb s fine
          | inr (e, es, q) ↦ inl (
            joined ("restoring namespace " <> gb.namespace <> " during manual reset") (e ∷ es),
            (restore_namespace c gb.namespace gb.status.enforced_resources s).1,
            ground (arith, q),
            restore_namespace_alone c _ apart gb.namespace gb.status.enforced_resources s,
          )
        ]

    reset-Tracks :
        (gb : GpuBudget fl.F)
        → gb.namespace ≡ space
        → gb.name ≡ n
        → (cached : Option h.Client) (s : c.State) → wants_reset c fl h r gb ≡ true
        → stored space n s ≡ some gb.status
        → Tracks apart I
            (CanReset gb s)
            (standing gb.status)
            (after_reset c fl h r cached (handle_manual_reset c fl h r gb s)).state
    unfolding after_reset
    reset-Tracks gb at named cached s wanted now = elim (handle_manual_reset_lem gb s) [
      | inl (f, s', e, same) ↦ rw e (gb.status, same ∙ now, here)
      | inr (gb', s', e, same, fine, at', named') ↦ rw e (
          evaluate-Tracks apart I _ _ (cleared c fl h r gb') (at' ∙ at) (named' ∙ named)
            (next here (reset _ (wanted, fine))) cached s' (gb.status, same ∙ now, here))
    ]

    found-Tracks :
        (gb : GpuBudget fl.F)
        → gb.namespace ≡ space
        → gb.name ≡ n
        → (cached : Option h.Client) (s : c.State) → stored space n s ≡ some gb.status
        → Tracks apart I
            (CanReset gb s)
            (standing gb.status)
            (found c fl h r cached (ok gb, s)).state
    found-Tracks gb at named cached s now = elim (Bool-cases (wants_reset c fl h r gb)) [
      | inl wanted ↦
          subst (λ x. Tracks apart I (CanReset gb s) (standing gb.status) x.state)
            (sym (found_reset c fl h r gb cached s wanted))
            (reset-Tracks gb at named cached s wanted now)
      | inr plain ↦
          subst (λ x. Tracks apart I (CanReset gb s) (standing gb.status) x.state)
            (sym (found_plain c fl h r gb cached s plain))
            (evaluate-Tracks apart I _ _ gb at named here cached s (gb.status, now, here))
    ]

    -- A reconcile that reads the stored status of a budget takes it along the diagram, whatever fails
    -- on the way, and to no other status: an unknown usage keeps the resources, a compliant one is
    -- stored with none, an enforcement stores a merge of them, and a reset drops them where its
    -- annotation is set and each of them was restored without an error.
    pub reconcile-Reach :
        (gb : GpuBudget fl.F) (cached : Option h.Client) (s s' : c.State)
        → h.get space n s ≡ (ok gb, s')
        → stored space n s ≡ some gb.status
        → (st : GpuBudgetStatus fl.F) × (stored space n (reconcile c fl h r space n cached s).state
            ≡ some st)
          × Reach (CanReset gb s') (standing gb.status) (standing st)
    unfolding reconcile
    reconcile-Reach gb cached s s' e now =
        let (at, named) = K.get_ok space n s s' gb e in
        rw e (
          found-Tracks gb at named cached s'
            (ap (λ x. stored space n x.1) (sym e) ∙ K.get_alone space n space n s ∙ now))

-- ===== src/Controllers/Reconcile/Persisted.antt =====
-- What ends up in the stored status of a GpuBudget that nobody else writes to.
use gpu_budget_operator.Base.{
  ℕ, String, ◌<>◌, true, false, Option, none, some, List, [], ◌∷◌, Result, ok, err, ◌≡◌, refl, sym,
  ap, ◌∙◌, ◌⊎◌, inl, inr, arith, Bool-cases, Call-cases, Option-cases,
}
use gpu_budget_operator.Budget.{Floats, GpuBudgetStatus, GpuBudget, phase_enforced, phase_compliant}
use gpu_budget_operator.Objects.{EnforcedResource}
use gpu_budget_operator.Cluster.{Cluster}
use gpu_budget_operator.Enforce.Report.{Error, client, wrapped}
use gpu_budget_operator.Enforce.Namespace.{enforce_namespace}
use gpu_budget_operator.Controllers.Host.{Host}
use gpu_budget_operator.Controllers.Merge.Keys.{IsMerge, merge_enforced-IsMerge}
use gpu_budget_operator.Controllers.Usage.{Usage}
use gpu_budget_operator.Controllers.Reconcile.Branches.{
  due, with_enforced, with_compliant, decide_due, decide_fine,
}
use gpu_budget_operator.Controllers.Status.{
  Settings, one, sticky, measured, enforced_status, with_condition,
}
use gpu_budget_operator.Controllers.Reconcile.{
  Reconciled, persist_attempt, persist_status, finish, decide,
}

module _ (c : Cluster) (fl : Floats) (h : Host c fl) where
  -- What the theorems assume of the calls on GpuBudgets: `stored ns n s` is the status of the budget
  -- `ns/n`. A retry comes back as its last attempt does, which follows attempts alone.
  pub record IsKept (stored : String → String → c.State → Option (GpuBudgetStatus fl.F))
      : Type 1 where
    pub get_ok :
        (ns n : String) (s s' : c.State) (gb : GpuBudget fl.F)
        → h.get ns n s ≡ (ok gb, s')
        → (gb.namespace ≡ ns) × (gb.name ≡ n)
    pub get_alone : (ns n m k : String) (s : c.State) → stored m k (h.get ns n s).1 ≡ stored m k s
    pub update_status_ok :
        (gb gb' : GpuBudget fl.F) (s s' : c.State)
        → h.update_status gb s ≡ (ok gb', s')
        → stored gb.namespace gb.name s' ≡ some gb.status
    pub update_status_err :
        (gb : GpuBudget fl.F) (s s' : c.State) (e : c.Err)
        → h.update_status gb s ≡ (err e, s')
        → (m k : String) → stored m k s' ≡ stored m k s
    pub retried :
        (f : c.State → Result c.Err String × c.State)
        → (P : c.State → Type 0) → ((s : c.State) → P s → P (f s).1)
        → (s : c.State) → P s
        → (s' : c.State) × P s' × (h.retry_on_conflict f s ≡ f s')

module _ (c : Cluster) (fl : Floats) (h : Host c fl) (r : Settings fl.F)
    (stored : String → String → c.State → Option (GpuBudgetStatus fl.F))
    (K : IsKept c fl h stored) where
  attempt_unread :
      (gb : GpuBudget fl.F) (s s' : c.State) (e : c.Err)
      → h.get gb.namespace gb.name s ≡ (err e, s')
      → persist_attempt c fl h r gb s ≡ (err e, s')
  unfolding persist_attempt
  attempt_unread gb s s' e p = ground (arith, p)

  attempt_refused :
      (gb latest : GpuBudget fl.F) (s s' s'' : c.State) (e : c.Err)
      → h.get gb.namespace gb.name s ≡ (ok latest, s')
      → h.update_status (record latest { status = gb.status }) s' ≡ (err e, s'')
      → persist_attempt c fl h r gb s ≡ (err e, s'')
  unfolding persist_attempt
  attempt_refused gb latest s s' s'' e p q = ground (arith, p, q)

  attempt_sent :
      (gb latest new : GpuBudget fl.F) (s s' s'' : c.State)
      → h.get gb.namespace gb.name s ≡ (ok latest, s')
      → h.update_status (record latest { status = gb.status }) s' ≡ (ok new, s'')
      → persist_attempt c fl h r gb s ≡ (ok new.resource_version, s'')
  unfolding persist_attempt
  attempt_sent gb latest new s s' s'' p q = ground (arith, p, q)

  -- An attempt stores the status, or fails and stores nothing.
  pub attempt_lem :
      (gb : GpuBudget fl.F) (s : c.State)
      → ((v : String) × (s' : c.State) × (persist_attempt c fl h r gb s ≡ (ok v, s'))
          × (stored gb.namespace gb.name s' ≡ some gb.status))
        ⊎ ((e : c.Err) × (s' : c.State) × (persist_attempt c fl h r gb s ≡ (err e, s'))
            × (stored gb.namespace gb.name s' ≡ stored gb.namespace gb.name s))
  attempt_lem gb s = elim (Call-cases (h.get gb.namespace gb.name s)) [
    | inr (e, s', p) ↦ inr (
      e,
      s',
      attempt_unread gb s s' e p,
      ap (λ x. stored gb.namespace gb.name x.1) (sym p)
          ∙ K.get_alone gb.namespace gb.name gb.namespace gb.name s,
    )
    | inl (latest, s', p) ↦
        let (space, named) = K.get_ok gb.namespace gb.name s s' latest p in
        let same : stored gb.namespace gb.name s' ≡ stored gb.namespace gb.name s =
          ap (λ x. stored gb.namespace gb.name x.1) (sym p)
          ∙ K.get_alone gb.namespace gb.name gb.namespace gb.name s in
        elim (Call-cases (h.update_status (record latest { status = gb.status }) s')) [
          | inr (e, s'', q) ↦ inr (
            e,
            s'',
            attempt_refused gb latest s s' s'' e p q,
            K.update_status_err _ s' s'' e q gb.namespace gb.name ∙ same,
          )
          | inl (new, s'', q) ↦ inl (
            new.resource_version,
            s'',
            attempt_sent gb latest new s s' s'' p q,
            ground (arith, K.update_status_ok _ new s' s'' q, space, named),
          )
        ]
  ]

  persist_status_ok :
      (gb : GpuBudget fl.F) (s : c.State)
      → (persist_status c fl h r gb s).0 ≡ none
      → stored gb.namespace gb.name (persist_status c fl h r gb s).1 ≡ some gb.status
  unfolding persist_status
  persist_status_ok gb s fine =
      let (s', _, last) = K.retried (persist_attempt c fl h r gb) (λ t. Unit) (λ t p. tt) s tt in
      elim (attempt_lem gb s') [
        | inl (v, s'', e, here) ↦ ground (arith, last, e, here)
        | inr (x, s'', e, _) ↦ absurd (ground (arith, last, e, fine))
      ]

  -- The reconcile could not store the status, and says so.
  abbrev pub IsUnstored : GpuBudget fl.F → Reconciled c fl h r → Type 0
  IsUnstored gb out =
      (e : c.Err) × (out.result
        ≡ err (one (wrapped ("updating status for " <> gb.namespace <> "/" <> gb.name) (client e))))

  finish-IsUnstored :
      (gb : GpuBudget fl.F) (errors : List (Error c.Err)) (p : Option h.Client) (s : c.State)
      (e : c.Err)
      → (persist_status c fl h r gb s).0 ≡ some e
      → IsUnstored gb (finish c fl h r gb errors p s)
  unfolding finish
  finish-IsUnstored gb errors p s e q = (e, ground (arith, q))

  finish_lem :
      (gb : GpuBudget fl.F) (errors : List (Error c.Err)) (p : Option h.Client) (s : c.State)
      → IsUnstored gb (finish c fl h r gb errors p s)
        ⊎ (stored gb.namespace gb.name (finish c fl h r gb errors p s).state ≡ some gb.status)
  unfolding finish
  finish_lem gb errors p s = elim (Option-cases (persist_status c fl h r gb s).0) [
    | inl fine ↦ inr (persist_status_ok gb s fine)
    | inr (e, q) ↦ inl (finish-IsUnstored gb errors p s e q)
  ]

  pub sticky-false : (rs : List EnforcedResource) → sticky c fl h r rs ≡ false → rs ≡ []
  sticky-false [] e = refl
  sticky-false (x ∷ xs) e = absurd (cc)

  -- What the status of a budget says after its limits were compared with the usage.
  pub record IsDecided (gb : GpuBudget fl.F) (u : Usage fl h.to_upper) (s : c.State)
      (st : GpuBudgetStatus fl.F) : Type 0 where
    pub enforced :
        due c fl h r gb u ≡ true
        → (st.phase ≡ phase_enforced)
          × IsMerge gb.status.enforced_resources
              (enforce_namespace c gb.namespace s).resources
              st.enforced_resources
    pub compliant :
        due c fl h r gb u ≡ false → (st.phase ≡ phase_compliant) × (st.enforced_resources ≡ [])

  pub with_enforced-IsDecided :
      (gb : GpuBudget fl.F) (now : ℕ) (u : Usage fl h.to_upper) (s : c.State)
      → due c fl h r gb u ≡ true
      → IsDecided gb u s (with_enforced c fl h r gb now u s).status
  unfolding with_condition enforced_status measured
  with_enforced-IsDecided gb now u s e = record {
    enforced = λ q. (refl, merge_enforced-IsMerge _ _);
    compliant = λ q. absurd (ground (arith, e, q));
  }

  pub with_compliant-IsDecided :
      (gb : GpuBudget fl.F) (now : ℕ) (u : Usage fl h.to_upper) (s : c.State)
      → due c fl h r gb u ≡ false
      → IsDecided gb u s (with_compliant c fl h r gb now u).status
  unfolding with_condition measured
  with_compliant-IsDecided gb now u s e = record {
    enforced = λ q. absurd (ground (arith, e, q));
    compliant = λ q. (refl, sticky-false gb.status.enforced_resources (ground (arith, e)));
  }

  -- Unless the status cannot be stored, which the reconcile then returns as its error: over a limit,
  -- or with resources enforced before, the stored phase is Enforced, and the stored resources are
  -- the earlier ones in place, with everything that was acted on now behind them, also where
  -- enforcement failed; otherwise the stored phase is Compliant and no resource is listed.
  pub decide-IsDecided :
      (gb : GpuBudget fl.F) (now : ℕ) (u : Usage fl h.to_upper) (p : Option h.Client) (s : c.State)
      → IsUnstored gb (decide c fl h r gb now u p s)
        ⊎ ((st : GpuBudgetStatus fl.F) × (stored gb.namespace gb.name
                (decide c fl h r gb now u p s).state
              ≡ some st)
            × IsDecided gb u s st)
  decide-IsDecided gb now u p s = elim (Bool-cases (due c fl h r gb u)) [
    | inl e ↦
        rw (decide_due c fl h r gb now u p s e)
          (elim (finish_lem (with_enforced c fl h r gb now u s)
            (enforce_namespace c gb.namespace s).errors p
            (enforce_namespace c gb.namespace s).state) [
              | inl q ↦ inl q
              | inr here ↦ inr (_, here, with_enforced-IsDecided gb now u s e)
            ])
    | inr e ↦
        rw (decide_fine c fl h r gb now u p s e)
          (elim (finish_lem (with_compliant c fl h r gb now u) [] p s) [
            | inl q ↦ inl q
            | inr here ↦ inr (_, here, with_compliant-IsDecided gb now u s e)
          ])
  ]

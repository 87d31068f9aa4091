-- ===== src/Controllers/Reconcile/Stored.antt =====
-- The ways through a reconcile as the stored status sees them, over any predicate on the statuses that
-- may be sent.
use gpu_budget_operator.Base.{
  ℕ, String, Option, none, some, List, Result, ok, err, ◌≡◌, refl, sym, ap, ◌∙◌, subst, inl, inr,
  arith, true, false, Bool-cases, Call-cases, ◌==◌,
}
use gpu_budget_operator.Base.Dict.{Dict}
use gpu_budget_operator.Budget.{Floats, GpuBudgetStatus, GpuBudget}
use gpu_budget_operator.Cluster.{Cluster}
use gpu_budget_operator.Metrics.{QueryValue}
use gpu_budget_operator.Enforce.Report.{Error}
use gpu_budget_operator.Enforce.Namespace.Frame.{IsApart, enforce_namespace_alone}
use gpu_budget_operator.Controllers.Host.{Host}
use gpu_budget_operator.Controllers.Usage.{Usage}
use gpu_budget_operator.Controllers.Status.{Settings, failed}
use gpu_budget_operator.Controllers.Reconcile.{
  prometheus_client, persist_attempt, persist_status, mark_failed, finish, decide, priced, counted,
  answered, connected, evaluate, query_of,
}
use gpu_budget_operator.Controllers.Reconcile.Branches.{
  due, decide_due, decide_fine, with_compliant, with_enforced,
}
use gpu_budget_operator.Controllers.Reconcile.Persisted.{IsKept, attempt_lem}

module _ (c : Cluster) (fl : Floats) (h : Host c fl) (r : Settings fl.F)
    (stored : String → String → c.State → Option (GpuBudgetStatus fl.F)) (K : IsKept c fl h stored)
    (space n : String) (apart : IsApart c (λ s. stored space n s))
    (new_client_apart : (url : String) (s : c.State)
      → stored space n (h.new_client url s).1 ≡ stored space n s)
    (query_apart : (p : h.Client) (q : String) (s : c.State)
      → stored space n (h.query p q s).1 ≡ stored space n s)
    (Good : GpuBudgetStatus fl.F → Type 0) where
  -- The budget has a stored status, and a good one.
  abbrev pub Holds : c.State → Type 0
  Holds s = (st : GpuBudgetStatus fl.F) × (stored space n s ≡ some st) × Good st

  pub Holds-same : (s s' : c.State) → stored space n s' ≡ stored space n s → Holds s → Holds s'
  Holds-same s s' e (st, q, x) = (st, e ∙ q, x)

  -- The budget `space/n` as a reconcile has it, with what may be sent from it.
  pub record IsAllowed (gb : GpuBudget fl.F) : Type 0 where
    pub in_space : gb.namespace ≡ space
    pub named : gb.name ≡ n
    pub fails :
        (reason : String) (cause : Error c.Err) → Good (failed c fl h r gb reason cause).status
    pub enforces :
        (now : ℕ) (u : Usage fl h.to_upper) (s : c.State)
        → due c fl h r gb u ≡ true
        → Good (with_enforced c fl h r gb now u s).status
    pub complies :
        (now : ℕ) (u : Usage fl h.to_upper)
        → due c fl h r gb u ≡ false
        → Good (with_compliant c fl h r gb now u).status

  -- A budget that may be sent.
  abbrev Follows : GpuBudget fl.F → Type 0
  Follows new = (new.namespace ≡ space) × (new.name ≡ n) × Good new.status

  attempt-Holds :
      (new : GpuBudget fl.F)
      → Follows new
      → (s : c.State) → Holds s
      → Holds (persist_attempt c fl h r new s).1
  attempt-Holds new (at, named, good) s kept = elim (attempt_lem c fl h r stored K new s) [
    | inl (v, s', e, here) ↦ (new.status, ground (arith, e, here, at, named), good)
    | inr (x, s', e, same) ↦
        Holds-same s (persist_attempt c fl h r new s).1 (ground (arith, e, same, at, named)) kept
  ]

  persist_status_state :
      (new : GpuBudget fl.F) (s : c.State)
      → (persist_status c fl h r new s).1 ≡ (h.retry_on_conflict (persist_attempt c fl h r new) s).1
  unfolding persist_status
  persist_status_state new s =
      elim (Call-cases (h.retry_on_conflict (persist_attempt c fl h r new) s)) [
        | inl (v, s', e) ↦ ground (arith, e)
        | inr (x, s', e) ↦ ground (arith, e)
      ]

  finish-Holds :
      (new : GpuBudget fl.F) (errors : List (Error c.Err)) (p : Option h.Client) (s : c.State)
      → Follows new
      → Holds s
      → Holds (finish c fl h r new errors p s).state
  unfolding finish
  finish-Holds new errors p s follows kept =
      let (s', kept', last) =
        K.retried (persist_attempt c fl h r new) Holds (attempt-Holds new follows) s kept in
      subst Holds (sym (persist_status_state new s ∙ ap (λ x. x.1) last))
        (attempt-Holds new follows s' kept')

  mark_failed-Holds :
      (gb : GpuBudget fl.F)
      → IsAllowed gb
      → (reason : String) (cause : Error c.Err) (p : Option h.Client) (s : c.State) → Holds s
      → Holds (mark_failed c fl h r gb reason cause p s).state
  unfolding mark_failed failed
  mark_failed-Holds gb a reason cause p s kept =
      elim (Call-cases (h.update_status (failed c fl h r gb reason cause) s)) [
        | inl (new, s', e) ↦ (
          (failed c fl h r gb reason cause).status,
          ap (λ x. stored space n x.1) e
              ∙ ground (arith, K.update_status_ok _ new s s' e, a.in_space, a.named),
          a.fails reason cause,
        )
        | inr (x, s', e) ↦
            Holds-same s _ (ap (λ x. stored space n x.1) e ∙ K.update_status_err _ s s' x e space n)
              kept
      ]

  decide-Holds :
      (gb : GpuBudget fl.F)
      → IsAllowed gb
      → (now : ℕ) (u : Usage fl h.to_upper) (p : Option h.Client) (s : c.State) → Holds s
      → Holds (decide c fl h r gb now u p s).state
  decide-Holds gb a now u p s kept = elim (Bool-cases (due c fl h r gb u)) [
    | inl e ↦ rw (decide_due c fl h r gb now u p s e) (
        finish-Holds _ _ p _ (a.in_space, a.named, a.enforces now u s e)
          (Holds-same s _ (enforce_namespace_alone c _ apart gb.namespace s) kept))
    | inr e ↦
        rw (decide_fine c fl h r gb now u p s e)
          (finish-Holds _ _ p _ (a.in_space, a.named, a.complies now u e) kept)
  ]

  priced-Holds :
      (gb : GpuBudget fl.F)
      → IsAllowed gb
      → (now : ℕ) (p : h.Client) (s : c.State) (u : Result String (Usage fl h.to_upper)) → Holds s
      → Holds (priced c fl h r gb now p s u).state
  unfolding priced
  priced-Holds gb a now p s (err gpu_type) kept = mark_failed-Holds gb a _ _ (some p) s kept
  priced-Holds gb a now p s (ok u) kept = decide-Holds gb a now u (some p) s kept

  counted-Holds :
      (gb : GpuBudget fl.F)
      → IsAllowed gb
      → (now : ℕ) (p : h.Client) (q : String) (s : c.State) (hours : Result String (Dict fl.F))
      → Holds s
      → Holds (counted c fl h r gb now p q s hours).state
  unfolding counted
  counted-Holds gb a now p q s (err kind) kept = mark_failed-Holds gb a _ _ (some p) s kept
  counted-Holds gb a now p q s (ok hours) kept = priced-Holds gb a now p s _ kept

  answered-Holds :
      (gb : GpuBudget fl.F)
      → IsAllowed gb
      → (now : ℕ) (p : h.Client) (q : String) (answer : Result c.Err (QueryValue fl.F) × c.State)
      → Holds answer.1
      → Holds (answered c fl h r gb now p q answer).state
  unfolding answered
  answered-Holds gb a now p q (err e, s) kept = mark_failed-Holds gb a _ _ (some p) s kept
  answered-Holds gb a now p q (ok v, s) kept = counted-Holds gb a now p q s _ kept

  connected-Holds :
      (gb : GpuBudget fl.F)
      → IsAllowed gb
      → (cached : Option h.Client) (got : Result (Error c.Err) h.Client × c.State) → Holds got.1
      → Holds (connected c fl h r gb cached got).state
  unfolding connected
  connected-Holds gb a cached (err e, s) kept = mark_failed-Holds gb a _ _ cached s kept
  connected-Holds gb a cached (ok p, s) kept =
      answered-Holds gb a (c.now s) p (query_of c fl h r gb (c.now s)) _
        (Holds-same s _ (query_apart p (query_of c fl h r gb (c.now s)) s) kept)

  client_alone :
      (cached : Option h.Client) (s : c.State)
      → stored space n
          (elim cached as (λ x. Result (Error c.Err) h.Client × c.State) [
            | some p ↦ (ok p, s)
            | none ↦ h.new_client r.prometheus_url s
          ]).1
        ≡ stored space n s
  client_alone none s = new_client_apart r.prometheus_url s
  client_alone (some p) s = refl

  prometheus_client_alone :
      (cached : Option h.Client) (s : c.State)
      → stored space n (prometheus_client c fl h r cached s).1 ≡ stored space n s
  unfolding prometheus_client
  prometheus_client_alone cached s = elim (Bool-cases (r.prometheus_url == "")) [
    | inl e ↦ rw e refl
    | inr e ↦ rw e (client_alone cached s)
  ]

  -- Through any way of a reconcile the stored status stays good.
  pub evaluate-Holds :
      (gb : GpuBudget fl.F)
      → IsAllowed gb
      → (cached : Option h.Client) (s : c.State) → Holds s
      → Holds (evaluate c fl h r gb cached s).state
  unfolding evaluate
  evaluate-Holds gb a cached s kept =
      connected-Holds gb a cached _ (Holds-same s _ (prometheus_client_alone cached s) kept)

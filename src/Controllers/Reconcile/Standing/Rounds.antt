-- ===== src/Controllers/Reconcile/Standing/Rounds.antt =====
-- Reconciles of one budget over and over, with anything else in between.
use gpu_budget_operator.Base.{
  String, Option, some, [], ok, err, ◌≡◌, sym, ap, ◌∙◌, subst, ◌⊎◌, inl, inr, Call-cases,
}
use mathlib.Core.Option.{some-injective}
use gpu_budget_operator.Budget.{Floats, GpuBudgetStatus, GpuBudget}
use gpu_budget_operator.Cluster.{Cluster}
use gpu_budget_operator.Enforce.Namespace.Frame.{IsApart}
use gpu_budget_operator.Controllers.Host.{Host}
use gpu_budget_operator.Controllers.Status.{Settings}
use gpu_budget_operator.Controllers.Reconcile.{found, reconcile}
use gpu_budget_operator.Controllers.Reconcile.Persisted.{IsKept}
use gpu_budget_operator.Controllers.Reconcile.Standing.{standing, IsSound, Reach-IsSound}
use gpu_budget_operator.Controllers.Reconcile.Standing.Refined.{IsIdle, reconcile-Reach}

module _ (c : Cluster) (fl : Floats) (h : Host c fl) (r : Settings fl.F)
    (stored : String → String → c.State → Option (GpuBudgetStatus fl.F)) (K : IsKept c fl h stored)
    (space n : String) (apart : IsApart c (λ s. stored space n s))
    (I : IsIdle c fl h r stored K space n)
    -- Reads are not older than the last write.
    (current : (gb : GpuBudget fl.F) (s s' : c.State)
      → h.get space n s ≡ (ok gb, s')
      → stored space n s ≡ some gb.status) where
  -- A reconcile of the budget, with a client cached or not, or what others do: they may create and
  -- delete the budget, but do not write its status.
  pub data Round (s : c.State) : c.State → Type 0 where
    tick : (cached : Option h.Client) → Round s (reconcile c fl h r space n cached s).state
    others :
        (s' : c.State)
        → ((st : GpuBudgetStatus fl.F)
            → stored space n s' ≡ some st
            → (stored space n s ≡ some st) ⊎ ((standing st).enforced ≡ []))
        → Round s s'

  pub data Rounds (s : c.State) : c.State → Type 0 where
    start : Rounds s s
    then : {s' s'' : c.State} → Rounds s s' → Round s' s'' → Rounds s s''

  -- The stored status, if there is one, is sound.
  abbrev pub Sound : c.State → Type 0
  Sound s = (st : GpuBudgetStatus fl.F) → stored space n s ≡ some st → IsSound (standing st)

  unread-Sound :
      (cached : Option h.Client) (s s' : c.State) (e : c.Err)
      → h.get space n s ≡ (err e, s')
      → Sound s
      → Sound (reconcile c fl h r space n cached s).state
  unfolding reconcile found
  unread-Sound cached s s' e q sound =
      rw q (λ st p.
        sound st (sym (K.get_alone space n space n s) ∙ ap (λ x. stored space n x.1) q ∙ p))

  reconcile-Sound :
      (cached : Option h.Client) (s : c.State)
      → Sound s
      → Sound (reconcile c fl h r space n cached s).state
  reconcile-Sound cached s sound = elim (Call-cases (h.get space n s)) [
    | inr (e, s', q) ↦ unread-Sound cached s s' e q sound
    | inl (gb, s', q) ↦
        let now = current gb s s' q in
        let (st, is, reach) =
          reconcile-Reach c fl h r stored K space n apart I gb cached s s' q now in
        λ st' p.
          subst (λ x. IsSound (standing x)) (some-injective _ _ (sym is ∙ p))
            (Reach-IsSound reach (sound gb.status now))
  ]

  empty-IsSound : (st : GpuBudgetStatus fl.F) → st.enforced_resources ≡ [] → IsSound (standing st)
  empty-IsSound st e = record { free = λ p. e; distinct = rw e tt }

  Round-Sound : {s s' : c.State} → Round s s' → Sound s → Sound s'
  Round-Sound (tick cached) sound = reconcile-Sound cached _ sound
  Round-Sound (others s' kept) sound = λ st p. elim (kept st p) [
    | inl before ↦ sound st before
    | inr none_yet ↦ empty-IsSound st none_yet
  ]

  Rounds-Sound : (s s' : c.State) → Rounds s s' → Sound s → Sound s'
  Rounds-Sound s _ start sound = sound
  Rounds-Sound s _ (then before last) sound = Round-Sound last (Rounds-Sound s _ before sound)

  -- Over any sequence of reconciles of a budget, with whatever others do in between, the creation
  -- and the deletion of the budget included, a stored status that lists no resource twice, and none
  -- with the phase Compliant, stays so. Reads are asked to be current, and only the operator writes
  -- the status of a budget that has one.
  pub reconcile-IsSound :
      (s s' : c.State) (st : GpuBudgetStatus fl.F)
      → Rounds s s'
      → Sound s
      → stored space n s' ≡ some st
      → IsSound (standing st)
  reconcile-IsSound s s' st rounds sound p = Rounds-Sound s s' rounds sound st p

-- ===== src/Controllers/Reconcile/Standing.antt =====
-- What a reconcile promises of the stored status of a budget, with everything but the phase and
-- the enforced resources left out: a transition diagram, and what holds along it.
pub mod Refined
pub mod Rounds
use gpu_budget_operator.Base.{
  String, List, [], ◌≡◌, ◌≢◌, refl, sym, ap, ◌∙◌, ◌⊎◌, inl, inr, arith, string_dec,
}
use gpu_budget_operator.Budget.{GpuBudgetStatus, phase_compliant, phase_enforced, phase_unknown}
use gpu_budget_operator.Objects.{EnforcedResource}
use gpu_budget_operator.Controllers.Merge.Keys.{
  IsMerge, IsExtension, NodupKeys, append_nil, IsExtension-trans,
}

pub record Standing : Type 0 where
  pub phase : String
  pub enforced : List EnforcedResource

abbrev pub standing : {F : Type 0} → GpuBudgetStatus F → Standing
standing st = record { phase = st.phase; enforced = st.enforced_resources }

-- One change of the stored status, where the proposition says when a reset is allowed.
pub data Move (CanReset : Type 0) : Standing → Standing → Type 0 where
  -- The usage is not known.
  fail : (a : Standing) → Move CanReset a (record a { phase = phase_unknown })
  -- Within the limits, with nothing enforced.
  comply : (a : Standing) → a.enforced ≡ [] → Move CanReset a (record a { phase = phase_compliant })
  -- Over a limit, or enforced before.
  enforce :
      (a : Standing) (acted merged : List EnforcedResource)
      → IsMerge a.enforced acted merged
      → Move CanReset a (record { phase = phase_enforced; enforced = merged })
  reset :
      (a : Standing)
      → CanReset
      → Move CanReset a (record { phase = phase_compliant; enforced = [] })

pub data Reach (CanReset : Type 0) (a : Standing) : Standing → Type 0 where
  here : Reach CanReset a a
  next : {b d : Standing} → Reach CanReset a b → Move CanReset b d → Reach CanReset a d

-- No resource is listed twice, and none at all where the phase is Compliant.
pub record IsSound (a : Standing) : Type 0 where
  pub free : a.phase ≡ phase_compliant → a.enforced ≡ []
  pub distinct : NodupKeys a.enforced

Move-IsSound : {R : Type 0} {a b : Standing} → Move R a b → IsSound a → IsSound b
unfolding string_dec
Move-IsSound (fail a) h = record { free = λ p. absurd (cc); distinct = h.distinct }
Move-IsSound (comply a e) h = record { free = λ p. e; distinct = h.distinct }
Move-IsSound (enforce a acted merged m) h = record {
  free = λ p. absurd (cc);
  distinct = m.nodup h.distinct;
}
Move-IsSound (reset a r) h = record { free = λ p. refl; distinct = tt }

pub Reach-IsSound : {R : Type 0} {a b : Standing} → Reach R a b → IsSound a → IsSound b
Reach-IsSound here h = h
Reach-IsSound (next r m) h = Move-IsSound m (Reach-IsSound r h)

Move-IsExtension :
    {R : Type 0} {a b : Standing} → Move R a b → IsExtension a.enforced b.enforced ⊎ R
Move-IsExtension (fail a) = inl ([], sym (append_nil a.enforced))
Move-IsExtension (comply a e) = inl ([], sym (append_nil a.enforced))
Move-IsExtension (enforce a acted merged m) = inl m.extends
Move-IsExtension (reset a r) = inr r

-- Resources leave the list by an allowed reset alone.
pub Reach-IsExtension :
    {R : Type 0} {a b : Standing} → Reach R a b → IsExtension a.enforced b.enforced ⊎ R
Reach-IsExtension {a = a} here = inl ([], sym (append_nil a.enforced))
Reach-IsExtension (next r m) = elim (Reach-IsExtension r) [
  | inr x ↦ inr x
  | inl p ↦ elim (Move-IsExtension m) [ inr x ↦ inr x | inl q ↦ inl (IsExtension-trans _ _ _ p q) ]
]

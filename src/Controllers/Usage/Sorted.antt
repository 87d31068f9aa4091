-- ===== src/Controllers/Usage/Sorted.antt =====
-- The usage by type that `computeUsage` returns.
use mathlib.Core.List.{Perm, perm_middle, append-nil}
use mathlib.Core.List.Perm
use gpu_budget_operator.Base.{
  String, Bool, true, false, List, [], ◌∷◌, ◌++◌, ok, ◌≡◌, refl, sym, subst, inl, inr, arith, All,
  All-map, Bool-cases, Result-cases,
}
use gpu_budget_operator.Base.Dict.{Dict}
use gpu_budget_operator.Budget.{Floats, GpuTypeUsage}
use gpu_budget_operator.Controllers.Rates.{rate_for}
use gpu_budget_operator.Controllers.Usage.{
  precedes, Usage, no_usage, with_hours, with_dollars, insert_usage, sort_usage, sorted, usage_loop,
  compute_usage,
}

precedes_asym : (s t : String) → precedes s t ≡ true → precedes t s ≡ false
unfolding precedes
precedes_asym String.[] String.[] h = refl
precedes_asym String.[] (String.◌∷◌ d t) h = refl
precedes_asym (String.◌∷◌ c s) String.[] h = absurd (cc)
precedes_asym (String.◌∷◌ c s) (String.◌∷◌ d t) h = ground (arith, h, precedes_asym s t)

precedes_trans :
    (r s t : String) → precedes s r ≡ false → precedes t s ≡ false → precedes t r ≡ false
unfolding precedes
precedes_trans String.[] String.[] String.[] h k = refl
precedes_trans String.[] String.[] (String.◌∷◌ e t) h k = refl
precedes_trans String.[] (String.◌∷◌ d s) String.[] h k = refl
precedes_trans String.[] (String.◌∷◌ d s) (String.◌∷◌ e t) h k = refl
precedes_trans (String.◌∷◌ c r) String.[] t h k = absurd (cc)
precedes_trans (String.◌∷◌ c r) (String.◌∷◌ d s) String.[] h k = absurd (cc)
precedes_trans (String.◌∷◌ c r) (String.◌∷◌ d s) (String.◌∷◌ e t) h k =
    ground (arith, h, k, precedes_trans r s t)

module _ {F : Type 0} where
  -- The first type does not stand after the second one.
  abbrev pub IsBefore : GpuTypeUsage F → GpuTypeUsage F → Type 0
  IsBefore u v = precedes v.gpu_type u.gpu_type ≡ false

  abbrev pub IsSorted : List (GpuTypeUsage F) → Type 0
  IsSorted [] = Unit
  IsSorted (u ∷ us) = All (IsBefore u) us × IsSorted us

module _ (fl : Floats) (to_upper : String → String) where
  abbrev Entry : Type 0
  Entry = GpuTypeUsage fl.F

  insert_front :
      (u v : Entry) (vs : List Entry)
      → precedes u.gpu_type v.gpu_type ≡ true
      → insert_usage fl to_upper u (v ∷ vs) ≡ u ∷ v ∷ vs
  unfolding insert_usage
  insert_front u v vs e = ground (arith, e)

  insert_behind :
      (u v : Entry) (vs : List Entry)
      → precedes u.gpu_type v.gpu_type ≡ false
      → insert_usage fl to_upper u (v ∷ vs) ≡ v ∷ insert_usage fl to_upper u vs
  unfolding insert_usage
  insert_behind u v vs e = ground (arith, e)

  insert-All :
      (P : Entry → Type 0) (u : Entry) (vs : List Entry)
      → P u
      → All P vs
      → All P (insert_usage fl to_upper u vs)
  unfolding insert_usage
  insert-All P u [] p h = (p, tt)
  insert-All P u (v ∷ vs) p h = elim (Bool-cases (precedes u.gpu_type v.gpu_type)) [
    | inl e ↦ subst (All P) (sym (insert_front u v vs e)) (p, h)
    | inr e ↦ subst (All P) (sym (insert_behind u v vs e)) (h.0, insert-All P u vs p h.1)
  ]

  insert-IsSorted :
      (u : Entry) (vs : List Entry) → IsSorted vs → IsSorted (insert_usage fl to_upper u vs)
  unfolding insert_usage
  insert-IsSorted u [] h = (tt, tt)
  insert-IsSorted u (v ∷ vs) h = elim (Bool-cases (precedes u.gpu_type v.gpu_type)) [
    | inl e ↦
        let first = precedes_asym u.gpu_type v.gpu_type e in
        subst IsSorted (sym (insert_front u v vs e)) (
          (
            first,
            All-map _ _ (λ w q. precedes_trans u.gpu_type v.gpu_type w.gpu_type first q) vs h.0,
          ),
          h,
        )
    | inr e ↦
        subst IsSorted (sym (insert_behind u v vs e))
          (insert-All (IsBefore v) u vs e h.0, insert-IsSorted u vs h.1)
  ]

  insert_perm : (u : Entry) (vs : List Entry) → Perm (insert_usage fl to_upper u vs) (u ∷ vs)
  unfolding insert_usage
  insert_perm u [] = Perm.rfl
  insert_perm u (v ∷ vs) = elim (Bool-cases (precedes u.gpu_type v.gpu_type)) [
    | inl e ↦ subst (λ x. Perm x (u ∷ v ∷ vs)) (sym (insert_front u v vs e)) Perm.rfl
    | inr e ↦
        subst (λ x. Perm x (u ∷ v ∷ vs)) (sym (insert_behind u v vs e))
          (Perm.trans (Perm.cons v (insert_perm u vs)) (Perm.swap u v vs))
  ]

  sort_usage-IsSorted : (us : List Entry) → IsSorted (sort_usage fl to_upper us)
  unfolding sort_usage
  sort_usage-IsSorted [] = tt
  sort_usage-IsSorted (u ∷ us) =
      insert-IsSorted u (sort_usage fl to_upper us) (sort_usage-IsSorted us)

  sort_usage_perm : (us : List Entry) → Perm (sort_usage fl to_upper us) us
  unfolding sort_usage
  sort_usage_perm [] = Perm.rfl
  sort_usage_perm (u ∷ us) =
      Perm.trans (insert_perm u (sort_usage fl to_upper us)) (Perm.cons u (sort_usage_perm us))

  -- The entries of the map, as a list of usages.
  pub entries_of : Dict fl.F → List Entry
  entries_of [] = []
  entries_of ((t, v) ∷ hours) = record { gpu_type = t; gpu_hours = v } ∷ entries_of hours

  -- The step of the loop, where it goes on.
  loop_step :
      (rates : Dict fl.F) (b : Bool) (t : String) (v : fl.F) (hours : Dict fl.F)
      (u w : Usage fl to_upper)
      → usage_loop fl to_upper rates b ((t, v) ∷ hours) u ≡ ok w
      → (x : Usage fl to_upper) × (x.usage ≡ (with_hours fl to_upper t v u).usage)
        × (usage_loop fl to_upper rates b hours x ≡ ok w)
  unfolding usage_loop
  loop_step rates false t v hours u w e = (with_hours fl to_upper t v u, refl, e)
  loop_step rates true t v hours u w e = elim (Bool-cases (rate_for fl to_upper rates t).1) [
    | inl found ↦ (
      with_dollars fl to_upper v (rate_for fl to_upper rates t).0 (with_hours fl to_upper t v u),
      refl,
      ground (arith, found, e),
    )
    | inr missing ↦ absurd (ground (arith, missing, e))
  ]

  usage_loop_perm :
      (rates : Dict fl.F) (b : Bool) (hours : Dict fl.F) (u w : Usage fl to_upper)
      → usage_loop fl to_upper rates b hours u ≡ ok w
      → Perm w.usage (entries_of hours ++ u.usage)
  unfolding usage_loop entries_of
  usage_loop_perm rates b [] u w e =
      let same : u ≡ w = ground (arith, e) in subst (λ x. Perm x.usage u.usage) same Perm.rfl
  usage_loop_perm rates b ((t, v) ∷ hours) u w e =
      let (x, is, rest) = loop_step rates b t v hours u w e in
      Perm.trans
        (subst (λ y. Perm w.usage (entries_of hours ++ y)) is
          (usage_loop_perm rates b hours x w rest))
        (perm_middle (entries_of hours) u.usage)

  -- The usage by type that is reported has each entry of the map of hours once, and stands in the
  -- order of the types, whatever the order of the loop.
  pub compute_usage-IsSorted :
      (rates hours : Dict fl.F) (b : Bool) (u : Usage fl to_upper)
      → compute_usage fl to_upper rates hours b ≡ ok u
      → IsSorted u.usage × Perm u.usage (entries_of hours)
  unfolding compute_usage sorted
  compute_usage-IsSorted rates hours b u e =
      elim (Result-cases (usage_loop fl to_upper rates b hours (no_usage fl to_upper))) [
        | inr (x, q) ↦ absurd (ground (arith, q, e))
        | inl (w, q) ↦
            let same : sort_usage fl to_upper w.usage ≡ u.usage = ground (arith, q, e) in
            (
              subst IsSorted same (sort_usage-IsSorted w.usage),
              Perm.trans (subst (λ x. Perm x w.usage) same (sort_usage_perm w.usage)) (
                  subst (Perm w.usage) (append-nil (entries_of hours))
                    (usage_loop_perm rates b hours (no_usage fl to_upper) w q)),
            )
      ]

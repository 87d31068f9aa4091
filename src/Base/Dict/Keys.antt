-- ===== src/Base/Dict/Keys.antt =====
-- Association lists with each key once, and the maps that they stand for.
use mathlib.Core.Path.{◌≡◌, refl, sym, subst}
use mathlib.Core.Logic.{◌≢◌, inl, inr}
use mathlib.Core.Option.{none, some}
use mathlib.Core.List.{[], ◌∷◌}
use native.Mathlib.Omega.{arith}
use Prim.Native.String.{String}
use gpu_budget_operator.Base.Tests.{Bool-cases}
use gpu_budget_operator.Base.Lists.{All, Any}
use gpu_budget_operator.Base.Text.{◌==◌, ==_refl, ==_sound}
use gpu_budget_operator.Base.Dict.{Dict, lookup, insert}

module _ {V : Type 0} where
  abbrev pub IsFresh : String → Dict V → Type 0
  IsFresh k d = All (λ e. e.0 ≢ k) d

  -- No key stands twice.
  abbrev pub DistinctKeys : Dict V → Type 0
  DistinctKeys [] = Unit
  DistinctKeys ((k, v) ∷ d) = IsFresh k d × DistinctKeys d

  -- The two lists stand for one map.
  abbrev pub SameMap : Dict V → Dict V → Type 0
  SameMap d e = (k : String) → lookup k d ≡ lookup k e

  pub lookup_fresh : (k : String) (d : Dict V) → IsFresh k d → lookup k d ≡ none
  unfolding lookup
  lookup_fresh k [] h = refl
  lookup_fresh k ((j, v) ∷ d) h = ground (arith, h.0, lookup_fresh k d h.1)

  pub lookup-Any :
      (P : String × V → Type 0) (d : Dict V)
      → DistinctKeys d
      → Any P d
      → (k : String) × (v : V) × (lookup k d ≡ some v) × P (k, v)
  unfolding lookup
  lookup-Any P [] h p = absurd p
  lookup-Any P ((k, v) ∷ d) h (inl p) = (k, v, ground (arith, ==_refl k), p)
  lookup-Any P ((j, w) ∷ d) h (inr p) =
      let (k, v, e, q) = lookup-Any P d h.1 p in
      elim (Bool-cases (k == j)) [
        | inr other ↦ (k, v, ground (arith, other, e), q)
        | inl same ↦ absurd (ground (arith, ==_sound k j same, e, lookup_fresh j d h.0))
      ]

  pub All-lookup :
      (P : String × V → Type 0) (k : String) (v : V) (d : Dict V)
      → lookup k d ≡ some v
      → All P d
      → P (k, v)
  unfolding lookup
  All-lookup P k v [] e h = absurd (cc)
  All-lookup P k v ((j, w) ∷ d) e h = elim (Bool-cases (k == j)) [
    | inr other ↦ All-lookup P k v d (ground (arith, other, e)) h.1
    | inl same ↦
        let value : w ≡ v = ground (arith, same, e) in
        subst (λ x. P (x, v)) (sym (==_sound k j same)) (subst (λ y. P (j, y)) value h.0)
  ]

  pub insert-All :
      (P : String × V → Type 0) (k : String) (v : V) (d : Dict V)
      → P (k, v)
      → All P d
      → All P (insert k v d)
  unfolding insert
  insert-All P k v [] p h = (p, tt)
  insert-All P k v ((j, w) ∷ d) p h = elim (Bool-cases (k == j)) [
    | inl same ↦ rw same (p, h.1)
    | inr other ↦ rw other (h.0, insert-All P k v d p h.1)
  ]

  pub insert-DistinctKeys :
      (k : String) (v : V) (d : Dict V) → DistinctKeys d → DistinctKeys (insert k v d)
  unfolding insert
  insert-DistinctKeys k v [] h = (tt, tt)
  insert-DistinctKeys k v ((j, w) ∷ d) h = elim (Bool-cases (k == j)) [
    | inl same ↦ rw same (subst (λ x. IsFresh x d) (sym (==_sound k j same)) h.0, h.1)
    | inr other ↦ rw other (
      insert-All (λ e. e.0 ≢ j) k v d (λ p. ground (arith, p, other, ==_refl k)) h.0,
      insert-DistinctKeys k v d h.1,
    )
  ]

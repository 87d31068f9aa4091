-- ===== src/Controllers/Rates/Longest.antt =====
-- Which family's rate `RateFor` answers.
use gpu_budget_operator.Base.{
  ℕ, ◌≤◌, ◌<◌, String, Bool, true, false, not, [], ◌∷◌, ◌≡◌, refl, sym, ap, ◌⊎◌, inl, inr, arith,
  All, All-map, Any, ◌==◌, ==_sound, Bool-cases,
}
use gpu_budget_operator.Base.Dict.{Dict}
use gpu_budget_operator.Budget.{Floats}
use gpu_budget_operator.Controllers.Rates.{length, has_prefix, Best, beats, rate_loop, rate_for}

module _ (fl : Floats) (to_upper : String → String) where
  -- The entry prices the type: a rate above zero whose family begins it.
  abbrev pub Prices : String → String × fl.F → Type 0
  Prices gpu_type entry =
      (fl.le entry.1 fl.nought ≡ false) × (has_prefix (to_upper entry.0) gpu_type ≡ true)

  -- The best entry so far is an entry of the table that prices the type, with a longer family than
  -- the first one's, or still the first one.
  abbrev IsFrom : String → Dict fl.F → Best fl to_upper → Best fl to_upper → Type 0
  IsFrom gpu_type table first best =
      (best ≡ first)
      ⊎ (length first.family < length best.family)
        × Any
            (λ entry.
              Prices gpu_type entry × (to_upper entry.0 ≡ best.family) × (entry.1 ≡ best.rate))
            table

  -- No family that prices the type is longer than the best one.
  abbrev pub IsLongest : String → Dict fl.F → Best fl to_upper → Type 0
  IsLongest gpu_type table best =
      All (λ entry. Prices gpu_type entry → length (to_upper entry.0) ≤ length best.family) table

  taken :
      (gpu_type family : String) (rate : fl.F) (best : Best fl to_upper)
      → beats fl to_upper gpu_type family rate best ≡ true
      → Prices gpu_type (family, rate) × (length best.family < length (to_upper family))
  unfolding beats
  taken gpu_type family rate best e = ((ground (arith, e), ground (arith, e)), ground (arith, e))

  passed :
      (gpu_type family : String) (rate : fl.F) (best : Best fl to_upper)
      → beats fl to_upper gpu_type family rate best ≡ false
      → Prices gpu_type (family, rate)
      → length (to_upper family) ≤ length best.family
  unfolding beats
  passed gpu_type family rate best e (p, q) = ground (arith, e, p, q)

  loop_taken :
      (gpu_type family : String) (rate : fl.F) (rates : Dict fl.F) (best : Best fl to_upper)
      → beats fl to_upper gpu_type family rate best ≡ true
      → rate_loop fl to_upper gpu_type ((family, rate) ∷ rates) best
        ≡ rate_loop fl to_upper gpu_type rates (record { family = to_upper family; rate = rate })
  unfolding rate_loop
  loop_taken gpu_type family rate rates best e = rw (e, rate_loop)

  loop_passed :
      (gpu_type family : String) (rate : fl.F) (rates : Dict fl.F) (best : Best fl to_upper)
      → beats fl to_upper gpu_type family rate best ≡ false
      → rate_loop fl to_upper gpu_type ((family, rate) ∷ rates) best
        ≡ rate_loop fl to_upper gpu_type rates best
  unfolding rate_loop
  loop_passed gpu_type family rate rates best e = rw (e, rate_loop)

  within : {i j k : ℕ} → j ≤ k → i ≤ j → i ≤ k
  within l m = omega arith

  above : {i j k : ℕ} → i < j → j ≤ k → i < k
  above l m = omega arith

  within_nought : {i j : ℕ} → i ≤ j → j ≡ 0 → i ≡ 0
  within_nought l m = omega arith

  not_below : {i j : ℕ} → i < j → j ≡ 0 → ⊥
  not_below l m = omega arith

  -- What the loop leaves.
  record IsBest (gpu_type : String) (table : Dict fl.F) (first best : Best fl to_upper)
      : Type 0 where
    longer : length first.family ≤ length best.family
    from : IsFrom gpu_type table first best
    longest : IsLongest gpu_type table best

  rate_loop-IsBest :
      (gpu_type : String) (table : Dict fl.F) (first : Best fl to_upper)
      → IsBest gpu_type table first (rate_loop fl to_upper gpu_type table first)
  unfolding rate_loop
  rate_loop-IsBest gpu_type [] first = record {
    longer = omega arith;
    from = inl refl;
    longest = tt;
  }
  rate_loop-IsBest gpu_type ((family, rate) ∷ table) first =
      elim (Bool-cases (beats fl to_upper gpu_type family rate first)) [
        | inl e ↦
            let b =
              rate_loop-IsBest gpu_type table (record { family = to_upper family; rate = rate }) in
            let (prices, more) = taken gpu_type family rate first e in
            rw (loop_taken gpu_type family rate table first e) (record {
              longer = (let l = b.longer in omega arith);
              from = elim b.from [
                | inl same ↦ inr (
                  above more b.longer,
                  inl (prices, ap (λ x. x.family) (sym same), ap (λ x. x.rate) (sym same)),
                )
                | inr (l, q) ↦ inr (above more b.longer, inr q)
              ];
              longest = (λ p. b.longer, b.longest);
            })
        | inr e ↦
            let b = rate_loop-IsBest gpu_type table first in
            rw (loop_passed gpu_type family rate table first e) (record {
              longer = b.longer;
              from = elim b.from [ inl same ↦ inl same | inr (l, q) ↦ inr (l, inr q) ];
              longest = (λ p. within b.longer (passed gpu_type family rate first e p), b.longest);
            })
      ]

  -- What the answer says of the table.
  pub record IsRate (rates : Dict fl.F) (gpu_type : String) (answer : fl.F × Bool) : Type 0 where
    pub priced :
        answer.1 ≡ true
        → (family : String) × (0 < length family)
          × Any
              (λ entry.
                Prices (to_upper gpu_type) entry
                × (to_upper entry.0 ≡ family)
                × (entry.1 ≡ answer.0))
              rates
          × All
              (λ entry.
                Prices (to_upper gpu_type) entry → length (to_upper entry.0) ≤ length family)
              rates
    pub unpriced :
        answer.1 ≡ false
        → (answer.0 ≡ fl.nought)
          × All (λ entry. Prices (to_upper gpu_type) entry → length (to_upper entry.0) ≡ 0) rates

  abbrev nobody : Best fl to_upper
  nobody = record { family = ""; rate = fl.nought }

  best_priced :
      (gpu_type : String) (rates : Dict fl.F) (best : Best fl to_upper)
      → IsBest gpu_type rates nobody best
      → not (best.family == "") ≡ true
      → (0 < length best.family)
        × Any
            (λ entry.
              Prices gpu_type entry × (to_upper entry.0 ≡ best.family) × (entry.1 ≡ best.rate))
            rates
  unfolding length
  best_priced gpu_type rates best b found = elim b.from [
    | inr q ↦ q
    | inl same ↦ absurd (ground (arith, found, ap (λ x. x.family) same))
  ]

  best_unpriced :
      (gpu_type : String) (rates : Dict fl.F) (best : Best fl to_upper)
      → IsBest gpu_type rates nobody best
      → not (best.family == "") ≡ false
      → (best.rate ≡ fl.nought)
        × All (λ entry. Prices gpu_type entry → length (to_upper entry.0) ≡ 0) rates
  unfolding length
  best_unpriced gpu_type rates best b found =
      let empty : best.family ≡ "" = ==_sound best.family "" (ground (arith, found)) in
      let none_long : length best.family ≡ 0 = ap length empty in
      (
        elim b.from [
          | inl same ↦ ap (λ x. x.rate) same
          | inr (l, q) ↦ absurd (not_below l none_long)
        ],
        All-map _ _ (λ entry shorter prices. within_nought (shorter prices) none_long) rates
            b.longest,
      )

  -- A rate that is found is that of an entry above zero whose family begins the type, letter case
  -- aside, and is not empty, and no such family is longer; where none is found, the rate is zero and
  -- every such family is empty. This holds for the table in any order.
  pub rate_for-IsRate :
      (rates : Dict fl.F) (gpu_type : String)
      → IsRate rates gpu_type (rate_for fl to_upper rates gpu_type)
  unfolding rate_for
  rate_for-IsRate rates gpu_type =
      let best = rate_loop fl to_upper (to_upper gpu_type) rates nobody in
      let b = rate_loop-IsBest (to_upper gpu_type) rates nobody in
      record {
        priced = λ found.
            let (some_text, q) = best_priced (to_upper gpu_type) rates best b found in
            (best.family, some_text, q, b.longest);
        unpriced = λ found. best_unpriced (to_upper gpu_type) rates best b found;
      }

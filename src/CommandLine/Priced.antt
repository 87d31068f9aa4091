-- ===== src/CommandLine/Priced.antt =====
-- The flag's rates as `RateFor` reads them: the manager is given `gpuRates.rates`, a nil map where
-- the flag was not set.
use gpu_budget_operator.Base.{
  ◌≤◌, String, true, false, Option, some, ok, ◌≡◌, ◌≢◌, refl, sym, ap, ◌∙◌, subst, inl, inr, arith,
  Bool-cases,
}
use mathlib.Core.Option.{some-injective}
use gpu_budget_operator.Base.Dict.{Dict, lookup, make, lookup-insert_self}
use gpu_budget_operator.Base.Dict.Keys.{All-lookup}
use gpu_budget_operator.Budget.{Floats}
use gpu_budget_operator.Controllers.Rates.{length, has_prefix, rate_for}
use gpu_budget_operator.Controllers.Rates.Longest.{Prices, rate_for-IsRate}
use gpu_budget_operator.Controllers.Rates.Order.{has_prefix_refl, has_prefix_whole, found_entry}
use gpu_budget_operator.CommandLine.{cut, with_rate, set}
use gpu_budget_operator.CommandLine.Rates.{IsTable, IsTaken, set-IsTaken, set-IsTable}

length_none : (s : String) → length s ≡ 0 → s ≡ ""
unfolding length
length_none String.[] e = refl
length_none (String.◌∷◌ c s) e = absurd (omega arith)

module _ (fl : Floats) (to_upper : String → String)
    (upper_upper : (s : String) → to_upper (to_upper s) ≡ to_upper s)
    (upper_some : (s : String) → s ≢ "" → to_upper s ≢ "") (parse_float : String → Option fl.F)
    (print_float : fl.F → String) where
  -- An entry whose key is the whole type is the one that is answered.
  whole_key :
      (d : Option (Dict fl.F)) (key gpu_type : String) (rate : fl.F)
      → IsTable to_upper parse_float print_float d
      → key ≢ ""
      → lookup key (make d) ≡ some rate
      → fl.le rate fl.nought ≡ false
      → to_upper gpu_type ≡ key
      → rate_for fl to_upper (make d) gpu_type ≡ (rate, true)
  whole_key d key gpu_type rate (distinct, upper) named here above is =
      let r = rate_for-IsRate fl to_upper (make d) gpu_type in
      let same : to_upper key ≡ key = All-lookup _ key rate (make d) here upper in
      let prices : Prices fl to_upper (to_upper gpu_type) (key, rate) =
        (above, rw (same, is) (has_prefix_refl key)) in
      elim (Bool-cases (rate_for fl to_upper (make d) gpu_type).1) [
        | inr missing ↦
            let empty = All-lookup _ key rate (make d) here (r.unpriced missing).1 prices in
            absurd (named (length_none key (ap length (sym same) ∙ empty)))
        | inl found ↦
            let (there, begins) =
              found_entry fl to_upper (make d) gpu_type _ distinct upper r found in
            let up = All-lookup _ (r.priced found).0 _ (make d) there upper in
            let long = All-lookup _ key rate (make d) here (r.priced found).3 prices in
            let family : (r.priced found).0 ≡ key =
              has_prefix_whole (r.priced found).0 key
                (subst (λ x. has_prefix x key ≡ true) up
                  (subst (λ x. has_prefix (to_upper (r.priced found).0) x ≡ true) is begins.1))
                (subst (λ x. length x ≤ length (r.priced found).0) same long) in
            let rates : (rate_for fl to_upper (make d) gpu_type).0 ≡ rate =
              some-injective _ _ (sym there ∙ ap (λ k. lookup k (make d)) family ∙ here) in
            ground (arith, found, rates)
      ]

  taken_entry :
      (rates after : Option (Dict fl.F)) (value family text : String) (rate : fl.F)
      → (t : IsTaken to_upper parse_float print_float rates value after)
      → cut value ≡ some (family, text)
      → parse_float text ≡ some rate
      → (t.family ≡ family) × (lookup (to_upper family) (make after) ≡ some rate)
  unfolding with_rate make
  taken_entry rates after value family text rate t e p =
      let both = some-injective _ _ (sym t.is_cut ∙ e) in
      let same : t.family ≡ family = ap (λ x. x.0) both in
      let texts : t.text ≡ text = ap (λ x. x.1) both in
      let values : t.rate ≡ rate = some-injective _ _ (sym t.parses ∙ ap parse_float texts ∙ p) in
      (same, rw (t.is, same, values) (lookup-insert_self (to_upper family) rate (make rates)))

  -- A flag `<family>=<usd>` of a rate above zero prices the GPU type of just that name, letter case
  -- aside, at that rate: over an earlier rate of the family, and whatever shorter or longer families
  -- have a rate. Upper-casing is asked to be the same done twice and to leave no name empty.
  pub set-rate_for :
      (rates after : Option (Dict fl.F)) (value family text gpu_type : String) (rate : fl.F)
      → IsTable to_upper parse_float print_float rates
      → set to_upper parse_float print_float rates value ≡ ok after
      → cut value ≡ some (family, text)
      → parse_float text ≡ some rate
      → fl.le rate fl.nought ≡ false
      → to_upper gpu_type ≡ to_upper family
      → rate_for fl to_upper (make after) gpu_type ≡ (rate, true)
  set-rate_for rates after value family text gpu_type rate table h e p above is =
      let t = set-IsTaken to_upper parse_float print_float rates value after h in
      let (same, here) = taken_entry rates after value family text rate t e p in
      whole_key after (to_upper family) gpu_type rate
        (set-IsTable to_upper parse_float print_float upper_upper rates value after h table)
        (upper_some family (λ q. t.named (same ∙ q))) here above is

-- ===== src/Controllers/Usage/Priced.antt =====
-- When `computeUsage` fails.
use gpu_budget_operator.Base.{
  String, true, false, [], ◌∷◌, Result, ok, err, ◌≡◌, refl, ap, ◌∙◌, ◌⊎◌, inl, inr, arith, All, Any,
  Bool-cases,
}
use gpu_budget_operator.Base.Dict.{Dict}
use gpu_budget_operator.Budget.{Floats}
use gpu_budget_operator.Controllers.Rates.{rate_for}
use gpu_budget_operator.Controllers.Usage.{
  Usage, no_usage, with_hours, with_dollars, sorted, usage_loop, compute_usage,
}

module _ (fl : Floats) (to_upper : String → String) (rates : Dict fl.F) where
  abbrev pub IsPriced : String → Type 0
  IsPriced gpu_type = (rate_for fl to_upper rates gpu_type).1 ≡ true

  -- The usage comes back with every type priced, or the error names a type that is not.
  abbrev pub IsChecked : Dict fl.F → Result String (Usage fl to_upper) → Type 0
  IsChecked hours answer =
      ((u : Usage fl to_upper) × (answer ≡ ok u) × All (λ e. IsPriced e.0) hours)
      ⊎ ((t : String) × (answer ≡ err t)
          × Any (λ e. (e.0 ≡ t) × ((rate_for fl to_upper rates e.0).1 ≡ false)) hours)

  loop_found :
      (t : String) (v : fl.F) (hours : Dict fl.F) (u : Usage fl to_upper)
      → IsPriced t
      → usage_loop fl to_upper rates true ((t, v) ∷ hours) u
        ≡ usage_loop fl to_upper rates true hours (
            with_dollars fl to_upper v
              (rate_for fl to_upper rates t).0
              (with_hours fl to_upper t v u))
  unfolding usage_loop
  loop_found t v hours u e = rw (e, usage_loop)

  usage_loop-IsChecked :
      (hours : Dict fl.F) (u : Usage fl to_upper)
      → IsChecked hours (usage_loop fl to_upper rates true hours u)
  unfolding usage_loop
  usage_loop-IsChecked [] u = inl (u, refl, tt)
  usage_loop-IsChecked ((t, v) ∷ hours) u = elim (Bool-cases (rate_for fl to_upper rates t).1) [
    | inr missing ↦ inr (t, ground (arith, missing), inl (refl, missing))
    | inl found ↦
        let next =
          with_dollars fl to_upper v (rate_for fl to_upper rates t).0
            (with_hours fl to_upper t v u) in
        let same = loop_found t v hours u found in
        elim (usage_loop-IsChecked hours next) [
          | inl (w, e, priced) ↦ inl (w, same ∙ e, (found, priced))
          | inr (x, e, q) ↦ inr (x, same ∙ e, inr q)
        ]
  ]

  -- Where dollars are needed, the usage is computed exactly when every GPU type has a rate; the error
  -- names a type of the map that has none.
  pub compute_usage-IsChecked :
      (hours : Dict fl.F) → IsChecked hours (compute_usage fl to_upper rates hours true)
  unfolding compute_usage sorted
  compute_usage-IsChecked hours = elim (usage_loop-IsChecked hours (no_usage fl to_upper)) [
    | inl (w, e, priced) ↦ inl (_, ap (sorted fl to_upper) e, priced)
    | inr (x, e, q) ↦ inr (x, ap (sorted fl to_upper) e, q)
  ]

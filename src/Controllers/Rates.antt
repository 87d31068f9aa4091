-- ===== src/Controllers/Rates.antt =====
-- `GPURates` and `RateFor` of controllers/rates.go. `strings.ToUpper` is the argument `to_upper`.
-- Lengths count characters; of two prefixes of one text the longer is so in bytes too.
pub mod Longest
pub mod Order
use Prim.Native.Char.{Char, code}
use gpu_budget_operator.Base.{
  ℕ, zero, suc, String, Bool, true, false, not, ◌&&◌, List, [], ◌∷◌, ltb, eqb, ◌==◌, if◌then◌else◌,
}
use gpu_budget_operator.Base.Dict.{Dict}
use gpu_budget_operator.Budget.{Floats}

unfoldable pub length : String → ℕ
length String.[] = 0
length (String.◌∷◌ c s) = suc (length s)

-- `strings.HasPrefix(s, prefix)`, the prefix first.
unfoldable pub has_prefix : String → String → Bool
has_prefix String.[] s = true
has_prefix (String.◌∷◌ c p) String.[] = false
has_prefix (String.◌∷◌ c p) (String.◌∷◌ d s) =
    let rest = has_prefix p s in if eqb (code c) (code d) then rest else false

module _ (fl : Floats) (to_upper : String → String) where
  -- The variables of the loop.
  pub record Best : Type 0 where
    pub family : String
    pub rate : fl.F

  -- The entry is taken in place of the best one so far.
  unfoldable pub beats : String → String → fl.F → Best → Bool
  unfolding has_prefix length
  beats gpu_type family rate best =
      not (fl.le rate fl.nought)
      && (has_prefix (to_upper family) gpu_type
          && ltb (length best.family) (length (to_upper family)))

  unfoldable pub rate_loop : String → Dict fl.F → Best → Best
  unfolding beats
  rate_loop gpu_type [] best = best
  rate_loop gpu_type ((family, rate) ∷ rates) best = elim (beats gpu_type family rate best) [
    | true ↦ rate_loop gpu_type rates (record { family = to_upper family; rate = rate })
    | false ↦ rate_loop gpu_type rates best
  ]

  unfoldable pub rate_for : Dict fl.F → String → fl.F × Bool
  unfolding rate_loop
  rate_for rates gpu_type =
      let best = rate_loop (to_upper gpu_type) rates (record { family = ""; rate = fl.nought }) in
      (best.rate, not (best.family == ""))

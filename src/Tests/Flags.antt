-- ===== src/Tests/Flags.antt =====
-- The theorems on the `--gpu-rate` flag at two values.
use gpu_budget_operator.Base.{
  ℕ, String, true, Option, none, some, List, [], ◌∷◌, ◌≡◌, ◌≢◌, refl, arith, inl, inr, eqb, ◌==◌,
  if◌then◌else◌, Bool-cases, string_dec, ==_sound, ==_apart,
}
use gpu_budget_operator.Base.Dict.{make, Dict, lookup}
use gpu_budget_operator.Controllers.Rates.{rate_for}
use gpu_budget_operator.Controllers.Rates.Order.{rate_for_order}
use gpu_budget_operator.CommandLine.{set}
use gpu_budget_operator.CommandLine.Priced.{set-rate_for}
use gpu_budget_operator.Tests.Host.{whole}

-- Upper-casing, on the one name here that has small letters.
abbrev upper : String → String
upper s = if s == "a100" then "A100" else s

upper-upper : (s : String) → upper (upper s) ≡ upper s
unfolding string_dec
upper-upper s = elim (Bool-cases (s == "a100")) [ inl e ↦ rw e refl | inr e ↦ rw (e, e) refl ]

upper_some : (s : String) → s ≢ "" → upper s ≢ ""
upper_some s h = elim (Bool-cases (s == "a100")) [
  | inl e ↦ rw e (λ p. absurd (cc))
  | inr e ↦ rw e h
]

abbrev parse : String → Option ℕ
parse s = if s == "2" then some 2 else if s == "3" then some 3 else none

abbrev print : ℕ → String
print n = if eqb n 2 then "2" else "3"

abbrev values : List String
values = "a100=2" ∷ "H100=3" ∷ "A100=3" ∷ []

abbrev rates : Dict ℕ
rates = ("A100", 3) ∷ ("H100", 3) ∷ []

set-rate_for_example : rate_for whole upper rates "a100" ≡ (3, true)
unfolding make string_dec set
set-rate_for_example =
    set-rate_for whole upper upper-upper upper_some parse print
      (some (("A100", 2) ∷ ("H100", 3) ∷ [])) (some rates) "A100=3" "A100" "3" "a100" 3
      (((==_apart "H100" "A100" refl, tt), (tt, tt)), (refl, (refl, tt))) refl refl refl refl refl

other_order : (k : String) → lookup k rates ≡ lookup k (("H100", 3) ∷ ("A100", 3) ∷ [])
unfolding lookup string_dec
other_order k = elim (Bool-cases (k == "A100")) [
  | inl e ↦ rw (==_sound k "A100" e) refl
  | inr e ↦ ground (arith, e)
]

rate_for_order_example :
    rate_for whole upper rates "A100-SXM4"
    ≡ rate_for whole upper (("H100", 3) ∷ ("A100", 3) ∷ []) "A100-SXM4"
unfolding string_dec
rate_for_order_example =
    rate_for_order whole upper rates (("H100", 3) ∷ ("A100", 3) ∷ []) "A100-SXM4" other_order
      ((==_apart "H100" "A100" refl, tt), (tt, tt)) ((==_apart "A100" "H100" refl, tt), (tt, tt))
      (refl, (refl, tt)) (refl, (refl, tt))

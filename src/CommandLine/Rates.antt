-- ===== src/CommandLine/Rates.antt =====
-- The rates that the values of `--gpu-rate` leave.
use Prim.Native.Char.{code}
use text.Mathlib.TextLemmas.{nil-append, cons-append}
use gpu_budget_operator.Base.{
  String, ◌<>◌, false, Option, some, List, [], ◌∷◌, ok, ◌≡◌, ◌≢◌, refl, sym, ap, ◌∙◌, subst, inl,
  inr, arith, eqb, All, ◌==◌, ==_refl, Bool-cases, Option-cases, Result-cases,
}
use gpu_budget_operator.Base.Dict.{Dict, make}
use gpu_budget_operator.Base.Dict.Keys.{DistinctKeys, insert-All, insert-DistinctKeys}
use gpu_budget_operator.CommandLine.{equals_code, prepend, cut, with_rate, set_cut, set, set_all}

-- The text has no `=`.
abbrev pub HasNoEquals : String → Type 0
HasNoEquals String.[] = Unit
HasNoEquals (String.◌∷◌ c s) = (eqb (code c) equals_code ≡ false) × HasNoEquals s

cut_begins : (s t : String) → HasNoEquals s → cut (s <> String.◌∷◌ "=" t) ≡ some (s, t)
unfolding cut prepend
cut_begins String.[] t h = rw nil-append refl
cut_begins (String.◌∷◌ c s) t h = rw cons-append (ground (arith, h.0, cut_begins s t h.1))

pub cut_first : (s t : String) → HasNoEquals s → cut (s <> "=" <> t) ≡ some (s, t)
cut_first s t h = rw (cons-append, nil-append) (cut_begins s t h)

module _ {F : Type 0} (to_upper : String → String) (parse_float : String → Option F)
    (print_float : F → String) where
  -- How a value was taken.
  pub record IsTaken (rates : Option (Dict F)) (value : String) (after : Option (Dict F))
      : Type 0 where
    pub family : String
    pub text : String
    pub rate : F
    pub is_cut : cut value ≡ some (family, text)
    pub named : family ≢ ""
    pub parses : parse_float text ≡ some rate
    pub is : after ≡ with_rate to_upper parse_float print_float rates family rate

  set_cut-IsTaken :
      (rates : Option (Dict F)) (value family text : String) (after : Option (Dict F))
      → cut value ≡ some (family, text)
      → set_cut to_upper parse_float print_float rates value (some (family, text)) ≡ ok after
      → IsTaken rates value after
  unfolding set_cut
  set_cut-IsTaken rates value family text after e h = elim (Bool-cases (family == "")) [
    | inl p ↦ absurd (ground (arith, p, h))
    | inr p ↦ elim (Option-cases (parse_float text)) [
      | inl q ↦ absurd (ground (arith, p, q, h))
      | inr (rate, q) ↦ record {
        family = family;
        text = text;
        rate = rate;
        is_cut = e;
        named = λ x. ground (arith, p, x, ==_refl "");
        parses = q;
        is = ground (arith, p, q, h);
      }
    ]
  ]

  pub set-IsTaken :
      (rates : Option (Dict F)) (value : String) (after : Option (Dict F))
      → set to_upper parse_float print_float rates value ≡ ok after
      → IsTaken rates value after
  unfolding set set_cut
  set-IsTaken rates value after h = elim (Option-cases (cut value)) [
    | inl e ↦ absurd (ground (arith, e, h))
    | inr ((family, text), e) ↦
        set_cut-IsTaken rates value family text after e
          (sym (ap (λ x. set_cut to_upper parse_float print_float rates value x) e) ∙ h)
  ]

  -- Each key stands once, and is upper-cased.
  abbrev pub IsTable : Option (Dict F) → Type 0
  IsTable rates = DistinctKeys (make rates) × All (λ e. to_upper e.0 ≡ e.0) (make rates)

  module _ (upper_upper : (s : String) → to_upper (to_upper s) ≡ to_upper s) where
    with_rate-IsTable :
        (rates : Option (Dict F)) (family : String) (rate : F)
        → IsTable rates
        → IsTable (with_rate to_upper parse_float print_float rates family rate)
    unfolding with_rate make
    with_rate-IsTable rates family rate (distinct, upper) = (
      insert-DistinctKeys (to_upper family) rate (make rates) distinct,
      insert-All (λ e. to_upper e.0 ≡ e.0) (to_upper family) rate (make rates) (upper_upper family)
          upper,
    )

    pub set-IsTable :
        (rates : Option (Dict F)) (value : String) (after : Option (Dict F))
        → set to_upper parse_float print_float rates value ≡ ok after
        → IsTable rates
        → IsTable after
    set-IsTable rates value after h table =
        let t = set-IsTaken rates value after h in
        subst IsTable (sym t.is) (with_rate-IsTable rates t.family t.rate table)

    -- The rates of the command line have each GPU family once, upper-cased, whatever the values are and
    -- however often one family is given; upper-casing twice is asked to change nothing more.
    pub set_all-IsTable :
        (values : List String) (rates after : Option (Dict F))
        → set_all to_upper parse_float print_float rates values ≡ ok after
        → IsTable rates
        → IsTable after
    unfolding set_all
    set_all-IsTable [] rates after h table =
        let same : rates ≡ after = ground (arith, h) in subst IsTable same table
    set_all-IsTable (value ∷ values) rates after h table =
        elim (Result-cases (set to_upper parse_float print_float rates value)) [
          | inr (e, q) ↦ absurd (ground (arith, q, h))
          | inl (next, q) ↦
              set_all-IsTable values next after (ground (arith, q, h))
                (set-IsTable rates value next q table)
        ]

  -- The value is `<family>=<rate>` with a family and a rate that parses.
  abbrev pub IsWellFormed : String → Type 0
  IsWellFormed value =
      (family : String) × (text : String) × (rate : F) × (cut value ≡ some (family, text))
      × (family ≢ "")
      × (parse_float text ≡ some rate)

-- ===== src/CommandLine/Accepted.antt =====
-- Which values of `--gpu-rate` are taken, and what the others end in.
use gpu_budget_operator.Base.{
  String, Option, none, some, List, [], ◌∷◌, Result, ok, err, ◌≡◌, ◌≢◌, refl, ◌⊎◌, inl, inr, arith,
  All, Any, ◌==◌, ==_refl, ==_sound, Bool-cases, Option-cases,
}
use gpu_budget_operator.Base.Dict.{Dict}
use gpu_budget_operator.CommandLine.{
  FlagError, malformed, unparsed, cut, with_rate, set_cut, set, set_all,
}

module _ {F : Type 0} (to_upper : String → String) (parse_float : String → Option F)
    (print_float : F → String) where
  -- The value is `<family>=<rate>` with a family and a rate that parses.
  abbrev pub IsWellFormed : String → Type 0
  IsWellFormed value =
      (family : String) × (text : String) × (rate : F) × (cut value ≡ some (family, text))
      × (family ≢ "")
      × (parse_float text ≡ some rate)

  -- The error of a value.
  abbrev pub IsErrorOf : String → FlagError → Type 0
  IsErrorOf value e = (e ≡ malformed value) ⊎ (e ≡ unparsed value)

  -- `Set` takes a well-formed value, and names another one in its error.
  abbrev pub IsAnswered : Option (Dict F) → String → Type 0
  IsAnswered rates value =
      ((after : Option (Dict F)) × (set to_upper parse_float print_float rates value ≡ ok after)
        × IsWellFormed value)
      ⊎ ((e : FlagError) × (set to_upper parse_float print_float rates value ≡ err e)
          × IsErrorOf value e
          × (IsWellFormed value → ⊥))

  uncut : (rates : Option (Dict F)) (value : String) → cut value ≡ none → IsAnswered rates value
  unfolding set set_cut
  uncut rates value e =
      inr (malformed value, ground (arith, e), inl refl, λ w. absurd (ground (arith, e, w.3)))

  set_named :
      (rates : Option (Dict F)) (value family text : String)
      → cut value ≡ some (family, text)
      → IsAnswered rates value
  unfolding set set_cut
  set_named rates value family text e = elim (Bool-cases (family == "")) [
    | inl p ↦ inr (
      malformed value,
      ground (arith, e, p),
      inl refl,
      λ w. absurd (ground (arith, e, w.3, w.4, ==_sound family "" p)),
    )
    | inr p ↦ elim (Option-cases (parse_float text)) [
      | inl q ↦ inr (
        unparsed value,
        ground (arith, e, p, q),
        inr refl,
        λ w. absurd (ground (arith, e, w.3, w.5, q)),
      )
      | inr (rate, q) ↦ inl (
        with_rate to_upper parse_float print_float rates family rate,
        ground (arith, e, p, q),
        (family, text, rate, e, λ x. ground (arith, p, x, ==_refl ""), q),
      )
    ]
  ]

  pub set-IsAnswered : (rates : Option (Dict F)) (value : String) → IsAnswered rates value
  set-IsAnswered rates value = elim (Option-cases (cut value)) [
    | inl e ↦ uncut rates value e
    | inr ((family, text), e) ↦ set_named rates value family text e
  ]

  -- The values are taken, each of them well-formed; or one that is not ends the program.
  abbrev pub IsParsed : List String → Result FlagError (Option (Dict F)) → Type 0
  IsParsed values answer =
      ((after : Option (Dict F)) × (answer ≡ ok after) × All IsWellFormed values)
      ⊎ ((e : FlagError) × (answer ≡ err e)
          × Any (λ value. IsErrorOf value e × (IsWellFormed value → ⊥)) values)

  -- The values, set one after the other, are all taken exactly when every one is a family, not empty,
  -- an equals sign and a rate that parses; the error is about a value that is not.
  pub set_all-IsParsed :
      (values : List String) (rates : Option (Dict F))
      → IsParsed values (set_all to_upper parse_float print_float rates values)
  unfolding set_all
  set_all-IsParsed [] rates = inl (rates, refl, tt)
  set_all-IsParsed (value ∷ values) rates = elim (set-IsAnswered rates value) [
    | inr (e, q, named, bad) ↦ inr (e, ground (arith, q), inl (named, bad))
    | inl (next, q, good) ↦ elim (set_all-IsParsed values next) [
      | inl (after, p, goods) ↦ inl (after, ground (arith, q, p), (good, goods))
      | inr (e, p, bad) ↦ inr (e, ground (arith, q, p), inr bad)
    ]
  ]

-- ===== src/CommandLine.antt =====
-- The `--gpu-rate` flag of main.go: `gpuRatesFlag` with `Set` and `String`, and the setting of the
-- flag's values one after the other. `strings.ToUpper`, `strconv.ParseFloat` and the printing of a
-- float by `%g` are arguments. `Flags` and `Main` have the rest of the program's start.
pub mod Accepted
pub mod Rates
pub mod Printed
pub mod Priced
pub mod Flags
pub mod Main
use Prim.Native.Char.{Char, code}
use gpu_budget_operator.Base.{
  ℕ, String, ◌<>◌, true, false, Option, none, some, List, [], ◌∷◌, Result, ok, err, eqb, ◌==◌,
  if◌then◌else◌,
}
use gpu_budget_operator.Base.Dict.{Dict, insert, make}

-- The two errors of `Set`, with the flag's value.
pub data FlagError : Type 0 where
  malformed unparsed : String → FlagError

-- The code of `=`.
abbrev pub equals_code : ℕ
equals_code = 61

unfoldable pub prepend : Char → Option (String × String) → Option (String × String)
prepend c none = none
prepend c (some (before, after)) = some (String.◌∷◌ c before, after)

-- `strings.Cut(value, "=")`
unfoldable pub cut : String → Option (String × String)
unfolding prepend
cut String.[] = none
cut (String.◌∷◌ c s) = elim (eqb (code c) equals_code) [
  | true ↦ some ("", s)
  | false ↦ prepend c (cut s)
]

-- `strings.Join(parts, ",")`
unfoldable pub join : List String → String
join [] = ""
join (x ∷ []) = x
join (x ∷ y ∷ ys) = x <> "," <> join (y ∷ ys)

module _ {F : Type 0} (to_upper : String → String) (parse_float : String → Option F)
    (print_float : F → String) where
  -- `f.rates[strings.ToUpper(family)] = rate`, with the nil map made first.
  unfoldable pub with_rate : Option (Dict F) → String → F → Option (Dict F)
  unfolding make insert
  with_rate rates family rate = some (insert (to_upper family) rate (make rates))

  -- From the cut on.
  unfoldable pub set_cut :
      Option (Dict F) → String → Option (String × String) → Result FlagError (Option (Dict F))
  unfolding with_rate
  set_cut rates value none = err (malformed value)
  set_cut rates value (some (family, text)) = elim (family == "") [
    | true ↦ err (malformed value)
    | false ↦ elim (parse_float text) [
      | none ↦ err (unparsed value)
      | some rate ↦ ok (with_rate rates family rate)
    ]
  ]

  -- `Set`: the rates after it; an error leaves them as they are.
  unfoldable pub set : Option (Dict F) → String → Result FlagError (Option (Dict F))
  unfolding set_cut cut
  set rates value = set_cut rates value (cut value)

  -- The values set one after the other, up to the first that is refused.
  unfoldable pub set_all : Option (Dict F) → List String → Result FlagError (Option (Dict F))
  unfolding set
  set_all rates [] = ok rates
  set_all rates (value ∷ values) = elim (set rates value) [
    | err e ↦ err e
    | ok rates' ↦ set_all rates' values
  ]

  -- `fmt.Sprintf("%s=%g", family, rate)`
  abbrev pub rate_text : String × F → String
  rate_text (family, rate) = family <> "=" <> print_float rate

  unfoldable pub rate_texts : Dict F → List String
  rate_texts [] = []
  rate_texts (e ∷ d) = rate_text e ∷ rate_texts d

  -- `String`
  unfoldable pub rates_text : Option (Dict F) → String
  unfolding rate_texts join
  rates_text none = ""
  rates_text (some d) = join (rate_texts d)

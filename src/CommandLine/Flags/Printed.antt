-- ===== src/CommandLine/Flags/Printed.antt =====
-- The text that `String` of the `--gpu-rate` flag gives, back on the command line.
use Prim.Native.Char.{Char, code}
use text.Mathlib.TextLemmas.{nil-append, cons-append}
use gpu_budget_operator.Base.{
  ℕ, String, ◌<>◌, true, false, Option, none, some, List, [], ◌∷◌, map, ok, ◌≡◌, refl, ap, ◌∙◌, inl,
  inr, arith, eqb, All, Result-cases,
}
use gpu_budget_operator.Base.Dict.{Dict}
use gpu_budget_operator.Base.Dict.Keys.{DistinctKeys}
use gpu_budget_operator.CommandLine.{set, set_all, join, rate_text, rate_texts, rates_text}
use gpu_budget_operator.CommandLine.Printed.{IsPrintable, set_all-rate_texts}
use gpu_budget_operator.CommandLine.Flags.{Extras, Options, parse}
use gpu_budget_operator.CommandLine.Flags.Written.{flag_text, parse_next, rate_step}

-- The code of `,`.
abbrev comma_code : ℕ
comma_code = 44

abbrev pub HasNoComma : String → Type 0
HasNoComma String.[] = Unit
HasNoComma (String.◌∷◌ c s) = (eqb (code c) comma_code ≡ false) × HasNoComma s

abbrev pub put : Char → List String → List String
put c [] = String.◌∷◌ c "" ∷ []
put c (x ∷ xs) = String.◌∷◌ c x ∷ xs

-- The pieces of a text between its commas.
unfoldable pub pieces : String → List String
pieces String.[] = "" ∷ []
pieces (String.◌∷◌ c s) = elim (eqb (code c) comma_code) [
  | true ↦ "" ∷ pieces s
  | false ↦ put c (pieces s)
]

pieces_one : (s : String) → HasNoComma s → pieces s ≡ s ∷ []
unfolding pieces
pieces_one String.[] h = refl
pieces_one (String.◌∷◌ c s) h = ground (arith, h.0, pieces_one s h.1)

pieces_more : (s t : String) → HasNoComma s → pieces (s <> String.◌∷◌ "," t) ≡ s ∷ pieces t
unfolding pieces
pieces_more String.[] t h = rw nil-append refl
pieces_more (String.◌∷◌ c s) t h = rw cons-append (ground (arith, h.0, pieces_more s t h.1))

-- Texts without commas are the pieces of what they join to.
pieces-join :
    (x : String) (xs : List String)
    → HasNoComma x
    → All HasNoComma xs
    → pieces (join (x ∷ xs)) ≡ x ∷ xs
unfolding join
pieces-join x [] h hs = pieces_one x h
pieces-join x (y ∷ ys) h hs =
    ap (λ t. pieces (x <> t))
      (cons-append "," "" (join (y ∷ ys)) ∙ ap (String.◌∷◌ ",") (nil-append (join (y ∷ ys))))
    ∙ pieces_more x (join (y ∷ ys)) h
    ∙ ap (λ zs. x ∷ zs) (pieces-join y ys hs.0 hs.1)

module _ (x : Extras) {F : Type 0} (to_upper : String → String) (parse_float : String → Option F)
    (print_float : F → String) where
  -- Values that are taken one after the other are taken from the command line.
  parse-flag_text :
      (vs : List String) (o : Options x F) (after : Option (Dict F))
      → set_all to_upper parse_float print_float o.gpu_rates vs ≡ ok after
      → parse x to_upper parse_float print_float (map (flag_text "gpu-rate") vs) none o
        ≡ ok (record o { gpu_rates = after })
  unfolding parse set_all
  parse-flag_text [] o after e = ground (arith, e)
  parse-flag_text (v ∷ vs) o after e =
      elim (Result-cases (set to_upper parse_float print_float o.gpu_rates v)) [
        | inr (f, p) ↦ absurd (ground (arith, e, p))
        | inl (rates, p) ↦
            parse_next x to_upper parse_float print_float (flag_text "gpu-rate" v)
              (map (flag_text "gpu-rate") vs) o (record o { gpu_rates = rates })
              (rate_step x to_upper parse_float print_float v o ∙ ground (arith, p))
            ∙ parse-flag_text vs (record o { gpu_rates = rates }) after (ground (arith, e, p))
      ]

  -- The text of each entry has no comma.
  abbrev pub IsSeparate : Dict F → Type 0
  IsSeparate d = All HasNoComma (rate_texts to_upper parse_float print_float d)

  -- What `String` of the `--gpu-rate` flag prints, cut at its commas and given back with one
  -- `--gpu-rate=` to each piece, sets the same rates in the same order: for rates that are not empty
  -- and have each family once, as it is stored and without an equals sign, and whose rates parse back
  -- from their text, where no text of an entry has a comma.
  pub parse-rates_text :
      (e : String × F) (d : Dict F) (o : Options x F)
      → DistinctKeys (e ∷ d)
      → All (IsPrintable to_upper parse_float print_float) (e ∷ d)
      → IsSeparate (e ∷ d)
      → o.gpu_rates ≡ none
      → let printed = rates_text to_upper parse_float print_float (some (e ∷ d)) in
        parse x to_upper parse_float print_float
          (map (flag_text "gpu-rate") (pieces printed))
          none
          o
        ≡ ok (record o { gpu_rates = some (e ∷ d) })
  unfolding rates_text rate_texts
  parse-rates_text e d o distinct printable separate fresh =
      let texts = rate_texts to_upper parse_float print_float (e ∷ d) in
      ap (λ vs. parse x to_upper parse_float print_float (map (flag_text "gpu-rate") vs) none o)
        (pieces-join (rate_text to_upper parse_float print_float e)
          (rate_texts to_upper parse_float print_float d) separate.0 separate.1)
      ∙ parse-flag_text texts o (some (e ∷ d)) (
          ap (λ r. set_all to_upper parse_float print_float r texts) fresh
          ∙ set_all-rate_texts to_upper parse_float print_float e d distinct printable)

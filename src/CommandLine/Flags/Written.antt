-- ===== src/CommandLine/Flags/Written.antt =====
-- Flags of the operator as the command line writes them, `--<name>=<value>`, under `parseOne`.
use gpu_budget_operator.Base.{
  List, ◌∷◌, err, String, ◌<>◌, Bool, true, false, Option, none, some, ok, ◌≡◌, ◌≢◌, ◌||◌, eqb,
  refl, sym, ap, ◌∙◌, inl, inr, arith, Bool-cases, if◌then◌else◌, string_dec,
}
use text.Mathlib.TextLemmas.{nil-append, cons-append}
use Prim.Native.Char.{Char, code}
use gpu_budget_operator.CommandLine.Rates.{HasNoEquals, cut_first}
use gpu_budget_operator.CommandLine.{cut, set}
use gpu_budget_operator.CommandLine.Flags.{
  named_argument, named, argument, after_dash, flag_name, is_bool_flag, parse_bool, assign, given,
  parse_one, parse, ArgumentError, Extras, Options, done, or_invalid, accepted,
}

abbrev pub bool_text : Bool → String
bool_text true = "true"
bool_text false = "false"

-- `--<name>=<value>`
abbrev pub flag_text : String → String → String
flag_text name value = "--" <> (name <> ("=" <> value))

abbrev no_equals : String → Bool
no_equals String.[] = true
no_equals (String.◌∷◌ c s) = if eqb (code c) 61 then false else no_equals s

no_equals-HasNoEquals : (s : String) → no_equals s ≡ true → HasNoEquals s
no_equals-HasNoEquals String.[] h = tt
no_equals-HasNoEquals (String.◌∷◌ c s) h = elim (Bool-cases (eqb (code c) 61)) [
  | inl e ↦ absurd (ground (arith, h, e))
  | inr e ↦ (e, no_equals-HasNoEquals s (rw e at h))
]

dashes : (s : String) → "--" <> s ≡ String.◌∷◌ "-" (String.◌∷◌ "-" s)
dashes s = rw (cons-append, cons-append, nil-append) refl

after_dashes : (s : String) → s ≢ "" → argument ("--" <> s) ≡ flag_name s
unfolding argument after_dash
after_dashes String.[] h = absurd (h refl)
after_dashes (String.◌∷◌ c s) h = rw (dashes (String.◌∷◌ c s)) refl

flag_name_plain :
    (c : Char) (s : String)
    → (eqb (code c) 45 || eqb (code c) 61) ≡ false
    → flag_name (String.◌∷◌ c s) ≡ named_argument (cut (String.◌∷◌ c s)) (String.◌∷◌ c s)
unfolding flag_name
flag_name_plain c s e = rw (e, flag_name) refl

-- A flag with its value in one argument.
flag_text_lem :
    (c : Char) (n value : String)
    → HasNoEquals (String.◌∷◌ c n)
    → (eqb (code c) 45 || eqb (code c) 61) ≡ false
    → argument (flag_text (String.◌∷◌ c n) value) ≡ named (String.◌∷◌ c n) (some value)
unfolding named_argument
flag_text_lem c n value h e =
    let split = cons-append c n ("=" <> value) in
    let whole = String.◌∷◌ c (n <> ("=" <> value)) in
    ap (λ t. argument ("--" <> t)) split
    ∙ after_dashes whole (λ p. absurd (cc))
    ∙ flag_name_plain c (n <> ("=" <> value)) e
    ∙ ap (λ o. named_argument o whole) (ap cut (sym split) ∙ cut_first (String.◌∷◌ c n) value h)

module _ (x : Extras) {F : Type 0} (to_upper : String → String) (parse_float : String → Option F)
    (print_float : F → String) where
  parse_flag :
      (c : Char) (n value : String) (o : Options x F) (is_bool : Bool)
      → no_equals (String.◌∷◌ c n) ≡ true
      → (eqb (code c) 45 || eqb (code c) 61) ≡ false
      → is_bool_flag x to_upper parse_float print_float (String.◌∷◌ c n) ≡ some is_bool
      → parse_one x to_upper parse_float print_float (flag_text (String.◌∷◌ c n) value) o
        ≡ given x to_upper parse_float print_float is_bool (String.◌∷◌ c n) (some value) o
  unfolding parse_one
  parse_flag c n value o is_bool h e f =
      rw (flag_text_lem c n value (no_equals-HasNoEquals (String.◌∷◌ c n) h) e, f, parse_one) refl

  pub address_step :
      (a : String) (o : Options x F)
      → parse_one x to_upper parse_float print_float (flag_text "metrics-bind-address" a) o
        ≡ ok (some (none, record o { metrics_addr = a }))
  unfolding given assign is_bool_flag string_dec
  address_step a o = parse_flag "m" "etrics-bind-address" a o false refl refl refl

  pub url_step :
      (u : String) (o : Options x F)
      → parse_one x to_upper parse_float print_float (flag_text "prometheus-url" u) o
        ≡ ok (some (none, record o { prometheus_url = u }))
  unfolding given assign is_bool_flag string_dec
  url_step u o = parse_flag "p" "rometheus-url" u o false refl refl refl

  pub election_step :
      (b : Bool) (o : Options x F)
      → parse_one x to_upper parse_float print_float (flag_text "leader-elect" (bool_text b)) o
        ≡ ok (some (none, record o { enable_leader_election = b }))
  unfolding given assign is_bool_flag string_dec parse_bool
  election_step true o = parse_flag "l" "eader-elect" "true" o true refl refl refl
  election_step false o = parse_flag "l" "eader-elect" "false" o true refl refl refl

  pub rate_step :
      (v : String) (o : Options x F)
      → parse_one x to_upper parse_float print_float (flag_text "gpu-rate" v) o
        ≡ done x to_upper parse_float print_float (
            or_invalid x to_upper parse_float print_float "gpu-rate" v
              (accepted x to_upper parse_float print_float
                (set to_upper parse_float print_float o.gpu_rates v))
              (λ rates. record o { gpu_rates = rates }))
  unfolding given assign is_bool_flag string_dec
  rate_step v o = parse_flag "g" "pu-rate" v o false refl refl refl

  pub parse_next :
      (text : String) (texts : List String) (o o' : Options x F)
      → parse_one x to_upper parse_float print_float text o ≡ ok (some (none, o'))
      → parse x to_upper parse_float print_float (text ∷ texts) none o
        ≡ parse x to_upper parse_float print_float texts none o'
  unfolding parse
  parse_next text texts o o' e = rw (e, parse) refl

  pub parse_stops :
      (text : String) (texts : List String) (o : Options x F) (e : ArgumentError)
      → parse_one x to_upper parse_float print_float text o ≡ err e
      → parse x to_upper parse_float print_float (text ∷ texts) none o ≡ err e
  unfolding parse
  parse_stops text texts o e p = rw (p, parse) refl

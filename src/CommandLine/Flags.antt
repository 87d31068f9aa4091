-- ===== src/CommandLine/Flags.antt =====
-- The flags of `main`, as Go's package flag parses them. Flags that other packages define (zap's, and
-- controller-runtime's --kubeconfig) are a parameter.
pub mod Written
pub mod Printed
use Prim.Native.Char.{Char, code}
use gpu_budget_operator.Base.{
  ℕ, String, Bool, true, false, ◌||◌, Option, none, some, List, [], ◌∷◌, Result, ok, err, eqb, ◌==◌,
  if◌then◌else◌,
}
use gpu_budget_operator.Base.Dict.{Dict}
use gpu_budget_operator.CommandLine.{FlagError, cut, set}

-- Go's errors of an argument; each but `help` ends the program with status 2.
pub data ArgumentError : Type 0 where
  help : ArgumentError
  bad_syntax undefined needs_argument : String → ArgumentError
  invalid : String → String → ArgumentError

-- An argument: the end of the flags, no flag, or a flag's name with what follows its equals sign.
pub data Argument : Type 0 where
  no_flag bad_flag : Argument
  named : String → Option String → Argument

-- The code of `-`.
abbrev pub dash_code : ℕ
dash_code = 45

unfoldable pub named_argument : Option (String × String) → String → Argument
named_argument none name = named name none
named_argument (some (before, after)) name = named before (some after)

-- What follows the dashes.
unfoldable pub flag_name : String → Argument
unfolding named_argument cut
flag_name String.[] = bad_flag
flag_name (String.◌∷◌ c s) = elim (eqb (code c) dash_code || eqb (code c) 61) [
  | true ↦ bad_flag
  | false ↦ named_argument (cut (String.◌∷◌ c s)) (String.◌∷◌ c s)
]

-- What follows a first dash.
unfoldable pub after_dash : String → Argument
unfolding flag_name
after_dash String.[] = no_flag
after_dash (String.◌∷◌ c String.[]) = elim (eqb (code c) dash_code) [
  | true ↦ no_flag
  | false ↦ flag_name (String.◌∷◌ c "")
]
after_dash (String.◌∷◌ c (String.◌∷◌ d s)) = elim (eqb (code c) dash_code) [
  | true ↦ flag_name (String.◌∷◌ d s)
  | false ↦ flag_name (String.◌∷◌ c (String.◌∷◌ d s))
]

unfoldable pub argument : String → Argument
unfolding after_dash
argument String.[] = no_flag
argument (String.◌∷◌ c s) = elim (eqb (code c) dash_code) [ true ↦ after_dash s | false ↦ no_flag ]

-- `strconv.ParseBool`
unfoldable pub parse_bool : String → Option Bool
parse_bool s =
    if s == "1" || (s == "t" || (s == "T" || (s == "TRUE" || (s == "true" || s == "True"))))
    then some true
    else if s == "0" || (s == "f" || (s == "F" || (s == "FALSE" || (s == "false" || s == "False"))))
    then some false
    else none

-- The flags of other packages: which there are, whether one needs no value, and their `Set`.
pub record Extras : Type 1 where
  pub Values : Type 0
  pub is_bool : String → Option Bool
  pub assign : String → String → Values → Option Values

module _ (x : Extras) (F : Type 0) where
  -- The variables of `main`.
  pub record Options : Type 0 where
    pub metrics_addr : String
    pub enable_leader_election : Bool
    pub prometheus_url : String
    pub gpu_rates : Option (Dict F)
    pub opts : x.Values

  abbrev pub defaults : x.Values → Options
  defaults v = record {
    metrics_addr = ":8080";
    enable_leader_election = false;
    prometheus_url = "";
    gpu_rates = none;
    opts = v;
  }

module _ (x : Extras) {F : Type 0} (to_upper : String → String) (parse_float : String → Option F)
    (print_float : F → String) where
  -- Whether a flag needs no value; `none` where it is not defined.
  unfoldable pub is_bool_flag : String → Option Bool
  is_bool_flag name =
      if name == "metrics-bind-address"
      then some false
      else if name == "leader-elect"
      then some true
      else if name == "prometheus-url"
      then some false
      else if name == "gpu-rate"
      then some false
      else x.is_bool name

  abbrev pub or_invalid :
      {A : Type 0}
      → String
      → String
      → Option A
      → (A → Options x F)
      → Result ArgumentError (Options x F)
  or_invalid name value none f = err (invalid value name)
  or_invalid name value (some a) f = ok (f a)

  abbrev pub accepted : {A : Type 0} → Result FlagError A → Option A
  accepted (ok a) = some a
  accepted (err e) = none

  -- The `Set` of a defined flag.
  unfoldable pub assign : String → String → Options x F → Result ArgumentError (Options x F)
  unfolding parse_bool set
  assign name value o =
      if name == "metrics-bind-address"
      then ok (record o { metrics_addr = value })
      else if name == "leader-elect"
      then or_invalid name value (parse_bool value) (λ b. record o { enable_leader_election = b })
      else if name == "prometheus-url"
      then ok (record o { prometheus_url = value })
      else if name == "gpu-rate"
      then or_invalid name value (accepted (set to_upper parse_float print_float o.gpu_rates value))
          (λ rates. record o { gpu_rates = rates })
      else or_invalid name value (x.assign name value o.opts) (λ v. record o { opts = v })

  abbrev pub undefined_flag : String → ArgumentError
  undefined_flag name = if name == "help" || name == "h" then help else undefined name

  -- After an argument: the flag that waits for its value, and the options.
  abbrev pub Progress : Type 0
  Progress = Option String × Options x F

  abbrev pub done : Result ArgumentError (Options x F) → Result ArgumentError (Option Progress)
  done (err e) = err e
  done (ok o) = ok (some (none, o))

  -- A defined flag, by whether it needs no value.
  unfoldable pub given :
      Bool → String → Option String → Options x F → Result ArgumentError (Option Progress)
  unfolding assign
  given true name none o = done (assign name "true" o)
  given true name (some value) o = done (assign name value o)
  given false name none o = ok (some (some name, o))
  given false name (some value) o = done (assign name value o)

  -- The rest of `parseOne` for one argument; no progress is the end of the flags.
  unfoldable pub parse_one : String → Options x F → Result ArgumentError (Option Progress)
  unfolding argument is_bool_flag given
  parse_one text o = elim (argument text) [
    | no_flag ↦ ok none
    | bad_flag ↦ err (bad_syntax text)
    | named name value ↦ elim (is_bool_flag name) [
      | none ↦ err (undefined_flag name)
      | some is_bool ↦ given is_bool name value o
    ]
  ]

  -- `flag.Parse`, with the flag that waits for its value.
  unfoldable pub parse :
      List String → Option String → Options x F → Result ArgumentError (Options x F)
  unfolding parse_one
  parse [] none o = ok o
  parse [] (some name) o = err (needs_argument name)
  parse (text ∷ texts) (some name) o = elim (assign name text o) [
    | err e ↦ err e
    | ok o' ↦ parse texts none o'
  ]
  parse (text ∷ texts) none o = elim (parse_one text o) [
    | err e ↦ err e
    | ok none ↦ ok o
    | ok (some (waiting, o')) ↦ parse texts waiting o'
  ]

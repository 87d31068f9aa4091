-- ===== src/CommandLine/Main/Started.antt =====
-- What the program starts with, by its command line.
use gpu_budget_operator.Base.{
  String, Bool, Option, none, List, [], ◌∷◌, map, Result, ok, err, ◌≡◌, refl, sym, ap, ◌∙◌, inl,
  inr, arith, Result-cases,
}
use gpu_budget_operator.Base.Dict.{Dict}
use gpu_budget_operator.CommandLine.{FlagError, set, set_all}
use gpu_budget_operator.CommandLine.Flags.{ArgumentError, invalid, Extras, Options, defaults, parse}
use gpu_budget_operator.CommandLine.Main.{Runtime, Ended, exited, flag_status, boot, main}
use gpu_budget_operator.CommandLine.Flags.Written.{
  bool_text, flag_text, parse_next, parse_stops, address_step, url_step, election_step, rate_step,
}

-- One flag of the operator on the command line.
pub data Setting : Type 0 where
  metrics_bind_address prometheus_url gpu_rate : String → Setting
  leader_elect : Bool → Setting

abbrev pub setting_text : Setting → String
setting_text (metrics_bind_address a) = flag_text "metrics-bind-address" a
setting_text (prometheus_url u) = flag_text "prometheus-url" u
setting_text (gpu_rate v) = flag_text "gpu-rate" v
setting_text (leader_elect b) = flag_text "leader-elect" (bool_text b)

-- The last value that a flag is given, or else the one before the flags.
abbrev pub last_address : String → List Setting → String
last_address a [] = a
last_address a (metrics_bind_address b ∷ ss) = last_address b ss
last_address a (prometheus_url u ∷ ss) = last_address a ss
last_address a (gpu_rate v ∷ ss) = last_address a ss
last_address a (leader_elect b ∷ ss) = last_address a ss

abbrev pub last_election : Bool → List Setting → Bool
last_election e [] = e
last_election e (metrics_bind_address a ∷ ss) = last_election e ss
last_election e (prometheus_url u ∷ ss) = last_election e ss
last_election e (gpu_rate v ∷ ss) = last_election e ss
last_election e (leader_elect b ∷ ss) = last_election b ss

abbrev pub last_url : String → List Setting → String
last_url u [] = u
last_url u (metrics_bind_address a ∷ ss) = last_url u ss
last_url u (prometheus_url w ∷ ss) = last_url w ss
last_url u (gpu_rate v ∷ ss) = last_url u ss
last_url u (leader_elect b ∷ ss) = last_url u ss

-- The values of `--gpu-rate`, in order.
abbrev pub rate_values : List Setting → List String
rate_values [] = []
rate_values (metrics_bind_address a ∷ ss) = rate_values ss
rate_values (prometheus_url u ∷ ss) = rate_values ss
rate_values (gpu_rate v ∷ ss) = v ∷ rate_values ss
rate_values (leader_elect b ∷ ss) = rate_values ss

module _ {S E F : Type 0} (x : Extras) (rt : Runtime S E F) (to_upper : String → String)
    (parse_float : String → Option F) (print_float : F → String) where
  -- What the flags leave of the options `o`, if the rates were parsed.
  abbrev pub left_by :
      Options x F → List Setting → Result FlagError (Option (Dict F)) → S → Ended × S
  left_by o ss (err e) s = (exited 2, s)
  left_by o ss (ok rates) s =
      boot x rt
        (record o {
          metrics_addr = last_address o.metrics_addr ss;
          enable_leader_election = last_election o.enable_leader_election ss;
          prometheus_url = last_url o.prometheus_url ss;
          gpu_rates = rates;
        })
        s

  abbrev main_end : Result ArgumentError (Options x F) → S → Ended × S
  main_end (err e) s = (exited (flag_status e), s)
  main_end (ok o) s = boot x rt o s

  rates_next :
      (rates after : Option (Dict F)) (v : String) (vs : List String)
      → set to_upper parse_float print_float rates v ≡ ok after
      → set_all to_upper parse_float print_float rates (v ∷ vs)
        ≡ set_all to_upper parse_float print_float after vs
  unfolding set_all
  rates_next rates after v vs e = rw (e, set_all) refl

  rates_stop :
      (rates : Option (Dict F)) (v : String) (vs : List String) (e : FlagError)
      → set to_upper parse_float print_float rates v ≡ err e
      → set_all to_upper parse_float print_float rates (v ∷ vs) ≡ err e
  unfolding set_all
  rates_stop rates v vs e p = rw (p, set_all) refl

  parse-setting_text :
      (ss : List Setting) (o : Options x F) (s : S)
      → main_end (parse x to_upper parse_float print_float (map setting_text ss) none o) s
        ≡ left_by o ss (set_all to_upper parse_float print_float o.gpu_rates (rate_values ss)) s
  unfolding parse set_all
  parse-setting_text [] o s = refl
  parse-setting_text (metrics_bind_address a ∷ ss) o s =
      ap (λ r. main_end r s)
        (parse_next x to_upper parse_float print_float (flag_text "metrics-bind-address" a)
          (map setting_text ss) o _ (address_step x to_upper parse_float print_float a o))
      ∙ parse-setting_text ss (record o { metrics_addr = a }) s
  parse-setting_text (prometheus_url u ∷ ss) o s =
      ap (λ r. main_end r s)
        (parse_next x to_upper parse_float print_float (flag_text "prometheus-url" u)
          (map setting_text ss) o _ (url_step x to_upper parse_float print_float u o))
      ∙ parse-setting_text ss (record o { prometheus_url = u }) s
  parse-setting_text (leader_elect b ∷ ss) o s =
      ap (λ r. main_end r s)
        (parse_next x to_upper parse_float print_float (flag_text "leader-elect" (bool_text b))
          (map setting_text ss) o _ (election_step x to_upper parse_float print_float b o))
      ∙ parse-setting_text ss (record o { enable_leader_election = b }) s
  parse-setting_text (gpu_rate v ∷ ss) o s =
      let rest = map setting_text ss in
      let step = rate_step x to_upper parse_float print_float v o in
      elim (Result-cases (set to_upper parse_float print_float o.gpu_rates v)) [
        | inl (rates, e) ↦
            ap (λ r. main_end r s)
              (parse_next x to_upper parse_float print_float (flag_text "gpu-rate" v) rest o
                (record o { gpu_rates = rates }) (step ∙ ground (arith, e)))
            ∙ parse-setting_text ss (record o { gpu_rates = rates }) s
            ∙ ap (λ r. left_by o ss r s) (sym (rates_next o.gpu_rates rates v (rate_values ss) e))
        | inr (f, e) ↦
            ap (λ r. main_end r s)
              (parse_stops x to_upper parse_float print_float (flag_text "gpu-rate" v) rest o
                (invalid v "gpu-rate") (step ∙ ground (arith, e)))
            ∙ ap (λ r. left_by o (gpu_rate v ∷ ss) r s)
                (sym (rates_stop o.gpu_rates v (rate_values ss) f e))
      ]

  main_lem :
      (v : x.Values) (args : List String) (s : S)
      → main x rt to_upper parse_float print_float v args s
        ≡ main_end (parse x to_upper parse_float print_float args none (defaults x F v)) s
  unfolding main
  main_lem v args s =
      elim (Result-cases (parse x to_upper parse_float print_float args none (defaults x F v))) [
        | inl (o, e) ↦ rw (e, main) refl
        | inr (f, e) ↦ rw (e, main) refl
      ]

  -- The program on the flags of the operator, each `--<name>=<value>`, in any order and any number of
  -- times: where some `--gpu-rate` is refused it exits with status 2 and has done nothing; otherwise
  -- it goes on with the last address, election and URL that are given, or `:8080`, no election and no
  -- URL, and with the rates of all `--gpu-rate` flags set in order.
  pub main-setting_text :
      (ss : List Setting) (v : x.Values) (s : S)
      → main x rt to_upper parse_float print_float v (map setting_text ss) s
        ≡ left_by
            (defaults x F v)
            ss
            (set_all to_upper parse_float print_float none (rate_values ss))
            s
  main-setting_text ss v s =
      main_lem v (map setting_text ss) s ∙ parse-setting_text ss (defaults x F v) s

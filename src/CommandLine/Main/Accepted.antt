-- ===== src/CommandLine/Main/Accepted.antt =====
-- Which command lines of the operator's own flags `flag.Parse` accepts.
use gpu_budget_operator.Base.{
  String, Option, none, List, [], ◌∷◌, map, Result, ok, err, ◌≡◌, refl, ◌∙◌, ◌⊎◌, inl, inr, arith,
  All,
}
use gpu_budget_operator.CommandLine.Accepted.{IsWellFormed, set-IsAnswered}
use gpu_budget_operator.CommandLine.Flags.{ArgumentError, invalid, Extras, Options, parse}
use gpu_budget_operator.CommandLine.Flags.Written.{
  bool_text, flag_text, parse_next, parse_stops, address_step, url_step, election_step, rate_step,
}
use gpu_budget_operator.CommandLine.Main.Started.{
  Setting, metrics_bind_address, prometheus_url, gpu_rate, leader_elect, setting_text, rate_values,
}

module _ (x : Extras) {F : Type 0} (to_upper : String → String) (parse_float : String → Option F)
    (print_float : F → String) where
  -- The first of the values that is not well-formed.
  abbrev pub IsFirstBad : String → List String → Type 0
  IsFirstBad v [] = ⊥
  IsFirstBad v (w ∷ ws) =
      ((v ≡ w) × (IsWellFormed to_upper parse_float print_float w → ⊥))
      ⊎ (IsWellFormed to_upper parse_float print_float w × IsFirstBad v ws)

  abbrev pub IsAccepted : List Setting → Result ArgumentError (Options x F) → Type 0
  IsAccepted ss answer =
      ((o : Options x F) × (answer ≡ ok o)
        × All (IsWellFormed to_upper parse_float print_float) (rate_values ss))
      ⊎ ((v : String) × (answer ≡ err (invalid v "gpu-rate")) × IsFirstBad v (rate_values ss))

  -- A command line of the operator's own flags, each `--<name>=<value>` with `true` or `false` for
  -- the election, in any order and any number of times: it is accepted with every `--gpu-rate` a
  -- family, not empty, an equals sign and a rate that parses, or it is refused for the first value of
  -- `--gpu-rate` that is not.
  pub parse-IsAccepted :
      (ss : List Setting) (o : Options x F)
      → IsAccepted ss (parse x to_upper parse_float print_float (map setting_text ss) none o)
  unfolding parse
  parse-IsAccepted [] o = inl (o, refl, tt)
  parse-IsAccepted (metrics_bind_address a ∷ ss) o =
      rw
        (parse_next x to_upper parse_float print_float (flag_text "metrics-bind-address" a)
          (map setting_text ss) o _ (address_step x to_upper parse_float print_float a o))
        (parse-IsAccepted ss (record o { metrics_addr = a }))
  parse-IsAccepted (prometheus_url u ∷ ss) o =
      rw
        (parse_next x to_upper parse_float print_float (flag_text "prometheus-url" u)
          (map setting_text ss) o _ (url_step x to_upper parse_float print_float u o))
        (parse-IsAccepted ss (record o { prometheus_url = u }))
  parse-IsAccepted (leader_elect b ∷ ss) o =
      rw
        (parse_next x to_upper parse_float print_float (flag_text "leader-elect" (bool_text b))
          (map setting_text ss) o _ (election_step x to_upper parse_float print_float b o))
        (parse-IsAccepted ss (record o { enable_leader_election = b }))
  parse-IsAccepted (gpu_rate v ∷ ss) o =
      let texts = map setting_text ss in
      let step = rate_step x to_upper parse_float print_float v o in
      elim (set-IsAnswered to_upper parse_float print_float o.gpu_rates v) [
        | inr (f, e, named, bad) ↦ inr (
          v,
          parse_stops x to_upper parse_float print_float (flag_text "gpu-rate" v) texts o
              (invalid v "gpu-rate") (step ∙ ground (arith, e)),
          inl (refl, bad),
        )
        | inl (rates, e, good) ↦
            let o' = record o { gpu_rates = rates } in
            let next =
              parse_next x to_upper parse_float print_float (flag_text "gpu-rate" v) texts o o'
                (step ∙ ground (arith, e)) in
            elim (parse-IsAccepted ss o') [
              | inl (after, p, goods) ↦ inl (after, next ∙ p, (good, goods))
              | inr (w, p, bad) ↦ inr (w, next ∙ p, inr (good, bad))
            ]
      ]

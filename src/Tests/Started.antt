-- ===== src/Tests/Started.antt =====
-- The program started with some flags, and a call of `prometheusClient` that nobody meets.
use gpu_budget_operator.Base.{
  ℕ, ◌+◌, ◌-◌, ◌*◌, ◌/◌, ◌^◌, ◌≤◌, ◌<◌, String, Bool, true, false, Option, none, some, List, [],
  ◌∷◌, map, ok, ◌≡◌, refl, ◌==◌, ==_apart, string_dec, if◌then◌else◌,
}
use gpu_budget_operator.Metrics.{nanoseconds_per_minute, clamped}
use gpu_budget_operator.CommandLine.{set_all, rate_texts, rates_text}
use gpu_budget_operator.Base.Dict.{Dict}
use gpu_budget_operator.CommandLine.Flags.{Extras, Options, defaults, parse as parse_flags}
use gpu_budget_operator.CommandLine.Flags.Written.{flag_text}
use gpu_budget_operator.CommandLine.Flags.Printed.{pieces, parse-rates_text}
use gpu_budget_operator.CommandLine.Main.Accepted.{IsAccepted, parse-IsAccepted}
use gpu_budget_operator.CommandLine.Main.{Runtime, main}
use gpu_budget_operator.CommandLine.Main.Started.{
  Setting, metrics_bind_address, prometheus_url, gpu_rate, leader_elect, setting_text, rate_values,
  left_by, main-setting_text,
}
use gpu_budget_operator.Controllers.Period.{nanoseconds_per_day, period_start}
use gpu_budget_operator.Controllers.Period.Elapsed.{period_days, clamped_bounds}
use gpu_budget_operator.Controllers.Reconcile.{prometheus_client}
use gpu_budget_operator.Controllers.PromClient.{starting, returned}
use gpu_budget_operator.Controllers.PromClient.Alone.{alone, cached_after, alone-prometheus_client}
use gpu_budget_operator.Tests.Memory.{memory}
use gpu_budget_operator.Tests.Host.{whole, host}
use gpu_budget_operator.Tests.Budgets.{settings, wednesday}
use gpu_budget_operator.Tests.Data.{team}

-- One more flag, `--zap-devel`.
abbrev extras : Extras
extras = record {
  Values = Bool;
  is_bool = λ name. if name == "zap-devel" then some true else none;
  assign = λ name value b. if value == "true" then some true else none;
}

-- A runtime that counts its calls.
abbrev runtime : Runtime ℕ String ℕ
runtime = record {
  Config = Unit;
  Manager = Unit;
  get_config = λ s. (ok tt, s + 1);
  new_manager = λ config options s. (ok tt, s + 1);
  complete = λ manager r s. (none, s + 1);
  start = λ manager s. (none, s + 1);
}

abbrev parse : String → Option ℕ
parse s = if s == "2" then some 2 else none

abbrev given : List Setting
given =
    gpu_rate "A100=2"
    ∷ prometheus_url "http://old"
    ∷ leader_elect true
    ∷ metrics_bind_address ":9090"
    ∷ prometheus_url "http://prometheus"
    ∷ []

main-setting_text_example :
    main extras runtime (λ s. s) parse (λ n. "2") false (map setting_text given) 0
    ≡ left_by extras runtime
        (λ s. s)
        parse
        (λ n. "2")
        (defaults extras ℕ false)
        given
        (set_all (λ s. s) parse (λ n. "2") none (rate_values given))
        0
main-setting_text_example = main-setting_text extras runtime (λ s. s) parse (λ n. "2") given false 0

alone-prometheus_client_example :
    alone memory whole host settings 6
      (record { locked = false; prom_client = none; outside = team })
      starting
    ≡ (
      record {
        locked = false;
        prom_client =
            cached_after memory whole host settings none
              (prometheus_client memory whole host settings none team).0;
        outside = (prometheus_client memory whole host settings none team).1;
      },
      returned (prometheus_client memory whole host settings none team).0,
    )
alone-prometheus_client_example = alone-prometheus_client memory whole host settings none team

clamped_bounds_example :
    let elapsed = wednesday - period_start "Weekly" wednesday in
    let range = clamped (λ n. "1h") (λ n. "1") elapsed in
    (nanoseconds_per_minute ≤ range)
    × (range < period_days "Weekly" (wednesday / nanoseconds_per_day) * nanoseconds_per_day)
    × (range < 2 ^ 63)
    × (nanoseconds_per_minute ≤ elapsed → period_start "Weekly" wednesday + range ≡ wednesday)
clamped_bounds_example = clamped_bounds (λ n. "1h") (λ n. "1") "Weekly" wednesday

-- The last value of `--gpu-rate` has no equals sign.
abbrev mistaken : List Setting
mistaken = gpu_rate "A100=2" ∷ leader_elect true ∷ gpu_rate "H100" ∷ []

abbrev fresh : Options extras ℕ
fresh = defaults extras ℕ false

parse-IsAccepted_example :
    IsAccepted extras
      (λ s. s)
      parse
      (λ n. "2")
      mistaken
      (parse_flags extras (λ s. s) parse (λ n. "2") (map setting_text mistaken) none fresh)
parse-IsAccepted_example = parse-IsAccepted extras (λ s. s) parse (λ n. "2") mistaken fresh

abbrev rates : Dict ℕ
rates = ("A100", 2) ∷ ("H100", 2) ∷ []

parse-rates_text_example :
    parse_flags extras
      (λ s. s)
      parse
      (λ n. "2")
      (map (flag_text "gpu-rate") (pieces (rates_text (λ s. s) parse (λ n. "2") (some rates))))
      none
      fresh
    ≡ ok (record fresh { gpu_rates = some rates })
unfolding string_dec rate_texts
parse-rates_text_example =
    parse-rates_text extras (λ s. s) parse (λ n. "2") ("A100", 2) (("H100", 2) ∷ []) fresh
      ((==_apart "H100" "A100" refl, tt), (tt, tt))
      (
        ((refl, (refl, (refl, (refl, tt)))), ==_apart "A100" "" refl, refl, refl),
        (((refl, (refl, (refl, (refl, tt)))), ==_apart "H100" "" refl, refl, refl), tt),
      )
      (
        (refl, (refl, (refl, (refl, (refl, (refl, tt)))))),
        ((refl, (refl, (refl, (refl, (refl, (refl, tt)))))), tt),
      )
      refl

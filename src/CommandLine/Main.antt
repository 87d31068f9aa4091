-- ===== src/CommandLine/Main.antt =====
-- `main` of main.go, from the parsing of its flags to the end of the manager. The manager of
-- controller-runtime is a parameter; its builder's `Complete` is what `SetupWithManager` ends in.
pub mod Started
pub mod Accepted
use gpu_budget_operator.Base.{ℕ, String, Bool, Option, none, some, List, Result, ok, err}
use gpu_budget_operator.Base.Dict.{make}
use gpu_budget_operator.CommandLine.Flags.{
  ArgumentError, help, bad_syntax, undefined, needs_argument, invalid, Extras, Options, defaults,
  parse,
}
use gpu_budget_operator.Controllers.Status.{Settings}

-- `ctrl.Options`, as far as `main` sets them; the scheme is that of the operator's types.
pub record ManagerOptions : Type 0 where
  pub bind_address : String
  pub leader_election : Bool
  pub leader_election_id : String

-- What `main` uses of controller-runtime.
pub record Runtime (S E F : Type 0) : Type 1 where
  pub Config : Type 0
  pub Manager : Type 0
  pub get_config : S → Result E Config × S
  pub new_manager : Config → ManagerOptions → S → Result E Manager × S
  -- `NewControllerManagedBy(mgr).For(&GpuBudget{}).Complete(r)`, for the reconciler's fields.
  pub complete : Manager → Settings F → S → Option E × S
  pub start : Manager → S → Option E × S

-- The end of the program: `main` returns, or exits with a status.
pub data Ended : Type 0 where
  returned : Ended
  exited : ℕ → Ended

-- The status of `flag.ExitOnError`.
abbrev pub flag_status : ArgumentError → ℕ
flag_status help = 0
flag_status (bad_syntax text) = 2
flag_status (undefined name) = 2
flag_status (needs_argument name) = 2
flag_status (invalid value name) = 2

module _ {S E F : Type 0} (x : Extras) (rt : Runtime S E F) where
  -- The fields that `main` gives the reconciler.
  abbrev pub reconciler : Options x F → Settings F
  reconciler o = record { prometheus_url = o.prometheus_url; gpu_rates = make o.gpu_rates }

  abbrev pub manager_options : Options x F → ManagerOptions
  manager_options o = record {
    bind_address = o.metrics_addr;
    leader_election = o.enable_leader_election;
    leader_election_id = "gpu-budget-operator.gpubudget.io";
  }

  abbrev pub ended : Option E × S → Ended × S
  ended (none, s) = (returned, s)
  ended (some e, s) = (exited 1, s)

  -- `SetupWithManager`
  unfoldable pub setup_with_manager : Settings F → rt.Manager → S → Option E × S
  setup_with_manager r manager s = rt.complete manager r s

  unfoldable pub started : Options x F → Result E rt.Manager × S → Ended × S
  unfolding setup_with_manager
  started o (err e, s) = (exited 1, s)
  started o (ok manager, s) =
      let (e, s') = setup_with_manager (reconciler o) manager s in
      elim e [ some e ↦ (exited 1, s') | none ↦ ended (rt.start manager s') ]

  -- From the parsed flags on.
  unfoldable pub boot : Options x F → S → Ended × S
  unfolding started
  boot o s =
      let (got, s') = rt.get_config s in
      elim got [
        | err e ↦ (exited 1, s')
        | ok config ↦ started o (rt.new_manager config (manager_options o) s')
      ]

  module _ (to_upper : String → String) (parse_float : String → Option F)
      (print_float : F → String) where
    unfoldable pub main : x.Values → List String → S → Ended × S
    unfolding parse boot
    main v args s = elim (parse x to_upper parse_float print_float args none (defaults x F v)) [
      | err e ↦ (exited (flag_status e), s)
      | ok o ↦ boot o s
    ]

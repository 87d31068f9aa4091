-- ===== src/Controllers/Usage.antt =====
-- `computeUsage`, `roundToHundredths` and `roundUsageByType`. The map of hours is in the order in
-- which Go's loop meets its keys.
pub mod Priced
pub mod Sorted
use Prim.Native.Char.{code}
use gpu_budget_operator.Base.{
  String, Bool, true, false, List, [], ◌∷◌, Result, ok, err, ltb, eqb, if◌then◌else◌,
}
use gpu_budget_operator.Base.Dict.{Dict}
use gpu_budget_operator.Budget.{Floats, GpuTypeUsage}
use gpu_budget_operator.Controllers.Rates.{rate_for}

-- `a < b` on texts.
unfoldable pub precedes : String → String → Bool
precedes String.[] String.[] = false
precedes String.[] (String.◌∷◌ d t) = true
precedes (String.◌∷◌ c s) String.[] = false
precedes (String.◌∷◌ c s) (String.◌∷◌ d t) =
    let rest = precedes s t in
    if ltb (code c) (code d) then true else if eqb (code c) (code d) then rest else false

module _ (fl : Floats) (to_upper : String → String) where
  unfoldable pub round_to_hundredths : fl.F → fl.F
  round_to_hundredths v = fl.over (fl.round (fl.times v fl.hundred)) fl.hundred

  unfoldable pub round_usage_by_type : List (GpuTypeUsage fl.F) → List (GpuTypeUsage fl.F)
  unfolding round_to_hundredths
  round_usage_by_type [] = []
  round_usage_by_type (u ∷ us) =
      record { gpu_type = u.gpu_type; gpu_hours = round_to_hundredths u.gpu_hours }
      ∷ round_usage_by_type us

  pub record Usage : Type 0 where
    pub total_hours : fl.F
    pub total_dollars : fl.F
    pub usage : List (GpuTypeUsage fl.F)

  abbrev pub no_usage : Usage
  no_usage = record { total_hours = fl.nought; total_dollars = fl.nought; usage = [] }

  -- The usage is gathered from its end; it is sorted below.
  abbrev pub with_hours : String → fl.F → Usage → Usage
  with_hours gpu_type hours u = record u {
    total_hours = fl.add u.total_hours hours;
    usage = record { gpu_type = gpu_type; gpu_hours = hours } ∷ u.usage;
  }

  abbrev pub with_dollars : fl.F → fl.F → Usage → Usage
  with_dollars hours rate u = record u {
    total_dollars = fl.add u.total_dollars (fl.times hours rate);
  }

  -- The error is the GPU type that has no rate.
  unfoldable pub usage_loop : Dict fl.F → Bool → Dict fl.F → Usage → Result String Usage
  usage_loop rates needs_dollars [] u = ok u
  usage_loop rates needs_dollars ((gpu_type, hours) ∷ rest) u =
      let (rate, found) = rate_for fl to_upper rates gpu_type in
      elim needs_dollars [
        | false ↦ usage_loop rates needs_dollars rest (with_hours gpu_type hours u)
        | true ↦ elim found [
          | false ↦ err gpu_type
          | true ↦
              usage_loop rates needs_dollars rest
                (with_dollars hours rate (with_hours gpu_type hours u))
        ]
      ]

  -- `sort.Slice` by type; the types are the keys of a map, so no two are equal.
  unfoldable pub insert_usage :
      GpuTypeUsage fl.F → List (GpuTypeUsage fl.F) → List (GpuTypeUsage fl.F)
  unfolding precedes
  insert_usage u [] = u ∷ []
  insert_usage u (v ∷ vs) =
      let rest = insert_usage u vs in
      if precedes u.gpu_type v.gpu_type then u ∷ v ∷ vs else v ∷ rest

  unfoldable pub sort_usage : List (GpuTypeUsage fl.F) → List (GpuTypeUsage fl.F)
  unfolding insert_usage
  sort_usage [] = []
  sort_usage (u ∷ us) = insert_usage u (sort_usage us)

  unfoldable pub sorted : Result String Usage → Result String Usage
  unfolding sort_usage
  sorted (err e) = err e
  sorted (ok u) = ok (record u { usage = sort_usage u.usage })

  unfoldable pub compute_usage : Dict fl.F → Dict fl.F → Bool → Result String Usage
  unfolding usage_loop sorted
  compute_usage rates hours_by_type needs_dollars =
      sorted (usage_loop rates needs_dollars hours_by_type no_usage)

-- ===== src/Enforce/Pass.antt =====
-- The shape that `enforceDeployments`, `enforceStatefulSets`, `enforceReplicaSets`, `enforceJobSets`
-- and `enforceJobs` of enforce/enforce.go share: list the namespace's objects; pass over those that
-- need nothing; mark each other one, send it and report it; stop at the first call that fails, with
-- the resources reported so far. What differs between the five is a field of `Marker`.
pub mod Steps
pub mod Loop
pub mod Reports
pub mod Whole
use gpu_budget_operator.Base.{
  ℕ, String, Bool, true, false, Option, none, some, List, [], ◌∷◌, Result, ok, err,
}
use gpu_budget_operator.Objects.{EnforcedResource}
use gpu_budget_operator.Cluster.{Api}
use gpu_budget_operator.Enforce.Report.{Error, Outcome, nothing, also}

pub record Marker (S E T : Type 0) : Type 0 where
  pub api : Api S E T
  pub name : T → String
  pub namespace : T → String
  -- What a failed list returns; for an optional kind it may be no error.
  pub list_failed : String → E → Option (Error E)
  pub skips : T → Bool
  pub mark : String → T → Result (Error E) T
  pub update_failed : String → T → E → Error E
  pub report : String → ℕ → EnforcedResource
  pub now : S → ℕ

module _ {S E T : Type 0} (m : Marker S E T) where
  unfoldable pub mark_loop : String → List T → S → Outcome E S
  mark_loop ns [] s = nothing none s
  mark_loop ns (x ∷ xs) s = elim (m.skips x) [
    | true ↦ mark_loop ns xs s
    | false ↦ elim (m.mark ns x) [
      | err e ↦ nothing (some e) s
      | ok y ↦
          let (r, s') = m.api.update y s in
          elim r [
            | err e ↦ nothing (some (m.update_failed ns x e)) s'
            | ok _ ↦ also (m.report (m.name x) (m.now s')) (mark_loop ns xs s')
          ]
    ]
  ]

  unfoldable pub pass : String → S → Outcome E S
  pass ns s =
      let (r, s') = m.api.list ns s in
      elim r [ err e ↦ nothing (m.list_failed ns e) s' | ok xs ↦ mark_loop ns xs s' ]

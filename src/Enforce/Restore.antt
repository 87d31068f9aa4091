-- ===== src/Enforce/Restore.antt =====
-- The shape that the restore functions of enforce/enforce.go share: get the object, a missing one
-- being no error; recover what the annotation keeps, nothing being done without one; send the
-- object. What differs between them is a field of `Restorer`.
pub mod Whole
pub mod Cases
use gpu_budget_operator.Base.{String, Bool, Option, none, some, Result, ok, err, if◌then◌else◌}
use gpu_budget_operator.Cluster.{Api}
use gpu_budget_operator.Enforce.Report.{Error, client, sent}

pub record Restorer (S E T : Type 0) : Type 0 where
  pub api : Api S E T
  pub is_not_found : E → Bool
  -- `none`: the object has no annotation of the operator.
  pub recover : String → T → Option (Result (Error E) T)

module _ {S E T : Type 0} (r : Restorer S E T) where
  unfoldable pub restore_found : Option (Result (Error E) T) → S → Option (Error E) × S
  restore_found none s = (none, s)
  restore_found (some (err e)) s = (some e, s)
  restore_found (some (ok y)) s = sent (r.api.update y s)

  unfoldable pub restore : String → String → S → Option (Error E) × S
  unfolding restore_found
  restore ns n s =
      let (found, s') = r.api.get ns n s in
      elim found [
        | err e ↦ (if r.is_not_found e then none else some (client e), s')
        | ok x ↦ restore_found (r.recover ns x) s'
      ]

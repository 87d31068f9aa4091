-- ===== src/Enforce/Report.antt =====
-- What enforcement returns: the resources it acted on, an error, and the state it leaves.
use gpu_budget_operator.Base.{ℕ, String, Option, none, some, List, [], ◌∷◌, Result, ok, err}
use gpu_budget_operator.Objects.{EnforcedResource}

-- An error of the client, `fmt.Errorf("<context>: %w", err)` around one, an annotation that does not
-- parse ("parsing original replica annotation …", "unmarshaling … original replica spec …"), or the
-- text of an error of the unstructured helpers.
pub data Error (E : Type 0) : Type 0 where
  client : E → Error E
  message : String → Error E
  bad_annotation : String → Error E
  wrapped : String → Error E → Error E

pub record Outcome (E S : Type 0) : Type 0 where
  pub resources : List EnforcedResource
  pub error : Option (Error E)
  pub state : S

abbrev pub scaled_to_zero_action : String
scaled_to_zero_action = "ScaledToZero"

abbrev pub suspended_action : String
suspended_action = "Suspended"

abbrev pub deleted_action : String
deleted_action = "Deleted"

abbrev pub resource : String → String → String → String → ℕ → EnforcedResource
resource api_version kind name action now = record {
  api_version = api_version;
  kind = kind;
  name = name;
  action = action;
  enforced_at = now;
}

abbrev pub nothing : {E S : Type 0} → Option (Error E) → S → Outcome E S
nothing e s = record { resources = []; error = e; state = s }

-- `enforced = append(enforced, r)` before the rest of a loop.
abbrev pub also : {E S : Type 0} → EnforcedResource → Outcome E S → Outcome E S
also r rest = record rest { resources = r ∷ rest.resources }

-- The result of a last `return e.Client.Update(…)`.
abbrev pub sent : {E S A : Type 0} → Result E A × S → Option (Error E) × S
sent (ok _, s) = (none, s)
sent (err e, s) = (some (client e), s)

-- ===== src/Objects/Value.antt =====
-- The values of an unstructured object: what Go holds in an `interface{}` after decoding JSON.
use gpu_budget_operator.Base.{String, Bool}
use gpu_budget_operator.Base.Int.{ℤ}

-- `number` is a float64, by its literal; the code never looks into one.
mutual
  pub data Value : Type 0 where
    null : Value
    bool : Bool → Value
    int : ℤ → Value
    number : String → Value
    text : String → Value
    object : Fields → Value
    array : Items → Value

  -- `map[string]interface{}`
  pub data Fields : Type 0 where
    end : Fields
    field : String → Value → Fields → Fields

  -- `[]interface{}`
  pub data Items : Type 0 where
    nil : Items
    cons : Value → Items → Items

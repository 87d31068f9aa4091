-- ===== src/Objects.antt =====
-- The objects that the operator reads and writes, with the fields that its code names: those of the
-- Kubernetes API groups apps, batch and core, and `EnforcedResource` of v1alpha1/gpubudget_types.go.
-- `Quantity` is apimachinery's, and stays a parameter. A nil Go map is `none`.
pub mod Value
use gpu_budget_operator.Base.{ℕ, String, Bool, Option, List}
use gpu_budget_operator.Base.Int.{ℤ}
use gpu_budget_operator.Base.Dict.{Dict}

-- Of an owner reference the code reads no field, only that there is one.
pub record Meta : Type 0 where
  pub name : String
  pub namespace : String
  pub owner_references : List String
  pub annotations : Option (Dict String)

pub record Container (Q : Type 0) : Type 0 where
  pub requests : Option (Dict Q)
  pub limits : Option (Dict Q)

pub record PodSpec (Q : Type 0) : Type 0 where
  pub containers : List (Container Q)
  pub init_containers : List (Container Q)

-- A Deployment, StatefulSet or ReplicaSet: the three have these fields alike.
pub record Workload (Q : Type 0) : Type 0 where
  pub meta : Meta
  pub replicas : Option ℤ
  pub template : PodSpec Q

pub record Job (Q : Type 0) : Type 0 where
  pub meta : Meta
  pub suspend : Option Bool
  pub template : PodSpec Q

pub record Pod (Q : Type 0) : Type 0 where
  pub meta : Meta
  pub deletion_timestamp : Option ℕ
  pub spec : PodSpec Q

-- The kinds that are scaled by `spec.replicas`.
pub data ScaleKind : Type 0 where
  deployment stateful_set replica_set : ScaleKind

pub ScaleKind-discrete : Discrete ScaleKind
ScaleKind-discrete = hlevel

pub record EnforcedResource : Type 0 where
  pub api_version : String
  pub kind : String
  pub name : String
  pub action : String
  pub enforced_at : ℕ

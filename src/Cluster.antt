-- ===== src/Cluster.antt =====
-- What the operator uses and does not implement: the Kubernetes API behind controller-runtime's
-- `client.Client`, the error predicates and quantities of apimachinery, its helpers for
-- unstructured objects, and the clock. All are fields of a record that the model takes as a
-- parameter. `State` is everything outside the operator; each call may change it, reads too, since
-- other controllers act at the same time.
pub mod Lawful
pub mod Deletion
pub mod Helpers
use gpu_budget_operator.Base.{ℕ, String, Bool, ◌||◌, Option, List, Result}
use gpu_budget_operator.Base.Int.{ℤ}
use gpu_budget_operator.Base.Dict.{Dict}
use gpu_budget_operator.Objects.{Workload, Job, Pod, ScaleKind}
use gpu_budget_operator.Objects.Value.{Value, Fields}

-- The calls of `client.Client` at one Go type. A list or a get names the namespace; an update or a
-- delete sends the object.
pub record Api (S E T : Type 0) : Type 0 where
  pub list : String → S → Result E (List T) × S
  pub get : String → String → S → Result E T × S
  pub update : T → S → Result E T × S
  pub delete : T → S → Result E (Unit {0}) × S

-- `unstructured.Nested…` with its `found`, an error being "not found" where the code drops it, and
-- the setters. The path is the variadic argument.
pub record Unstructured : Type 0 where
  pub nested_bool : Fields → List String → Option Bool
  pub nested_int64 : Fields → List String → Option ℤ
  pub nested_map : Fields → List String → Option Fields
  pub set_nested_field : Fields → Value → List String → Result String Fields
  pub remove_nested_field : Fields → List String → Fields
  pub get_annotations : Fields → Option (Dict String)
  pub set_annotations : Fields → Dict String → Fields
  pub get_name : Fields → String
  -- The code never asks for it; the API addresses the object by it.
  pub get_namespace : Fields → String

-- What an InferenceService component had before it was zeroed; `none` is a field that was not set.
pub record ComponentReplicaSpec : Type 0 where
  pub min_replicas : Option ℤ
  pub max_replicas : Option ℤ

pub record Cluster : Type 1 where
  pub State : Type 0
  pub Err : Type 0
  pub Quantity : Type 0
  pub is_not_found : Err → Bool
  pub is_no_match : Err → Bool
  -- The `resource.Quantity` that a missing key of a resource list reads as.
  pub zero_quantity : Quantity
  pub is_zero : Quantity → Bool
  pub parse_quantity : String → Option Quantity
  pub unstructured : Unstructured
  -- `json.Marshal` and `json.Unmarshal` of a `map[string]componentReplicaSpec`.
  pub marshal : Dict ComponentReplicaSpec → String
  pub unmarshal : String → Option (Dict ComponentReplicaSpec)
  pub workloads : ScaleKind → Api State Err (Workload Quantity)
  pub jobs : Api State Err (Job Quantity)
  pub pods : Api State Err (Pod Quantity)
  pub job_sets : Api State Err Fields
  pub inference_services : Api State Err Fields
  -- `metav1.Now()` and `time.Now()`, in nanoseconds since 1970 UTC.
  pub now : State → ℕ

-- `isNoKindMatch`: the CRD of an optional kind is not installed.
unfoldable pub is_no_kind_match : (c : Cluster) → c.Err → Bool
is_no_kind_match c e = c.is_no_match e || c.is_not_found e

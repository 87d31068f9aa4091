-- ===== src/Enforce/Scale.antt =====
-- `enforceDeployments`, `enforceStatefulSets`, `enforceReplicaSets` and the three restore functions.
-- The three loops differ in their API, in what they skip and in their texts; the model has one loop
-- over the kind.
pub mod Enforced
pub mod Restored
pub mod Answered
use gpu_budget_operator.Base.{
  ℕ, zero, suc, String, ◌<>◌, Bool, true, false, not, ◌||◌, Option, none, some, List, [], ◌∷◌,
  Result, ok, err, if◌then◌else◌,
}
use gpu_budget_operator.Base.Int.{ℤ, pos, is_nought}
use gpu_budget_operator.Base.Dict.{read, make, insert, remove}
use gpu_budget_operator.Fmt.{sprintf_d, sscanf_d}
use gpu_budget_operator.Objects.{
  Meta, Workload, ScaleKind, deployment, stateful_set, replica_set, EnforcedResource,
}
use gpu_budget_operator.Cluster.{Cluster}
use gpu_budget_operator.Enforce.Gpu.{pod_template_requests_gpu}
use gpu_budget_operator.Enforce.Pass.{Marker, pass}
use gpu_budget_operator.Enforce.Restore.{Restorer, restore}
use gpu_budget_operator.Enforce.Report.{
  Error, client, bad_annotation, wrapped, sent, Outcome, resource, nothing, also,
  scaled_to_zero_action,
}

-- `AnnotationOriginalReplicas`
abbrev pub annotation_original_replicas : String
annotation_original_replicas = "gpubudget.io/original-replicas"

abbrev pub kind_name : ScaleKind → String
kind_name deployment = "Deployment"
kind_name stateful_set = "StatefulSet"
kind_name replica_set = "ReplicaSet"

abbrev kind_word : ScaleKind → String
kind_word deployment = "deployment"
kind_word stateful_set = "statefulset"
kind_word replica_set = "replicaset"

-- `len(OwnerReferences) > 0`
abbrev pub is_owned : Meta → Bool
is_owned m = elim m.owner_references [ [] ↦ false | _ ∷ _ ↦ true ]

-- `Spec.Replicas != nil && *Spec.Replicas == 0`
abbrev pub is_scaled_down : Option ℤ → Bool
is_scaled_down none = false
is_scaled_down (some n) = is_nought n

-- `original := int32(1)`, or the count that the spec gives
abbrev pub original_replicas : Option ℤ → ℤ
original_replicas none = pos 1
original_replicas (some n) = n

abbrev pub annotate : String → String → Meta → Meta
annotate k v m = record m { annotations = some (insert k v (make m.annotations)) }

abbrev pub unannotate : String → Meta → Meta
unannotate k m = record m { annotations = remove k m.annotations }

module _ (c : Cluster) where
  open c use {State, Err, Quantity, is_not_found, workloads, now}

  -- The `continue`s of the three loops: only a ReplicaSet is passed over for its owner.
  unfoldable pub skips : ScaleKind → Workload Quantity → Bool
  skips deployment w = is_scaled_down w.replicas || not (pod_template_requests_gpu c w.template)
  skips stateful_set w = is_scaled_down w.replicas || not (pod_template_requests_gpu c w.template)
  skips replica_set w =
      is_owned w.meta || (is_scaled_down w.replicas || not (pod_template_requests_gpu c w.template))

  -- The object that the loop body sends.
  unfoldable pub scaled_to_zero : Workload Quantity → Workload Quantity
  scaled_to_zero w = record w {
    meta = annotate annotation_original_replicas (sprintf_d (original_replicas w.replicas)) w.meta;
    replicas = some (pos 0);
  }

  abbrev pub scale_error : ScaleKind → String → Workload Quantity → Err → Error Err
  scale_error k ns w e =
      wrapped ("scaling " <> kind_word k <> " " <> ns <> "/" <> w.meta.name <> " to zero")
        (client e)

  abbrev pub list_error : ScaleKind → String → Err → Error Err
  list_error k ns e = wrapped ("listing " <> kind_word k <> "s in " <> ns) (client e)

  -- The parts of the pass over one kind.
  abbrev pub scale_marker : ScaleKind → Marker State Err (Workload Quantity)
  scale_marker k = record {
    api = workloads k;
    name = λ w. w.meta.name;
    namespace = λ w. w.meta.namespace;
    list_failed = λ ns e. some (list_error k ns e);
    skips = skips k;
    mark = λ ns w. ok (scaled_to_zero w);
    update_failed = scale_error k;
    report = λ name t. resource "apps/v1" (kind_name k) name scaled_to_zero_action t;
    now = now;
  }

  unfoldable pub enforce_workloads : ScaleKind → String → State → Outcome Err State
  enforce_workloads k = pass (scale_marker k)

  unfoldable pub enforce_deployments : String → State → Outcome Err State
  unfolding enforce_workloads
  enforce_deployments = enforce_workloads deployment

  unfoldable pub enforce_stateful_sets : String → State → Outcome Err State
  unfolding enforce_workloads
  enforce_stateful_sets = enforce_workloads stateful_set

  unfoldable pub enforce_replica_sets : String → State → Outcome Err State
  unfolding enforce_workloads
  enforce_replica_sets = enforce_workloads replica_set

  -- The object that a restore sends, from the parsed count.
  unfoldable pub restored : ℤ → Workload Quantity → Workload Quantity
  restored n w = record w {
    meta = unannotate annotation_original_replicas w.meta;
    replicas = some n;
  }

  -- The annotation, where there is one, parsed and put back.
  unfoldable pub recover_replicas :
      Workload Quantity → Option (Result (Error Err) (Workload Quantity))
  recover_replicas w = elim (read annotation_original_replicas w.meta.annotations) [
    | none ↦ none
    | some raw ↦ elim (sscanf_d raw) [
      | none ↦ some (err (bad_annotation raw))
      | some n ↦ some (ok (restored n w))
    ]
  ]

  abbrev pub scale_restorer : ScaleKind → Restorer State Err (Workload Quantity)
  scale_restorer k = record {
    api = workloads k;
    is_not_found = is_not_found;
    recover = λ ns w. recover_replicas w;
  }

  unfoldable pub restore_workload : ScaleKind → String → String → State → Option (Error Err) × State
  restore_workload k = restore (scale_restorer k)

  unfoldable pub restore_deployment : String → String → State → Option (Error Err) × State
  unfolding restore_workload
  restore_deployment = restore_workload deployment

  unfoldable pub restore_stateful_set : String → String → State → Option (Error Err) × State
  unfolding restore_workload
  restore_stateful_set = restore_workload stateful_set

  unfoldable pub restore_replica_set : String → String → State → Option (Error Err) × State
  unfolding restore_workload
  restore_replica_set = restore_workload replica_set

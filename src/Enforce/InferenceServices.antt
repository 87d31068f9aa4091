-- ===== src/Enforce/InferenceServices.antt =====
-- `enforceInferenceServices` and `restoreInferenceService`, with `readReplicaSpec` and `isZeroed`.
pub mod Progress
pub mod Captured
pub mod Restored
pub mod Recovered
pub mod Bounds
pub mod First
pub mod Recalled
pub mod Rounds
pub mod Listed
pub mod Stored
use gpu_budget_operator.Base.{
  ℕ, String, ◌<>◌, Bool, true, false, ◌&&◌, Option, none, some, List, [], ◌∷◌, Result, ok, err,
  if◌then◌else◌,
}
use gpu_budget_operator.Base.Int.{ℤ, pos, is_nought}
use gpu_budget_operator.Base.Dict.{Dict, lookup, read, make, insert, erase}
use gpu_budget_operator.Objects.Value.{Value, int, Fields}
use gpu_budget_operator.Cluster.{Cluster, ComponentReplicaSpec, is_no_kind_match}
use gpu_budget_operator.Enforce.Gpu.{unstructured_requests_gpu}
use gpu_budget_operator.Enforce.Report.{
  Error, client, message, bad_annotation, wrapped, Outcome, resource, nothing, also,
  scaled_to_zero_action,
}
use gpu_budget_operator.Enforce.Restore.{Restorer, restore}

-- `AnnotationOriginalReplicaSpec`
abbrev pub annotation_original_replica_spec : String
annotation_original_replica_spec = "gpubudget.io/original-replica-spec"

-- `inferenceServiceComponents`
abbrev pub components : List String
components = "predictor" ∷ "transformer" ∷ "explainer" ∷ []

abbrev pub bound_path : String → String → List String
bound_path component bound = "spec" ∷ component ∷ bound ∷ []

-- The variables of the loop over the components.
pub record Zeroing : Type 0 where
  pub obj : Fields
  pub original : Dict ComponentReplicaSpec
  pub newly_captured : Bool
  pub needs_update : Bool

module _ (c : Cluster) where
  open c use {State, Err, is_not_found, inference_services, now, marshal, unmarshal}
  open c.unstructured use {
    nested_int64, nested_map, set_nested_field, remove_nested_field, get_annotations,
    set_annotations, get_name,
  }

  unfoldable pub read_replica_spec : Fields → ComponentReplicaSpec
  read_replica_spec spec = record {
    min_replicas = nested_int64 spec ("minReplicas" ∷ []);
    max_replicas = nested_int64 spec ("maxReplicas" ∷ []);
  }

  abbrev pub found_nought : Option ℤ → Bool
  found_nought none = false
  found_nought (some n) = is_nought n

  unfoldable pub is_zeroed : Fields → Bool
  is_zeroed spec =
      found_nought (nested_int64 spec ("minReplicas" ∷ []))
      && found_nought (nested_int64 spec ("maxReplicas" ∷ []))

  -- The two `SetNestedField` calls that zero a component.
  unfoldable pub zero_bounds : Fields → String → Result (Error Err) Fields
  zero_bounds o component =
      elim (set_nested_field o (int (pos 0)) (bound_path component "minReplicas")) [
        | err e ↦ err (message e)
        | ok o' ↦ elim (set_nested_field o' (int (pos 0)) (bound_path component "maxReplicas")) [
          | err e ↦ err (message e)
          | ok o'' ↦ ok o''
        ]
      ]

  -- A component whose original is recorded is zeroed again, and its record is left alone.
  pub affirm : String → Zeroing → Result (Error Err) Zeroing
  affirm component z = elim (zero_bounds z.obj component) [
    | err e ↦ err e
    | ok o ↦ ok (record z { obj = o; needs_update = true })
  ]

  pub capture : String → ComponentReplicaSpec → Zeroing → Result (Error Err) Zeroing
  capture component spec z = elim (zero_bounds z.obj component) [
    | err e ↦ err e
    | ok o ↦ ok (record z {
      obj = o;
      original = insert component spec z.original;
      newly_captured = true;
      needs_update = true;
    })
  ]

  -- The body of the loop over the components.
  unfoldable pub zero_component : String → Zeroing → Result (Error Err) Zeroing
  unfolding affirm capture
  zero_component component z = elim (lookup component z.original) [
    | some _ ↦ affirm component z
    | none ↦ elim (nested_map z.obj ("spec" ∷ component ∷ [])) [
      | none ↦ ok z
      | some spec ↦ if is_zeroed spec then ok z else capture component (read_replica_spec spec) z
    ]
  ]

  unfoldable pub zero_components : List String → Zeroing → Result (Error Err) Zeroing
  zero_components [] z = ok z
  zero_components (x ∷ xs) z = elim (zero_component x z) [
    | err e ↦ err e
    | ok z' ↦ zero_components xs z'
  ]

  -- The originals that the annotation keeps, none without one.
  unfoldable pub recorded : Fields → Result (Error Err) (Dict ComponentReplicaSpec)
  recorded o = elim (read annotation_original_replica_spec (get_annotations o)) [
    | none ↦ ok []
    | some raw ↦ elim (unmarshal raw) [ none ↦ err (bad_annotation raw) | some m ↦ ok m ]
  ]

  abbrev pub start : Fields → Dict ComponentReplicaSpec → Zeroing
  start o m = record { obj = o; original = m; newly_captured = false; needs_update = false }

  -- `annotations` was read before the components were zeroed.
  abbrev pub finished : Fields → Zeroing → Fields
  finished o z =
      set_annotations z.obj
        (insert annotation_original_replica_spec (marshal z.original) (make (get_annotations o)))

  -- What is sent for one service, and whether it is reported; `none` where nothing is to be sent.
  unfoldable pub zero_service : Fields → Result (Error Err) (Option (Fields × Bool))
  zero_service o = elim (recorded o) [
    | err e ↦ err e
    | ok m ↦ elim (zero_components components (start o m)) [
      | err e ↦ err e
      | ok z ↦ ok (if z.needs_update then some (finished o z, z.newly_captured) else none)
    ]
  ]

  abbrev pub reported : Bool → Fields → State → Outcome Err State → Outcome Err State
  reported false o s rest = rest
  reported true o s rest =
      also
        (resource "serving.kserve.io/v1beta1" "InferenceService" (get_name o) scaled_to_zero_action
          (now s))
        rest

  unfoldable pub service_loop : String → List Fields → State → Outcome Err State
  service_loop ns [] s = nothing none s
  service_loop ns (o ∷ os) s = elim (unstructured_requests_gpu c o) [
    | false ↦ service_loop ns os s
    | true ↦ elim (zero_service o) [
      | err e ↦ nothing (some e) s
      | ok none ↦ service_loop ns os s
      | ok (some (o', newly)) ↦
          let (r, s') = inference_services.update o' s in
          elim r [
            | err e ↦
                nothing
                  (some
                    (wrapped ("zeroing inferenceservice " <> ns <> "/" <> get_name o) (client e)))
                  s'
            | ok _ ↦ reported newly o s' (service_loop ns os s')
          ]
    ]
  ]

  unfoldable pub enforce_inference_services : String → State → Outcome Err State
  unfolding service_loop
  enforce_inference_services ns s =
      let (r, s') = inference_services.list ns s in
      elim r [
        | err e ↦
            nothing
              (if is_no_kind_match c e
                then none
                else some (wrapped ("listing inferenceservices in " <> ns) (client e)))
              s'
        | ok os ↦ service_loop ns os s'
      ]

  -- One bound is set to what it was, or removed where it was not set.
  unfoldable pub restore_bound : Option ℤ → List String → Fields → Result (Error Err) Fields
  restore_bound none path o = ok (remove_nested_field o path)
  restore_bound (some n) path o = elim (set_nested_field o (int n) path) [
    | err e ↦ err (message e)
    | ok o' ↦ ok o'
  ]

  unfoldable pub restore_components : Dict ComponentReplicaSpec → Fields → Result (Error Err) Fields
  unfolding restore_bound
  restore_components [] o = ok o
  restore_components ((component, spec) ∷ rest) o =
      elim (restore_bound spec.min_replicas (bound_path component "minReplicas") o) [
        | err e ↦ err e
        | ok o' ↦ elim (restore_bound spec.max_replicas (bound_path component "maxReplicas") o') [
          | err e ↦ err e
          | ok o'' ↦ restore_components rest o''
        ]
      ]

  unfoldable pub recover_service : Fields → Option (Result (Error Err) Fields)
  recover_service o = elim (read annotation_original_replica_spec (get_annotations o)) [
    | none ↦ none
    | some raw ↦ some (elim (unmarshal raw) [
      | none ↦ err (bad_annotation raw)
      | some m ↦ elim (restore_components m o) [
        | err e ↦ err e
        | ok o' ↦
            ok (
              set_annotations o'
                (erase annotation_original_replica_spec (make (get_annotations o))))
      ]
    ])
  ]

  abbrev pub service_restorer : Restorer State Err Fields
  service_restorer = record {
    api = inference_services;
    is_not_found = is_not_found;
    recover = λ ns o. recover_service o;
  }

  unfoldable pub restore_inference_service : String → String → State → Option (Error Err) × State
  restore_inference_service = restore service_restorer

-- ===== src/Enforce/Gpu.antt =====
-- Which objects request GPUs: `podTemplateRequestsGPU`, `scanForGPURequest` and what they call.
pub mod Occurs
use gpu_budget_operator.Base.{
  String, Bool, true, false, not, ◌&&◌, ◌||◌, Option, none, some, List, [], ◌∷◌, ◌++◌, ◌==◌,
  if◌then◌else◌,
}
use gpu_budget_operator.Base.Dict.{Dict, read}
use gpu_budget_operator.Objects.{Container, PodSpec}
use gpu_budget_operator.Objects.Value.{
  Value, text, object, array, Fields, end, field, Items, nil, cons,
}
use gpu_budget_operator.Cluster.{Cluster}

-- `GPUResourceName`
abbrev pub gpu_resource_name : String
gpu_resource_name = "nvidia.com/gpu"

-- `v[key]` on an unstructured map, with its `ok`.
unfoldable pub lookup_field : String → Fields → Option Value
lookup_field k end = none
lookup_field k (field j v fs) = if k == j then some v else lookup_field k fs

module _ (c : Cluster) where
  unfoldable pub quantity_positive : c.Quantity → Bool
  quantity_positive q = not (c.is_zero q)

  -- `m[GPUResourceName]`
  unfoldable pub gpu_amount : Option (Dict c.Quantity) → c.Quantity
  gpu_amount m = elim (read gpu_resource_name m) [ none ↦ c.zero_quantity | some q ↦ q ]

  any_container : List (Container c.Quantity) → Bool
  any_container [] = false
  any_container (x ∷ xs) =
      if quantity_positive (gpu_amount x.requests) || quantity_positive (gpu_amount x.limits)
      then true
      else any_container xs

  unfoldable pub pod_template_requests_gpu : PodSpec c.Quantity → Bool
  unfolding any_container quantity_positive gpu_amount
  pod_template_requests_gpu spec = any_container (spec.containers ++ spec.init_containers)

  -- The `if raw, ok := v[…]` block on one map.
  has_gpu_key : Option Value → Bool
  has_gpu_key (some (text s)) = elim (c.parse_quantity s) [
    | none ↦ false
    | some q ↦ quantity_positive q
  ]
  has_gpu_key _ = false

  unfoldable mutual
    unfolding has_gpu_key

    pub scan_for_gpu_request : Value → Bool
    scan_for_gpu_request (object fs) =
        if has_gpu_key (lookup_field gpu_resource_name fs) then true else scan_fields fs
    scan_for_gpu_request (array xs) = scan_items xs
    scan_for_gpu_request _ = false

    pub scan_fields : Fields → Bool
    scan_fields end = false
    scan_fields (field k v fs) = if scan_for_gpu_request v then true else scan_fields fs

    pub scan_items : Items → Bool
    scan_items nil = false
    scan_items (cons v xs) = if scan_for_gpu_request v then true else scan_items xs

  unfoldable pub unstructured_requests_gpu : Fields → Bool
  unfolding scan_for_gpu_request
  unstructured_requests_gpu fs = scan_for_gpu_request (object fs)

-- ===== src/Enforce/Gpu/Occurs.antt =====
-- What the GPU tests decide, said without their loops.
use gpu_budget_operator.Base.{
  String, Bool, true, false, Option, none, some, List, [], ◌∷◌, ◌++◌, ◌≡◌, refl, ◌↔◌, ◌⊎◌, inl, inr,
  arith, Any, Bool-cases, Option-cases, if◌then◌else◌,
}
use gpu_budget_operator.Base.Dict.{Dict, read}
use gpu_budget_operator.Objects.{Container, PodSpec}
use gpu_budget_operator.Objects.Value.{
  Value, text, object, array, Fields, end, field, Items, nil, cons,
}
use gpu_budget_operator.Cluster.{Cluster}
use gpu_budget_operator.Enforce.Gpu.{
  gpu_resource_name, lookup_field, quantity_positive, gpu_amount, any_container,
  pod_template_requests_gpu, has_gpu_key, scan_for_gpu_request, scan_fields, scan_items,
}

-- A container names GPUs in its requests or its limits, at an amount that is not zero.
abbrev pub RequestsGpu : (c : Cluster) → Container c.Quantity → Type 0
RequestsGpu c x =
    (q : c.Quantity) × ((read gpu_resource_name x.requests ≡ some q)
      ⊎ (read gpu_resource_name x.limits ≡ some q))
    × (c.is_zero q ≡ false)

-- Somewhere in the value there is a map with a GPU key whose text parses to an amount that is not
-- zero.
mutual
  pub data HasGpu (c : Cluster) : Value → Type 0 where
    key :
        (fs : Fields) (s : String) (q : c.Quantity)
        → lookup_field gpu_resource_name fs ≡ some (text s)
        → c.parse_quantity s ≡ some q
        → c.is_zero q ≡ false
        → HasGpu c (object fs)
    inside : (fs : Fields) → FieldsHaveGpu c fs → HasGpu c (object fs)
    element : (xs : Items) → ItemsHaveGpu c xs → HasGpu c (array xs)

  pub data FieldsHaveGpu (c : Cluster) : Fields → Type 0 where
    this_field :
        (k : String) (v : Value) (fs : Fields) → HasGpu c v → FieldsHaveGpu c (field k v fs)
    later_field :
        (k : String) (v : Value) (fs : Fields) → FieldsHaveGpu c fs → FieldsHaveGpu c (field k v fs)

  pub data ItemsHaveGpu (c : Cluster) : Items → Type 0 where
    this_item : (v : Value) (xs : Items) → HasGpu c v → ItemsHaveGpu c (cons v xs)
    later_item : (v : Value) (xs : Items) → ItemsHaveGpu c xs → ItemsHaveGpu c (cons v xs)

or_else_true : (b : Bool) {x : Bool} → x ≡ true → (if b then true else x) ≡ true
or_else_true true h = refl
or_else_true false h = h

module _ (c : Cluster) where
  amount_sound :
      (m : Option (Dict c.Quantity))
      → c.is_zero c.zero_quantity ≡ true
      → quantity_positive c (gpu_amount c m) ≡ true
      → (q : c.Quantity) × (read gpu_resource_name m ≡ some q) × (c.is_zero q ≡ false)
  unfolding quantity_positive gpu_amount
  amount_sound m z h = elim (Option-cases (read gpu_resource_name m)) [
    | inl e ↦ absurd (ground (arith, z, h, e))
    | inr (q, e) ↦ (q, e, ground (arith, h, e))
  ]

  amount_complete :
      (m : Option (Dict c.Quantity)) (q : c.Quantity)
      → read gpu_resource_name m ≡ some q
      → c.is_zero q ≡ false
      → quantity_positive c (gpu_amount c m) ≡ true
  unfolding quantity_positive gpu_amount
  amount_complete m q e h = ground arith

  any_container_sound :
      (xs : List (Container c.Quantity))
      → c.is_zero c.zero_quantity ≡ true
      → any_container c xs ≡ true
      → Any (RequestsGpu c) xs
  unfolding any_container
  any_container_sound [] z h = absurd (cc)
  any_container_sound (x ∷ xs) z h =
      elim (Bool-cases (quantity_positive c (gpu_amount c x.requests))) [
        | inl p ↦ let (q, e, n) = amount_sound x.requests z p in inl (q, inl e, n)
        | inr r ↦ elim (Bool-cases (quantity_positive c (gpu_amount c x.limits))) [
          | inl p ↦ let (q, e, n) = amount_sound x.limits z p in inl (q, inr e, n)
          | inr l ↦ inr (any_container_sound xs z (ground (arith, h, r, l)))
        ]
      ]

  any_container_complete :
      (xs : List (Container c.Quantity)) → Any (RequestsGpu c) xs → any_container c xs ≡ true
  unfolding any_container
  any_container_complete [] h = absurd h
  any_container_complete (x ∷ xs) (inl (q, inl e, n)) =
      ground (arith, amount_complete x.requests q e n)
  any_container_complete (x ∷ xs) (inl (q, inr e, n)) =
      ground (arith, amount_complete x.limits q e n)
  any_container_complete (x ∷ xs) (inr h) = ground (arith, any_container_complete xs h)

  -- If a quantity that is missing is zero, the test of a pod template holds exactly when some
  -- container or init container requests GPUs or is limited to some.
  pub pod_template_requests_gpu_iff :
      c.is_zero c.zero_quantity ≡ true
      → (spec : PodSpec c.Quantity)
      → (pod_template_requests_gpu c spec ≡ true)
        ↔ Any (RequestsGpu c) (spec.containers ++ spec.init_containers)
  unfolding pod_template_requests_gpu
  pod_template_requests_gpu_iff z spec = (
    any_container_sound (spec.containers ++ spec.init_containers) z,
    any_container_complete (spec.containers ++ spec.init_containers),
  )

  key_found :
      (fs : Fields) (o : Option Value)
      → lookup_field gpu_resource_name fs ≡ o
      → has_gpu_key c o ≡ true
      → HasGpu c (object fs)
  unfolding has_gpu_key quantity_positive
  key_found fs (some (text s)) e h = elim (Option-cases (c.parse_quantity s)) [
    | inl p ↦ absurd (ground (arith, h, p))
    | inr (q, p) ↦ key fs s q e p (ground (arith, h, p))
  ]
  key_found fs (some _) e h = absurd (cc)
  key_found fs none e h = absurd (cc)

  key_sound :
      (fs : Fields)
      → has_gpu_key c (lookup_field gpu_resource_name fs) ≡ true
      → HasGpu c (object fs)
  key_sound fs h = key_found fs (lookup_field gpu_resource_name fs) refl h

  key_complete :
      (s : String) (q : c.Quantity)
      → c.parse_quantity s ≡ some q
      → c.is_zero q ≡ false
      → has_gpu_key c (some (text s)) ≡ true
  unfolding has_gpu_key quantity_positive
  key_complete s q e h = ground arith

  mutual
    unfolding scan_for_gpu_request

    scan_sound : (v : Value) → scan_for_gpu_request c v ≡ true → HasGpu c v
    scan_sound (object fs) h =
        elim (Bool-cases (has_gpu_key c (lookup_field gpu_resource_name fs))) [
          | inl k ↦ key_sound fs k
          | inr k ↦ inside fs (scan_fields_sound fs (ground (arith, h, k)))
        ]
    scan_sound (array xs) h = element xs (scan_items_sound xs h)
    scan_sound _ h = absurd (cc)

    scan_fields_sound : (fs : Fields) → scan_fields c fs ≡ true → FieldsHaveGpu c fs
    scan_fields_sound end h = absurd (cc)
    scan_fields_sound (field k v fs) h = elim (Bool-cases (scan_for_gpu_request c v)) [
      | inl e ↦ this_field k v fs (scan_sound v e)
      | inr e ↦ later_field k v fs (scan_fields_sound fs (ground (arith, h, e)))
    ]

    scan_items_sound : (xs : Items) → scan_items c xs ≡ true → ItemsHaveGpu c xs
    scan_items_sound nil h = absurd (cc)
    scan_items_sound (cons v xs) h = elim (Bool-cases (scan_for_gpu_request c v)) [
      | inl e ↦ this_item v xs (scan_sound v e)
      | inr e ↦ later_item v xs (scan_items_sound xs (ground (arith, h, e)))
    ]

  mutual
    unfolding scan_for_gpu_request

    scan_complete : {v : Value} → HasGpu c v → scan_for_gpu_request c v ≡ true
    scan_complete (key fs s q e p n) = rw (e, key_complete s q p n)
    scan_complete (inside fs h) = or_else_true _ (scan_fields_complete h)
    scan_complete (element xs h) = scan_items_complete h

    scan_fields_complete : {fs : Fields} → FieldsHaveGpu c fs → scan_fields c fs ≡ true
    scan_fields_complete (this_field k v fs h) = rw (scan_complete h)
    scan_fields_complete (later_field k v fs h) = or_else_true _ (scan_fields_complete h)

    scan_items_complete : {xs : Items} → ItemsHaveGpu c xs → scan_items c xs ≡ true
    scan_items_complete (this_item v xs h) = rw (scan_complete h)
    scan_items_complete (later_item v xs h) = or_else_true _ (scan_items_complete h)

  -- The walk over an unstructured value answers true exactly when, at some depth, a map has a GPU
  -- key whose text parses to a quantity that is not zero.
  pub scan_for_gpu_request_iff : (v : Value) → (scan_for_gpu_request c v ≡ true) ↔ HasGpu c v
  scan_for_gpu_request_iff v = (scan_sound v, scan_complete)

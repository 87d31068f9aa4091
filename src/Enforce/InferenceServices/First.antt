-- ===== src/Enforce/InferenceServices/First.antt =====
-- What a first enforcement of an InferenceService records, and what it leaves of its replica bounds.
use gpu_budget_operator.Base.{
  String, true, false, none, some, List, [], ◌∷◌, ok, ◌≡◌, ◌≢◌, refl, sym, ap, subst, ◌∙◌, inl, inr,
  arith, Bool-cases, Option-cases, Result-cases, ◌==◌, ==_sound, ==_apart,
}
use gpu_budget_operator.Base.Dict.{lookup, insert, lookup-insert}
use gpu_budget_operator.Objects.Value.{Fields}
use gpu_budget_operator.Cluster.{Cluster, ComponentReplicaSpec}
use gpu_budget_operator.Cluster.Helpers.{IsUnstructured, IsNested}
use gpu_budget_operator.Enforce.InferenceServices.{
  Zeroing, read_replica_spec, is_zeroed, zero_bounds, affirm, capture, zero_component,
  zero_components, start,
}
use gpu_budget_operator.Enforce.InferenceServices.Progress.{
  affirmed, missing_same, zeroed_same, live_captured,
}
use gpu_budget_operator.Enforce.InferenceServices.Restored.{bound}
use gpu_budget_operator.Enforce.InferenceServices.Bounds.{zero_bounds-IsBut}

module _ (c : Cluster) (U : IsUnstructured c.unstructured) (N : IsNested c.unstructured) where
  -- The loop variables after some components, from an object without a record.
  pub record IsFirst (o : Fields) (z : Zeroing) : Type 0 where
    pub captured :
        (k : String) (spec : ComponentReplicaSpec)
        → lookup k z.original ≡ some spec
        → (spec.min_replicas ≡ bound c U N o k "minReplicas")
          × (spec.max_replicas ≡ bound c U N o k "maxReplicas")
    pub untouched :
        (k f : String) → lookup k z.original ≡ none → bound c U N z.obj k f ≡ bound c U N o k f
    pub quiet : z.newly_captured ≡ false → (z.original ≡ []) × (z.needs_update ≡ false)
    pub name : c.unstructured.get_name z.obj ≡ c.unstructured.get_name o
    pub namespace : c.unstructured.get_namespace z.obj ≡ c.unstructured.get_namespace o

  not_empty :
      (x : String) (old : ComponentReplicaSpec) (z : Zeroing)
      → lookup x z.original ≡ some old
      → z.original ≢ []
  unfolding lookup
  not_empty x old z known e = absurd (ground (arith, known, ap (lookup x) e))

  affirm-IsFirst :
      (o : Fields) (x : String) (z z' : Zeroing) (old : ComponentReplicaSpec)
      → IsFirst o z
      → lookup x z.original ≡ some old
      → affirm c x z ≡ ok z'
      → IsFirst o z'
  unfolding affirm
  affirm-IsFirst o x z z' old first known e = elim (Result-cases (zero_bounds c z.obj x)) [
    | inr (f, p) ↦ absurd (ground (arith, e, p))
    | inl (o1, p) ↦
        let same : record z { obj = o1; needs_update = true } ≡ z' = ground (arith, e, p) in
        let but = zero_bounds-IsBut c U N z.obj o1 x p in
        subst (IsFirst o) same (record {
          captured = first.captured;
          untouched = λ k f absent.
              but.others k f (λ q. ground (arith, absent, known, q)) ∙ first.untouched k f absent;
          quiet = λ q. absurd (not_empty x old z known (first.quiet q).0);
          name = but.name ∙ first.name;
          namespace = but.namespace ∙ first.namespace;
        })
  ]

  read_bounds :
      (o : Fields) (x : String) (z : Zeroing) (m : Fields)
      → IsFirst o z
      → lookup x z.original ≡ none
      → c.unstructured.nested_map z.obj ("spec" ∷ x ∷ []) ≡ some m
      → ((read_replica_spec c m).min_replicas ≡ bound c U N o x "minReplicas")
        × ((read_replica_spec c m).max_replicas ≡ bound c U N o x "maxReplicas")
  unfolding read_replica_spec
  read_bounds o x z m first absent found = (
    N.nested_int64-nested_map z.obj m x "minReplicas" found
        ∙ first.untouched x "minReplicas" absent,
    N.nested_int64-nested_map z.obj m x "maxReplicas" found
        ∙ first.untouched x "maxReplicas" absent,
  )

  captured_after :
      (o : Fields) (x : String) (z : Zeroing) (m : Fields) (k : String)
      (spec : ComponentReplicaSpec)
      → IsFirst o z
      → lookup x z.original ≡ none
      → c.unstructured.nested_map z.obj ("spec" ∷ x ∷ []) ≡ some m
      → lookup k (insert x (read_replica_spec c m) z.original) ≡ some spec
      → (spec.min_replicas ≡ bound c U N o k "minReplicas")
        × (spec.max_replicas ≡ bound c U N o k "maxReplicas")
  captured_after o x z m k spec first absent found h =
      let step = lookup-insert k x (read_replica_spec c m) z.original in
      elim (Bool-cases (k == x)) [
        | inr e ↦ first.captured k spec (ground (arith, h, step, e))
        | inl e ↦
            let is : read_replica_spec c m ≡ spec = ground (arith, h, step, e) in
            let (low, high) = read_bounds o x z m first absent found in
            let named = ==_sound k x e in
            (
              ap (λ y. y.min_replicas) (sym is)
                  ∙ low
                  ∙ ap (λ y. bound c U N o y "minReplicas") (sym named),
              ap (λ y. y.max_replicas) (sym is)
                  ∙ high
                  ∙ ap (λ y. bound c U N o y "maxReplicas") (sym named),
            )
      ]

  absent_after :
      (x : String) (spec : ComponentReplicaSpec) (z : Zeroing) (k : String)
      → lookup k (insert x spec z.original) ≡ none
      → (k ≢ x) × (lookup k z.original ≡ none)
  absent_after x spec z k h =
      let step = lookup-insert k x spec z.original in
      elim (Bool-cases (k == x)) [
        | inl e ↦ absurd (ground (arith, h, step, e))
        | inr e ↦ (==_apart k x e, ground (arith, h, step, e))
      ]

  capture-IsFirst :
      (o : Fields) (x : String) (z z' : Zeroing) (m : Fields)
      → IsFirst o z
      → lookup x z.original ≡ none
      → c.unstructured.nested_map z.obj ("spec" ∷ x ∷ []) ≡ some m
      → capture c x (read_replica_spec c m) z ≡ ok z'
      → IsFirst o z'
  unfolding capture
  capture-IsFirst o x z z' m first absent found e = elim (Result-cases (zero_bounds c z.obj x)) [
    | inr (f, p) ↦ absurd (ground (arith, e, p))
    | inl (o1, p) ↦
        let same : record z {
          obj = o1;
          original = insert x (read_replica_spec c m) z.original;
          newly_captured = true;
          needs_update = true;
        }
            ≡ z' =
          ground (arith, e, p) in
        let but = zero_bounds-IsBut c U N z.obj o1 x p in
        subst (IsFirst o) same (record {
          captured = λ k spec h. captured_after o x z m k spec first absent found h;
          untouched = λ k f h.
              let (apart, before) = absent_after x (read_replica_spec c m) z k h in
              but.others k f apart ∙ first.untouched k f before;
          quiet = λ q. absurd (cc);
          name = but.name ∙ first.name;
          namespace = but.namespace ∙ first.namespace;
        })
  ]

  component-IsFirst :
      (o : Fields) (x : String) (z z' : Zeroing)
      → IsFirst o z
      → zero_component c x z ≡ ok z'
      → IsFirst o z'
  component-IsFirst o x z z' first e = elim (Option-cases (lookup x z.original)) [
    | inr (old, known) ↦
        affirm-IsFirst o x z z' old first known (sym (affirmed c x z old known) ∙ e)
    | inl absent ↦ elim (Option-cases (c.unstructured.nested_map z.obj ("spec" ∷ x ∷ []))) [
      | inl missing ↦ subst (IsFirst o) (ground (arith, e, missing_same c x z absent missing)) first
      | inr (m, found) ↦ elim (Bool-cases (is_zeroed c m)) [
        | inl zeroed ↦
            subst (IsFirst o) (ground (arith, e, zeroed_same c x z m absent found zeroed)) first
        | inr live ↦
            capture-IsFirst o x z z' m first absent found
              (sym (live_captured c x z m absent found live) ∙ e)
      ]
    ]
  ]

  components-IsFirst :
      (o : Fields) (xs : List String) (z z' : Zeroing)
      → IsFirst o z
      → zero_components c xs z ≡ ok z'
      → IsFirst o z'
  unfolding zero_components
  components-IsFirst o [] z z' first e = subst (IsFirst o) (ground (arith, e)) first
  components-IsFirst o (x ∷ xs) z z' first e = elim (Result-cases (zero_component c x z)) [
    | inr (f, p) ↦ absurd (ground (arith, e, p))
    | inl (y, p) ↦
        components-IsFirst o xs y z' (component-IsFirst o x z y first p) (ground (arith, e, p))
  ]

  pub zero_components-IsFirst :
      (o : Fields) (xs : List String) (z : Zeroing)
      → zero_components c xs (start c o []) ≡ ok z
      → IsFirst o z
  unfolding lookup
  zero_components-IsFirst o xs z e =
      components-IsFirst o xs (start c o []) z
        (record {
          captured = λ k spec h. absurd (cc);
          untouched = λ k f h. refl;
          quiet = λ h. (refl, refl);
          name = refl;
          namespace = refl;
        })
        e

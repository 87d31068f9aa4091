-- ===== src/Enforce/InferenceServices/Rounds.antt =====
-- One round of the loop of `enforceInferenceServices`: what it sends, and the ways it goes.
use gpu_budget_operator.Base.{
  String, Bool, true, false, none, some, List, [], ◌∷◌, ok, err, ◌≡◌, refl, sym, ap, subst, ◌∙◌,
  inl, inr, arith, Bool-cases, Option-cases, Result-cases,
}
use gpu_budget_operator.Base.Dict.{lookup}
use gpu_budget_operator.Objects.Value.{Fields}
use gpu_budget_operator.Cluster.{Cluster}
use gpu_budget_operator.Cluster.Helpers.{IsUnstructured, IsNested, IsJson}
use gpu_budget_operator.Enforce.Gpu.{unstructured_requests_gpu}
use gpu_budget_operator.Enforce.Report.{Error}
use gpu_budget_operator.Enforce.InferenceServices.{
  Zeroing, components, zero_bounds, affirm, capture, zero_component, zero_components, start,
  recorded, is_zeroed, zero_service, reported, service_loop,
}
use gpu_budget_operator.Enforce.InferenceServices.Progress.{
  affirmed, missing_same, zeroed_same, live_captured,
}
use gpu_budget_operator.Enforce.InferenceServices.Bounds.{zero_bounds-IsBut}
use gpu_budget_operator.Enforce.InferenceServices.Captured.{service_steps}

module _ (c : Cluster) (U : IsUnstructured c.unstructured) (N : IsNested c.unstructured)
    (J : IsJson c) where
  open c.unstructured use {get_name, get_namespace}

  -- The second object has the first one's name and namespace.
  abbrev IsNamesake : Fields → Fields → Type 0
  IsNamesake o p = (get_name p ≡ get_name o) × (get_namespace p ≡ get_namespace o)

  affirm-IsNamesake : (x : String) (z z' : Zeroing) → affirm c x z ≡ ok z' → IsNamesake z.obj z'.obj
  unfolding affirm
  affirm-IsNamesake x z z' e = elim (Result-cases (zero_bounds c z.obj x)) [
    | inr (f, p) ↦ absurd (ground (arith, e, p))
    | inl (o, p) ↦
        let but = zero_bounds-IsBut c U N z.obj o x p in
        let same : o ≡ z'.obj = ground (arith, e, p) in
        subst (IsNamesake z.obj) same (but.name, but.namespace)
  ]

  component-IsNamesake :
      (x : String) (z z' : Zeroing) → zero_component c x z ≡ ok z' → IsNamesake z.obj z'.obj
  unfolding capture
  component-IsNamesake x z z' e = elim (Option-cases (lookup x z.original)) [
    | inr (old, known) ↦ affirm-IsNamesake x z z' (sym (affirmed c x z old known) ∙ e)
    | inl absent ↦ elim (Option-cases (c.unstructured.nested_map z.obj ("spec" ∷ x ∷ []))) [
      | inl missing ↦
          let same : z ≡ z' = ground (arith, e, missing_same c x z absent missing) in
          subst (λ y. IsNamesake z.obj y.obj) same (refl, refl)
      | inr (m, found) ↦ elim (Bool-cases (is_zeroed c m)) [
        | inl zeroed ↦
            let same : z ≡ z' = ground (arith, e, zeroed_same c x z m absent found zeroed) in
            subst (λ y. IsNamesake z.obj y.obj) same (refl, refl)
        | inr live ↦
            let taken = sym (live_captured c x z m absent found live) ∙ e in
            elim (Result-cases (zero_bounds c z.obj x)) [
              | inr (f, p) ↦ absurd (ground (arith, taken, p))
              | inl (o, p) ↦
                  let but = zero_bounds-IsBut c U N z.obj o x p in
                  let same : o ≡ z'.obj = ground (arith, taken, p) in
                  subst (IsNamesake z.obj) same (but.name, but.namespace)
            ]
      ]
    ]
  ]

  components-IsNamesake :
      (xs : List String) (z z' : Zeroing) → zero_components c xs z ≡ ok z' → IsNamesake z.obj z'.obj
  unfolding zero_components
  components-IsNamesake [] z z' e =
      let same : z ≡ z' = ground (arith, e) in subst (λ y. IsNamesake z.obj y.obj) same (refl, refl)
  components-IsNamesake (x ∷ xs) z z' e = elim (Result-cases (zero_component c x z)) [
    | inr (f, p) ↦ absurd (ground (arith, e, p))
    | inl (y, p) ↦
        let first = component-IsNamesake x z y p in
        let rest = components-IsNamesake xs y z' (ground (arith, e, p)) in
        (rest.0 ∙ first.0, rest.1 ∙ first.1)
  ]

  pub zero_service-IsNamesake :
      (o o' : Fields) (newly : Bool) → zero_service c o ≡ ok (some (o', newly)) → IsNamesake o o'
  unfolding zero_service
  zero_service-IsNamesake o o' newly e = elim (Result-cases (recorded c o)) [
    | inr (f, p) ↦ absurd (ground (arith, e, p))
    | inl (m, p) ↦
        let (z, steps, is, flag) = service_steps c U J o o' newly m p e in
        let loop = components-IsNamesake components (start c o m) z steps in
        let written = U.get_name-set_annotations _ z.obj in
        (ap get_name is ∙ written.0 ∙ loop.0, ap get_namespace is ∙ written.1 ∙ loop.1)
  ]

  -- The ways a round of the loop goes.
  pub loop_skipped :
      (ns : String) (o : Fields) (os : List Fields) (s : c.State)
      → unstructured_requests_gpu c o ≡ false
      → service_loop c ns (o ∷ os) s ≡ service_loop c ns os s
  unfolding service_loop
  loop_skipped ns o os s e = rw (e, service_loop) refl

  pub loop_failed :
      (ns : String) (o : Fields) (os : List Fields) (s : c.State) (e : Error c.Err)
      → unstructured_requests_gpu c o ≡ true
      → zero_service c o ≡ err e
      → (service_loop c ns (o ∷ os) s).state ≡ s
  unfolding service_loop
  loop_failed ns o os s e due p = rw (due, p, service_loop) refl

  pub loop_idle :
      (ns : String) (o : Fields) (os : List Fields) (s : c.State)
      → unstructured_requests_gpu c o ≡ true
      → zero_service c o ≡ ok none
      → service_loop c ns (o ∷ os) s ≡ service_loop c ns os s
  unfolding service_loop
  loop_idle ns o os s due p = rw (due, p, service_loop) refl

  pub loop_sent :
      (ns : String) (o o' : Fields) (newly : Bool) (os : List Fields) (s s' : c.State) (x : Fields)
      → unstructured_requests_gpu c o ≡ true
      → zero_service c o ≡ ok (some (o', newly))
      → c.inference_services.update o' s ≡ (ok x, s')
      → service_loop c ns (o ∷ os) s ≡ reported c newly o s' (service_loop c ns os s')
  unfolding service_loop
  loop_sent ns o o' newly os s s' x due p q = ground (arith, due, p, q)

  pub loop_refused :
      (ns : String) (o o' : Fields) (newly : Bool) (os : List Fields) (s s' : c.State) (x : c.Err)
      → unstructured_requests_gpu c o ≡ true
      → zero_service c o ≡ ok (some (o', newly))
      → c.inference_services.update o' s ≡ (err x, s')
      → (service_loop c ns (o ∷ os) s).state ≡ s'
  unfolding service_loop
  loop_refused ns o o' newly os s s' x due p q = ground (arith, due, p, q)

-- ===== src/Enforce/InferenceServices/Listed.antt =====
-- The services that a list names, and what the loop of `enforceInferenceServices` does to others.
use gpu_budget_operator.Base.{
  String, Bool, true, false, Option, some, List, [], ◌∷◌, ok, ◌≡◌, ◌≢◌, refl, ap, ◌∙◌, inl, inr,
  arith, All, All-zip, Any, Bool-cases, Option-cases, Result-cases, Call-cases, ◌==◌, if◌then◌else◌,
}
use gpu_budget_operator.Objects.{EnforcedResource}
use gpu_budget_operator.Objects.Value.{Fields}
use gpu_budget_operator.Cluster.{Cluster}
use gpu_budget_operator.Cluster.Lawful.{IsLawful, NodupNames}
use gpu_budget_operator.Cluster.Helpers.{IsUnstructured, IsNested, IsJson}
use gpu_budget_operator.Enforce.Gpu.{unstructured_requests_gpu}
use gpu_budget_operator.Enforce.Report.{Outcome, scaled_to_zero_action}
use gpu_budget_operator.Enforce.InferenceServices.{zero_service, reported, service_loop}
use gpu_budget_operator.Enforce.InferenceServices.Rounds.{
  zero_service-IsNamesake, loop_skipped, loop_failed, loop_idle, loop_sent, loop_refused,
}

module _ (c : Cluster) (U : IsUnstructured c.unstructured) (N : IsNested c.unstructured)
    (J : IsJson c) (view : String → c.State → String → Option Fields)
    (L : IsLawful c.unstructured.get_name c.unstructured.get_namespace c.inference_services
      c.is_not_found view) where
  open c.unstructured use {get_name, get_namespace}

  abbrev pub IsReport : String → EnforcedResource → Type 0
  IsReport n r = (r.kind ≡ "InferenceService") × (r.name ≡ n) × (r.action ≡ scaled_to_zero_action)

  -- The service `n` requested GPUs, and what is sent for it is stored; it is reported if some
  -- component was captured.
  pub record IsZeroed (ns : String) (s : c.State) (out : Outcome c.Err c.State) (n : String)
      : Type 0 where
    pub before : Fields
    pub after : Fields
    pub newly : Bool
    pub found : view ns s n ≡ some before
    pub due : unstructured_requests_gpu c before ≡ true
    pub zeroed : zero_service c before ≡ ok (some (after, newly))
    pub stored : view ns out.state n ≡ some after
    pub told : newly ≡ true → Any (IsReport n) out.resources

  abbrev pub IsListed : String → c.State → List Fields → Type 0
  IsListed ns s os =
      All (λ o. (get_namespace o ≡ ns) × (view ns s (get_name o) ≡ some o)) os
      × NodupNames get_name os

  -- The update of one service, seen from the name `n`.
  pub updated :
      (ns : String) (o o' : Fields) (newly : Bool) (s s' : c.State) (x : Fields) (n : String)
      → get_namespace o ≡ ns
      → zero_service c o ≡ ok (some (o', newly))
      → c.inference_services.update o' s ≡ (ok x, s')
      → view ns s' n ≡ (if n == get_name o then some o' else view ns s n)
  updated ns o o' newly s s' x n here e q =
      let names = zero_service-IsNamesake c U N J o o' newly e in
      ground (arith, L.update_ok ns o' s x s' (names.1 ∙ here) q n, names.0)

  pub listed_after :
      (ns : String) (o o' : Fields) (newly : Bool) (os : List Fields) (s s' : c.State) (x : Fields)
      → IsListed ns s (o ∷ os)
      → zero_service c o ≡ ok (some (o', newly))
      → c.inference_services.update o' s ≡ (ok x, s')
      → IsListed ns s' os
  listed_after ns o o' newly os s s' x (here, fresh) e q = (
    All-zip
        (λ u listed other. (
          listed.0,
          ground (arith, updated ns o o' newly s s' x (get_name u) here.0.0 e q, listed.1, other),
        ))
        os here.1 fresh.0,
    fresh.1,
  )

  pub reported_state :
      (newly : Bool) (o : Fields) (s : c.State) (rest : Outcome c.Err c.State)
      → (reported c newly o s rest).state ≡ rest.state
  reported_state true o s rest = refl
  reported_state false o s rest = refl

  pub reported_rest :
      (P : EnforcedResource → Type 0) (newly : Bool) (o : Fields) (s : c.State)
      (rest : Outcome c.Err c.State)
      → Any P rest.resources
      → Any P (reported c newly o s rest).resources
  reported_rest P true o s rest h = inr h
  reported_rest P false o s rest h = h

  pub reported_here :
      (newly : Bool) (o : Fields) (s : c.State) (n : String) (rest : Outcome c.Err c.State)
      → get_name o ≡ n
      → newly ≡ true
      → Any (IsReport n) (reported c newly o s rest).resources
  reported_here true o s n rest named e = inl (refl, named, refl)
  reported_here false o s n rest named e = absurd (cc)

  -- The loop leaves a service alone that is not in its list.
  pub loop_apart :
      (ns : String) (os : List Fields) (s : c.State) (n : String)
      → All (λ o. get_namespace o ≡ ns) os
      → All (λ o. get_name o ≢ n) os
      → view ns (service_loop c ns os s).state n ≡ view ns s n
  unfolding service_loop
  loop_apart ns [] s n here apart = refl
  loop_apart ns (o ∷ os) s n here apart = elim (Bool-cases (unstructured_requests_gpu c o)) [
    | inr skipped ↦
        rw (loop_skipped c U N J ns o os s skipped) (loop_apart ns os s n here.1 apart.1)
    | inl due ↦ elim (Result-cases (zero_service c o)) [
      | inr (e, p) ↦ ap (λ t. view ns t n) (loop_failed c U N J ns o os s e due p)
      | inl (found, p) ↦ elim (Option-cases found) [
        | inl idle ↦
            rw (loop_idle c U N J ns o os s due (p ∙ ap ok idle))
              (loop_apart ns os s n here.1 apart.1)
        | inr ((o', newly), f) ↦
            let zeroed = p ∙ ap ok f in
            elim (Call-cases (c.inference_services.update o' s)) [
              | inl (x, s', q) ↦
                  ap (λ t. view ns t.state n)
                    (loop_sent c U N J ns o o' newly os s s' x due zeroed q)
                  ∙ ap (λ t. view ns t n) (reported_state newly o s' (service_loop c ns os s'))
                  ∙ loop_apart ns os s' n here.1 apart.1
                  ∙ ground (arith, updated ns o o' newly s s' x n here.0 zeroed q, apart.0)
              | inr (x, s', q) ↦
                  ap (λ t. view ns t n) (loop_refused c U N J ns o o' newly os s s' x due zeroed q)
                  ∙ L.update_err ns o' s x s' q n
            ]
      ]
    ]
  ]

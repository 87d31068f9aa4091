-- ===== src/Enforce/InferenceServices/Stored.antt =====
-- `enforceInferenceServices` over a lawful API: what it stores and what it reports.
use gpu_budget_operator.Base.{
  String, Bool, true, Option, some, List, [], ◌∷◌, ok, err, ◌≡◌, ◌≢◌, refl, sym, ap, ◌∙◌, ◌⊎◌, inl,
  inr, arith, All-map, Bool-cases, Option-cases, Result-cases, Call-cases, string_dec,
}
use gpu_budget_operator.Objects.Value.{Fields}
use gpu_budget_operator.Cluster.{Cluster}
use gpu_budget_operator.Cluster.Lawful.{IsLawful}
use gpu_budget_operator.Cluster.Helpers.{IsUnstructured, IsNested, IsJson}
use gpu_budget_operator.Enforce.Gpu.{unstructured_requests_gpu}
use gpu_budget_operator.Enforce.Report.{Outcome}
use gpu_budget_operator.Enforce.InferenceServices.{
  zero_service, reported, service_loop, enforce_inference_services,
}
use gpu_budget_operator.Enforce.InferenceServices.Rounds.{
  loop_skipped, loop_failed, loop_idle, loop_sent, loop_refused,
}
use gpu_budget_operator.Enforce.InferenceServices.Listed.{
  IsReport, IsZeroed, IsListed, updated, listed_after, reported_state, reported_rest, reported_here,
  loop_apart,
}

module _ (c : Cluster) (U : IsUnstructured c.unstructured) (N : IsNested c.unstructured)
    (J : IsJson c) (view : String → c.State → String → Option Fields)
    (L : IsLawful c.unstructured.get_name c.unstructured.get_namespace c.inference_services
      c.is_not_found view) where
  open c.unstructured use {get_name, get_namespace}

  IsZeroed-before :
      (ns : String) (s s' : c.State) (out : Outcome c.Err c.State) (n : String)
      → view ns s' n ≡ view ns s n
      → IsZeroed c U N J view L ns s' out n
      → IsZeroed c U N J view L ns s out n
  IsZeroed-before ns s s' out n same z = record {
    before = z.before;
    after = z.after;
    newly = z.newly;
    found = sym same ∙ z.found;
    due = z.due;
    zeroed = z.zeroed;
    stored = z.stored;
    told = z.told;
  }

  abbrev IsSettled : String → c.State → Outcome c.Err c.State → String → Type 0
  IsSettled ns s out n = (view ns out.state n ≡ view ns s n) ⊎ IsZeroed c U N J view L ns s out n

  -- A service that was sent, and the rest of the loop.
  sent-IsSettled :
      (ns : String) (o o' : Fields) (newly : Bool) (os : List Fields) (s s' : c.State) (x : Fields)
      (n : String)
      → IsListed c U N J view L ns s (o ∷ os)
      → unstructured_requests_gpu c o ≡ true
      → zero_service c o ≡ ok (some (o', newly))
      → c.inference_services.update o' s ≡ (ok x, s')
      → IsSettled ns s' (service_loop c ns os s') n
      → IsSettled ns s (reported c newly o s' (service_loop c ns os s')) n
  sent-IsSettled ns o o' newly os s s' x n listed due e q rest =
      let out = service_loop c ns os s' in
      let step = updated c U N J view L ns o o' newly s s' x n listed.0.0.0 e q in
      let same = ap (λ t. view ns t n) (reported_state c U N J view L newly o s' out) in
      elim (string_dec n (get_name o)) [
        | yes p ↦
            let apart =
              loop_apart c U N J view L ns os s' n (All-map _ _ (λ u h. h.0) os listed.0.1)
                (All-map _ (λ u. get_name u ≢ n) (λ u h r. h (r ∙ p)) os listed.1.0) in
            inr (record {
              before = o;
              after = o';
              newly = newly;
              found = ap (view ns s) p ∙ listed.0.0.1;
              due = due;
              zeroed = e;
              stored = same ∙ apart ∙ ground (arith, step, p);
              told = λ t. reported_here c U N J view L newly o s' n out (sym p) t;
            })
        | no p ↦
            let before : view ns s' n ≡ view ns s n = ground (arith, step, p) in
            elim rest [
              | inl still ↦ inl (same ∙ still ∙ before)
              | inr z ↦ inr (
                  IsZeroed-before ns s s' (reported c newly o s' out) n before (record {
                    before = z.before;
                    after = z.after;
                    newly = z.newly;
                    found = z.found;
                    due = z.due;
                    zeroed = z.zeroed;
                    stored = same ∙ z.stored;
                    told = λ t.
                        reported_rest c U N J view L (IsReport c U N J view L n) newly o s' out
                          (z.told t);
                  }))
            ]
      ]

  loop-IsSettled :
      (ns : String) (os : List Fields) (s : c.State) (n : String)
      → IsListed c U N J view L ns s os
      → IsSettled ns s (service_loop c ns os s) n
  unfolding service_loop
  loop-IsSettled ns [] s n listed = inl refl
  loop-IsSettled ns (o ∷ os) s n listed = elim (Bool-cases (unstructured_requests_gpu c o)) [
    | inr skipped ↦
        rw (loop_skipped c U N J ns o os s skipped)
          (loop-IsSettled ns os s n (listed.0.1, listed.1.1))
    | inl due ↦ elim (Result-cases (zero_service c o)) [
      | inr (e, p) ↦ inl (ap (λ t. view ns t n) (loop_failed c U N J ns o os s e due p))
      | inl (found, p) ↦ elim (Option-cases found) [
        | inl idle ↦
            rw (loop_idle c U N J ns o os s due (p ∙ ap ok idle))
              (loop-IsSettled ns os s n (listed.0.1, listed.1.1))
        | inr ((o', newly), f) ↦
            let zeroed = p ∙ ap ok f in
            elim (Call-cases (c.inference_services.update o' s)) [
              | inl (x, s', q) ↦ rw (loop_sent c U N J ns o o' newly os s s' x due zeroed q) (
                  sent-IsSettled ns o o' newly os s s' x n listed due zeroed q (
                    loop-IsSettled ns os s' n
                      (listed_after c U N J view L ns o o' newly os s s' x listed zeroed q)))
              | inr (x, s', q) ↦ inl (
                  ap (λ t. view ns t n) (loop_refused c U N J ns o o' newly os s s' x due zeroed q)
                  ∙ L.update_err ns o' s x s' q n)
            ]
      ]
    ]
  ]

  services_listed :
      (ns : String) (s s' : c.State) (os : List Fields)
      → c.inference_services.list ns s ≡ (ok os, s')
      → enforce_inference_services c ns s ≡ service_loop c ns os s'
  unfolding enforce_inference_services
  services_listed ns s s' os e = ground (arith, e)

  services_unlisted :
      (ns : String) (s s' : c.State) (e : c.Err)
      → c.inference_services.list ns s ≡ (err e, s')
      → (enforce_inference_services c ns s).state ≡ s'
  unfolding enforce_inference_services
  services_unlisted ns s s' e p = ground (arith, p)

  -- Whatever comes back, also an error: every stored service is as it was, or it requested GPUs, is
  -- stored as it was to be sent, and is among the resources if a component was captured.
  pub enforce_inference_services-IsZeroed :
      (ns : String) (s : c.State) (n : String)
      → (view ns (enforce_inference_services c ns s).state n ≡ view ns s n)
        ⊎ IsZeroed c U N J view L ns s (enforce_inference_services c ns s) n
  enforce_inference_services-IsZeroed ns s n = elim (Call-cases (c.inference_services.list ns s)) [
    | inr (e, s', p) ↦
        inl (ap (λ t. view ns t n) (services_unlisted ns s s' e p) ∙ L.list_err ns s e s' p n)
    | inl (os, s', e) ↦
        let (same, each, all, distinct) = L.list_ok ns s os s' e in
        let listed : IsListed c U N J view L ns s' os = (
          All-map (λ o. (get_namespace o ≡ ns) × (view ns s (get_name o) ≡ some o))
              (λ o. (get_namespace o ≡ ns) × (view ns s' (get_name o) ≡ some o))
              (λ o h. (h.0, same (get_name o) ∙ h.1)) os each,
          distinct,
        ) in
        rw (services_listed ns s s' os e) (elim (loop-IsSettled ns os s' n listed) [
          | inl still ↦ inl (still ∙ same n)
          | inr z ↦ inr (IsZeroed-before ns s s' (service_loop c ns os s') n (same n) z)
        ])
  ]

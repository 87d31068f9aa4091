-- ===== src/Enforce/InferenceServices/Recovered.antt =====
-- What a restore of an InferenceService recovers from its annotation, in the object and in the store.
use gpu_budget_operator.Base.{
  String, Option, none, some, [], ◌∷◌, Result, ok, ◌≡◌, ◌≢◌, sym, ap, ◌∙◌, subst, inl, inr, arith,
  ==_refl, Option-cases, Result-cases,
}
use gpu_budget_operator.Base.Dict.{Dict, erase, make, read, lookup-erase}
use gpu_budget_operator.Base.Dict.Keys.{DistinctKeys}
use gpu_budget_operator.Objects.Value.{Fields}
use gpu_budget_operator.Cluster.{Cluster, ComponentReplicaSpec}
use gpu_budget_operator.Cluster.Helpers.{IsUnstructured, IsNested}
use gpu_budget_operator.Cluster.Lawful.{IsLawful}
use gpu_budget_operator.Enforce.Report.{Error}
use gpu_budget_operator.Enforce.Restore.Whole.{InPlace, restore_done, restore_refused}
use gpu_budget_operator.Enforce.InferenceServices.{
  restore_components, recover_service, service_restorer, restore_inference_service,
  annotation_original_replica_spec,
}
use gpu_budget_operator.Enforce.InferenceServices.Restored.{
  IsRestored, restore_components-IsRestored,
}

module _ (c : Cluster) (U : IsUnstructured c.unstructured) (N : IsNested c.unstructured) where
  recover_lem :
      (o o' : Fields) (raw : String) (m : Dict ComponentReplicaSpec)
      → read annotation_original_replica_spec (c.unstructured.get_annotations o) ≡ some raw
      → c.unmarshal raw ≡ some m
      → recover_service c o ≡ some (ok o')
      → (y : Fields) × (restore_components c m o ≡ ok y)
        × (o'
            ≡ c.unstructured.set_annotations y
                (erase annotation_original_replica_spec (make (c.unstructured.get_annotations o))))
  unfolding recover_service
  recover_lem o o' raw m e f h = elim (Result-cases (restore_components c m o)) [
    | inl (y, q) ↦ (y, q, ground (arith, e, f, h, q))
    | inr (x, q) ↦ absurd (ground (arith, e, f, h, q))
  ]

  -- The service as it was recorded, with the annotation gone.
  pub record IsRecovered (m : Dict ComponentReplicaSpec) (o o' : Fields) : Type 0 where
    pub bounds : IsRestored c U N m o o'
    pub cleared : read annotation_original_replica_spec (c.unstructured.get_annotations o') ≡ none

  annotated-IsRestored :
      (m : Dict ComponentReplicaSpec) (o y : Fields) (a : Dict String)
      → IsRestored c U N m o y
      → IsRestored c U N m o (c.unstructured.set_annotations y a)
  annotated-IsRestored m o y a h = record {
    listed = λ k spec e.
        let (low, high) = h.listed k spec e in
        (
          N.nested_int64-set_annotations a y (k ∷ "minReplicas" ∷ []) ∙ low,
          N.nested_int64-set_annotations a y (k ∷ "maxReplicas" ∷ []) ∙ high,
        );
    others = λ k f e. N.nested_int64-set_annotations a y (k ∷ f ∷ []) ∙ h.others k f e;
    name = (U.get_name-set_annotations a y).0 ∙ h.name;
    namespace = (U.get_name-set_annotations a y).1 ∙ h.namespace;
  }

  pub recover_service-IsRecovered :
      (o o' : Fields) (raw : String) (m : Dict ComponentReplicaSpec)
      → read annotation_original_replica_spec (c.unstructured.get_annotations o) ≡ some raw
      → c.unmarshal raw ≡ some m
      → DistinctKeys m
      → recover_service c o ≡ some (ok o')
      → IsRecovered m o o'
  unfolding read
  recover_service-IsRecovered o o' raw m e f distinct h =
      let (y, q, is) = recover_lem o o' raw m e f h in
      let a = make (c.unstructured.get_annotations o) in
      let rest = erase annotation_original_replica_spec a in
      subst (IsRecovered m o) (sym is) (record {
        bounds =
            annotated-IsRestored m o y rest (restore_components-IsRestored c U N m o y distinct q);
        cleared =
            ap (read annotation_original_replica_spec) (U.get_annotations-set_annotations rest y)
            ∙ ground (
              arith,
              lookup-erase annotation_original_replica_spec annotation_original_replica_spec a,
              ==_refl annotation_original_replica_spec,
            );
      })

  pub found_raw :
      (o : Fields) (raw : String)
      → read annotation_original_replica_spec (c.unstructured.get_annotations o) ≡ some raw
      → (q : Result (Error c.Err) Fields) × (recover_service c o ≡ some q)
  unfolding recover_service
  found_raw o raw e = elim (Option-cases (recover_service c o)) [
    | inr (q, p) ↦ (q, p)
    | inl p ↦ absurd (ground (arith, e, p))
  ]

  module _ (view : String → c.State → String → Option Fields)
      (L : IsLawful c.unstructured.get_name c.unstructured.get_namespace c.inference_services
        c.is_not_found view) where
    -- A restore without an error of a service whose annotation parses to a map of components puts the
    -- recorded bounds of each component back, removing those that were not set, leaves the bounds of
    -- every other component alone, takes the annotation away, and touches no other service.
    pub restore_inference_service-IsRecovered :
        (ns n : String) (s : c.State) (o : Fields) (raw : String) (m : Dict ComponentReplicaSpec)
        → view ns s n ≡ some o
        → read annotation_original_replica_spec (c.unstructured.get_annotations o) ≡ some raw
        → c.unmarshal raw ≡ some m
        → DistinctKeys m
        → (restore_inference_service c ns n s).0 ≡ none
        → (o' : Fields) × (view ns (restore_inference_service c ns n s).1 n ≡ some o')
          × IsRecovered m o o'
          × ((k : String) → k ≢ n → view ns (restore_inference_service c ns n s).1 k ≡ view ns s k)
    unfolding restore_inference_service
    restore_inference_service-IsRecovered ns n s o raw m here e f distinct fine =
        let (q, found) = found_raw o raw e in
        elim (Result-cases q) [
          | inr (x, p) ↦ absurd (
              restore_refused (service_restorer c) _ _ view L ns n s o x here (found ∙ ap some p)
                fine)
          | inl (o', p) ↦
              let known = found ∙ ap some p in
              let is = recover_service-IsRecovered o o' raw m e f distinct known in
              let stays : InPlace (service_restorer c) _ _ view L ns o = λ y r.
                let again = recover_service-IsRecovered o y raw m e f distinct r in
                (again.bounds.namespace, again.bounds.name) in
              let after =
                restore_done (service_restorer c) _ _ view L ns n s o o' here known stays fine in
              (o', ground (arith, after n, ==_refl n), is, λ k h. ground (arith, after k, h))
        ]

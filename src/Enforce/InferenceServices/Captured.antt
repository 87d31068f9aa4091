-- ===== src/Enforce/InferenceServices/Captured.antt =====
-- What the annotation of an InferenceService keeps across passes.
use gpu_budget_operator.Base.{
  String, Bool, true, false, some, ok, ◌≡◌, sym, ap, ◌∙◌, ◌⊎◌, ◌↔◌, inl, inr, arith, Bool-cases,
  Result-cases,
}
use gpu_budget_operator.Base.Dict.{Dict, lookup, insert, make, read, read-insert_self}
use gpu_budget_operator.Objects.Value.{Fields}
use gpu_budget_operator.Cluster.{Cluster, ComponentReplicaSpec}
use gpu_budget_operator.Cluster.Helpers.{IsUnstructured, IsJson}
use gpu_budget_operator.Enforce.InferenceServices.{
  Zeroing, components, zero_components, start, finished, recorded, zero_service,
  annotation_original_replica_spec,
}
use gpu_budget_operator.Enforce.InferenceServices.Progress.{
  Extends, HasNew, IsProgress, zero_components-IsProgress,
}

module _ (c : Cluster) (U : IsUnstructured c.unstructured) (J : IsJson c) where
  recorded-read :
      (o : Fields) (raw : String) (m : Dict ComponentReplicaSpec)
      → read annotation_original_replica_spec (c.unstructured.get_annotations o) ≡ some raw
      → c.unmarshal raw ≡ some m
      → recorded c o ≡ ok m
  unfolding recorded
  recorded-read o raw m e p = rw (e, p, recorded)

  -- What `recorded` reads of a finished object.
  pub recorded-finished :
      (o : Fields) (z : Zeroing)
      → (m' : Dict ComponentReplicaSpec) × (recorded c (finished c o z) ≡ ok m')
        × ((k : String) → lookup k m' ≡ lookup k z.original)
  recorded-finished o z =
      let (m', e, same) = J z.original in
      let kept =
        U.get_annotations-set_annotations
          (insert annotation_original_replica_spec (c.marshal z.original)
            (make (c.unstructured.get_annotations o)))
          z.obj in
      (
        m',
        recorded-read (finished c o z) (c.marshal z.original) m'
            (ap (read annotation_original_replica_spec) kept ∙ read-insert_self _ _ _) e,
        same,
      )

  fresh :
      (o : Fields) (m m' : Dict ComponentReplicaSpec) (z : Zeroing)
      → ((k : String) → lookup k m' ≡ lookup k z.original)
      → (false ≡ true) ⊎ HasNew m z.original
      → HasNew m m'
  fresh o m m' z same (inl e) = absurd (cc)
  fresh o m m' z same (inr (k, spec, a, b)) = (k, spec, a, same k ∙ b)

  -- With nothing newly captured there is no new record.
  stale :
      (o : Fields) (m m' : Dict ComponentReplicaSpec) (z : Zeroing)
      → ((k : String) → lookup k m' ≡ lookup k z.original)
      → IsProgress (start c o m) z
      → HasNew m m'
      → z.newly_captured ≡ true
  stale o m m' z same progress (k, spec, a, b) = elim (Bool-cases z.newly_captured) [
    | inl t ↦ t
    | inr f ↦ absurd (ground (arith, a, b, same k, ap (lookup k) (progress.quiet f).0))
  ]

  pub service_steps :
      (o o' : Fields) (newly : Bool) (m : Dict ComponentReplicaSpec)
      → recorded c o ≡ ok m
      → zero_service c o ≡ ok (some (o', newly))
      → (z : Zeroing) × (zero_components c components (start c o m) ≡ ok z)
        × (o' ≡ finished c o z)
        × (newly ≡ z.newly_captured)
  unfolding zero_service
  service_steps o o' newly m known e =
      elim (Result-cases (zero_components c components (start c o m))) [
        | inr (f, p) ↦ absurd (ground (arith, e, known, p))
        | inl (z, p) ↦ elim (Bool-cases z.needs_update) [
          | inl needs ↦
              (z, p, ground (arith, e, known, p, needs), ground (arith, e, known, p, needs))
          | inr idle ↦ absurd (ground (arith, e, known, p, idle))
        ]
      ]

  -- Whatever a pass sends for a service, the annotation it sends can be read, and each component
  -- that was recorded before keeps its record. The service is reported exactly when some component
  -- has a record that it did not have before.
  pub zero_service_captures :
      (o o' : Fields) (newly : Bool) (m : Dict ComponentReplicaSpec)
      → recorded c o ≡ ok m
      → zero_service c o ≡ ok (some (o', newly))
      → (m' : Dict ComponentReplicaSpec) × (recorded c o' ≡ ok m')
        × Extends m m'
        × ((newly ≡ true) ↔ HasNew m m')
  zero_service_captures o o' newly m known e =
      let (z, steps, is, flag) = service_steps o o' newly m known e in
      let (m', read_back, same) = recorded-finished o z in
      let progress = zero_components-IsProgress c components (start c o m) z steps in
      (
        m',
        ap (recorded c) is ∙ read_back,
        λ k spec h. same k ∙ progress.extends k spec h,
        (
          λ t. fresh o m m' z same (progress.loud (sym flag ∙ t)),
          λ new. flag ∙ stale o m m' z same progress new,
        ),
      )

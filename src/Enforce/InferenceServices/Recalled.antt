-- ===== src/Enforce/InferenceServices/Recalled.antt =====
-- A first enforcement of an InferenceService and the restore of what it stores, for one object.
use gpu_budget_operator.Base.{
  String, Bool, true, false, none, some, [], ◌∷◌, Result, ok, ◌≡◌, refl, sym, ap, subst, ◌∙◌, inl,
  inr, arith, Bool-cases, Option-cases,
}
use gpu_budget_operator.Base.Dict.{Dict, lookup, read, make, insert, read-insert_self}
use gpu_budget_operator.Base.Dict.Keys.{DistinctKeys}
use gpu_budget_operator.Objects.Value.{Fields}
use gpu_budget_operator.Cluster.{Cluster, ComponentReplicaSpec}
use gpu_budget_operator.Cluster.Helpers.{IsUnstructured, IsNested, IsJson}
use gpu_budget_operator.Enforce.Report.{Error}
use gpu_budget_operator.Enforce.InferenceServices.{
  Zeroing, components, zero_components, start, finished, recorded, zero_service, recover_service,
  annotation_original_replica_spec,
}
use gpu_budget_operator.Enforce.InferenceServices.First.{IsFirst, zero_components-IsFirst}
use gpu_budget_operator.Enforce.InferenceServices.Captured.{service_steps}
use gpu_budget_operator.Enforce.InferenceServices.Restored.{bound}
use gpu_budget_operator.Enforce.InferenceServices.Recovered.{
  IsRecovered, recover_service-IsRecovered, found_raw,
}

-- `json.Unmarshal` into a map gives each key once.
abbrev pub IsDistinct : Cluster → Type 0
IsDistinct c =
    (raw : String) (m : Dict ComponentReplicaSpec) → c.unmarshal raw ≡ some m → DistinctKeys m

module _ (c : Cluster) (U : IsUnstructured c.unstructured) (N : IsNested c.unstructured)
    (J : IsJson c) (D : IsDistinct c) where
  open c.unstructured use {get_annotations, set_annotations, get_name, get_namespace}

  -- The object has no record of an earlier enforcement.
  abbrev pub IsFresh : Fields → Type 0
  IsFresh o = read annotation_original_replica_spec (get_annotations o) ≡ none

  -- The bounds of every component read as before, and there is no record.
  pub record IsRecalled (o v : Fields) : Type 0 where
    pub lower : (k : String) → bound c U N v k "minReplicas" ≡ bound c U N o k "minReplicas"
    pub upper : (k : String) → bound c U N v k "maxReplicas" ≡ bound c U N o k "maxReplicas"
    pub cleared : IsFresh v

  recorded_fresh : (o : Fields) → IsFresh o → recorded c o ≡ ok []
  unfolding recorded
  recorded_fresh o e = rw (e, recorded) refl

  idle_service :
      (o : Fields) (z : Zeroing)
      → recorded c o ≡ ok []
      → zero_components c components (start c o []) ≡ ok z
      → z.needs_update ≡ false
      → zero_service c o ≡ ok none
  unfolding zero_service
  idle_service o z e p q = ground (arith, e, p, q)

  -- What is sent for a fresh service is reported, and a restore of it puts its bounds back.
  pub record IsKept (o o' : Fields) (newly : Bool) : Type 0 where
    pub newly_captured : newly ≡ true
    pub answer : Result (Error c.Err) Fields
    pub recovered : recover_service c o' ≡ some answer
    pub recalled : (v : Fields) → answer ≡ ok v → IsRecalled o v

  finished_bounds :
      (o v : Fields) (z : Zeroing) (m : Dict ComponentReplicaSpec)
      → IsFirst c U N o z
      → ((k : String) → lookup k m ≡ lookup k z.original)
      → IsRecovered c U N m (finished c o z) v
      → IsRecalled o v
  finished_bounds o v z m first same is = record {
    lower = λ k. elim (Option-cases (lookup k m)) [
      | inl e ↦
          is.bounds.others k "minReplicas" e
          ∙ N.nested_int64-set_annotations _ z.obj (k ∷ "minReplicas" ∷ [])
          ∙ first.untouched k "minReplicas" (sym (same k) ∙ e)
      | inr (spec, e) ↦ (is.bounds.listed k spec e).0 ∙ (first.captured k spec (sym (same k) ∙ e)).0
    ];
    upper = λ k. elim (Option-cases (lookup k m)) [
      | inl e ↦
          is.bounds.others k "maxReplicas" e
          ∙ N.nested_int64-set_annotations _ z.obj (k ∷ "maxReplicas" ∷ [])
          ∙ first.untouched k "maxReplicas" (sym (same k) ∙ e)
      | inr (spec, e) ↦ (is.bounds.listed k spec e).1 ∙ (first.captured k spec (sym (same k) ∙ e)).1
    ];
    cleared = is.cleared;
  }

  finished-IsKept :
      (o : Fields) (z : Zeroing) (newly : Bool)
      → IsFirst c U N o z
      → newly ≡ true
      → IsKept o (finished c o z) newly
  finished-IsKept o z newly first told =
      let (m, parsed, same) = J z.original in
      let raw = c.marshal z.original in
      let kept : read annotation_original_replica_spec (get_annotations (finished c o z))
          ≡ some raw =
        ap (read annotation_original_replica_spec) (
          U.get_annotations-set_annotations
            (insert annotation_original_replica_spec raw (make (get_annotations o))) z.obj)
        ∙ read-insert_self _ _ _ in
      let (answer, found) = found_raw c U N (finished c o z) raw kept in
      record {
        newly_captured = told;
        answer = answer;
        recovered = found;
        recalled = λ v e. finished_bounds o v z m first same (
            recover_service-IsRecovered c U N (finished c o z) v raw m kept parsed (D raw m parsed)
              (found ∙ ap some e));
      }

  pub zero_service-IsKept :
      (o o' : Fields) (newly : Bool)
      → IsFresh o
      → zero_service c o ≡ ok (some (o', newly))
      → IsKept o o' newly
  zero_service-IsKept o o' newly fresh e =
      let known = recorded_fresh o fresh in
      let (z, steps, is, flag) = service_steps c U J o o' newly [] known e in
      let first = zero_components-IsFirst c U N o components z steps in
      elim (Bool-cases z.newly_captured) [
        | inl t ↦
            subst (λ x. IsKept o x newly) (sym is) (finished-IsKept o z newly first (flag ∙ t))
        | inr f ↦ absurd (ground (arith, e, idle_service o z known steps (first.quiet f).1))
      ]

  -- A restore keeps the object's place.
  pub recover_service_place :
      (o o' : Fields)
      → recover_service c o ≡ some (ok o')
      → (get_namespace o' ≡ get_namespace o) × (get_name o' ≡ get_name o)
  unfolding recover_service
  recover_service_place o o' h =
      elim (Option-cases (read annotation_original_replica_spec (get_annotations o))) [
        | inl e ↦ absurd (ground (arith, h, e))
        | inr (raw, e) ↦ elim (Option-cases (c.unmarshal raw)) [
          | inl f ↦ absurd (ground (arith, h, e, f))
          | inr (m, f) ↦
              let is = recover_service-IsRecovered c U N o o' raw m e f (D raw m f) h in
              (is.bounds.namespace, is.bounds.name)
        ]
      ]

  pub recover_service_idle : (v : Fields) → IsFresh v → recover_service c v ≡ none
  unfolding recover_service
  recover_service_idle v e = rw (e, recover_service) refl

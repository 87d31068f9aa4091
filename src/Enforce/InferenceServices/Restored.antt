-- ===== src/Enforce/InferenceServices/Restored.antt =====
-- What a restore of an InferenceService puts back.
use gpu_budget_operator.Base.{
  String, Option, none, some, [], ◌∷◌, ok, ◌≡◌, ◌≢◌, refl, ◌∙◌, subst, ◌⊎◌, inl, inr, arith, ◌==◌,
  ==_refl, ==_sound, ==_apart, string_dec, Bool-cases, Result-cases,
}
use gpu_budget_operator.Base.Int.{ℤ}
use gpu_budget_operator.Base.Dict.{Dict, lookup}
use gpu_budget_operator.Base.Dict.Keys.{DistinctKeys, IsFresh, lookup_fresh}
use gpu_budget_operator.Objects.Value.{Fields, int}
use gpu_budget_operator.Cluster.{Cluster, ComponentReplicaSpec}
use gpu_budget_operator.Cluster.Helpers.{IsUnstructured, IsNested}
use gpu_budget_operator.Enforce.InferenceServices.{restore_bound, restore_components}

min_max : ◌≢◌ {A = String} "minReplicas" "maxReplicas"
unfolding string_dec
min_max = ==_apart "minReplicas" "maxReplicas" refl

module _ (c : Cluster) (U : IsUnstructured c.unstructured) (N : IsNested c.unstructured) where
  -- An integer below a component.
  abbrev pub bound : Fields → String → String → Option ℤ
  bound o k f = c.unstructured.nested_int64 o ("spec" ∷ k ∷ f ∷ [])

  -- The second object is the first one with another bound.
  record IsBound (n : Option ℤ) (k f : String) (o o' : Fields) : Type 0 where
    here : bound o' k f ≡ n
    others : (j g : String) → (j ≢ k) ⊎ (g ≢ f) → bound o' j g ≡ bound o j g
    name : c.unstructured.get_name o' ≡ c.unstructured.get_name o
    namespace : c.unstructured.get_namespace o' ≡ c.unstructured.get_namespace o

  restore_bound-IsBound :
      (n : Option ℤ) (k f : String) (o o' : Fields)
      → restore_bound c n ("spec" ∷ k ∷ f ∷ []) o ≡ ok o'
      → IsBound n k f o o'
  unfolding restore_bound
  restore_bound-IsBound none k f o o' e =
      let same : c.unstructured.remove_nested_field o ("spec" ∷ k ∷ f ∷ []) ≡ o' =
        ground (arith, e) in
      subst (IsBound none k f o) same (record {
        here = N.nested_int64-remove_nested_field o k f;
        others = λ j g h. N.nested_int64-remove_other o k f j g h;
        name = (N.get_name-remove_nested_field o (k ∷ f ∷ [])).0;
        namespace = (N.get_name-remove_nested_field o (k ∷ f ∷ [])).1;
      })
  restore_bound-IsBound (some n) k f o o' e =
      elim (Result-cases (c.unstructured.set_nested_field o (int n) ("spec" ∷ k ∷ f ∷ []))) [
        | inr (x, q) ↦ absurd (ground (arith, e, q))
        | inl (y, q) ↦
            let same : y ≡ o' = ground (arith, e, q) in
            subst (IsBound (some n) k f o) same (record {
              here = N.nested_int64-set_nested_field o y n _ q;
              others = λ j g h. N.nested_int64-set_other o y n k f j g q h;
              name = (U.get_name-set_nested_field o y (int n) (k ∷ f ∷ []) q).0;
              namespace = (U.get_name-set_nested_field o y (int n) (k ∷ f ∷ []) q).1;
            })
      ]

  -- The bounds of the map are set, and those of the other components are as before.
  pub record IsRestored (m : Dict ComponentReplicaSpec) (o o' : Fields) : Type 0 where
    pub listed :
        (k : String) (spec : ComponentReplicaSpec)
        → lookup k m ≡ some spec
        → (bound o' k "minReplicas" ≡ spec.min_replicas)
          × (bound o' k "maxReplicas" ≡ spec.max_replicas)
    pub others : (k f : String) → lookup k m ≡ none → bound o' k f ≡ bound o k f
    pub name : c.unstructured.get_name o' ≡ c.unstructured.get_name o
    pub namespace : c.unstructured.get_namespace o' ≡ c.unstructured.get_namespace o

  -- One component and then the rest.
  both_bounds :
      (k : String) (spec : ComponentReplicaSpec) (m : Dict ComponentReplicaSpec)
      (o o1 o2 o' : Fields)
      → IsFresh k m
      → IsBound spec.min_replicas k "minReplicas" o o1
      → IsBound spec.max_replicas k "maxReplicas" o1 o2
      → IsRestored m o2 o'
      → IsRestored ((k, spec) ∷ m) o o'
  unfolding lookup
  both_bounds k spec m o o1 o2 o' fresh low high rest =
      let absent = lookup_fresh k m fresh in
      record {
        listed = λ j old found. elim (Bool-cases (j == k)) [
          | inr other ↦ rest.listed j old (ground (arith, found, other))
          | inl same ↦
              let is : spec ≡ old = ground (arith, found, same) in
              rw (==_sound j k same, ← is)
                (
                  rest.others k "minReplicas" absent
                      ∙ high.others k "minReplicas" (inr min_max)
                      ∙ low.here,
                  rest.others k "maxReplicas" absent ∙ high.here,
                )
        ];
        others = λ j f missing.
            let apart : j ≢ k = λ p. ground (arith, missing, p, ==_refl k) in
            let later : lookup j m ≡ none = ground (arith, missing, apart) in
            rest.others j f later ∙ high.others j f (inl apart) ∙ low.others j f (inl apart);
        name = rest.name ∙ high.name ∙ low.name;
        namespace = rest.namespace ∙ high.namespace ∙ low.namespace;
      }

  components_step :
      (k : String) (spec : ComponentReplicaSpec) (m : Dict ComponentReplicaSpec) (o o' : Fields)
      → restore_components c ((k, spec) ∷ m) o ≡ ok o'
      → (o1 o2 : Fields) × (restore_bound c spec.min_replicas ("spec" ∷ k ∷ "minReplicas" ∷ []) o
          ≡ ok o1)
        × (restore_bound c spec.max_replicas ("spec" ∷ k ∷ "maxReplicas" ∷ []) o1 ≡ ok o2)
        × (restore_components c m o2 ≡ ok o')
  unfolding restore_components
  components_step k spec m o o' e =
      elim (Result-cases (restore_bound c spec.min_replicas ("spec" ∷ k ∷ "minReplicas" ∷ []) o)) [
        | inr (x, p) ↦ absurd (ground (arith, e, p))
        | inl (o1, p) ↦
            elim (Result-cases
              (restore_bound c spec.max_replicas ("spec" ∷ k ∷ "maxReplicas" ∷ []) o1)) [
                | inr (x, q) ↦ absurd (ground (arith, e, p, q))
                | inl (o2, q) ↦ (o1, o2, p, q, ground (arith, e, p, q))
              ]
      ]

  pub restore_components-IsRestored :
      (m : Dict ComponentReplicaSpec) (o o' : Fields)
      → DistinctKeys m
      → restore_components c m o ≡ ok o'
      → IsRestored m o o'
  unfolding restore_components lookup
  restore_components-IsRestored [] o o' distinct e =
      let same : o ≡ o' = ground (arith, e) in
      subst (IsRestored [] o) same (record {
        listed = λ k spec h. absurd (cc);
        others = λ k f h. refl;
        name = refl;
        namespace = refl;
      })
  restore_components-IsRestored ((k, spec) ∷ m) o o' distinct e =
      let (o1, o2, p, q, rest) = components_step k spec m o o' e in
      both_bounds k spec m o o1 o2 o' distinct.0
        (restore_bound-IsBound spec.min_replicas k "minReplicas" o o1 p)
        (restore_bound-IsBound spec.max_replicas k "maxReplicas" o1 o2 q)
        (restore_components-IsRestored m o2 o' distinct.1 rest)

-- ===== src/Enforce/InferenceServices/Bounds.antt =====
-- What zeroing the bounds of a component leaves alone.
use gpu_budget_operator.Base.{String, ok, ◌≡◌, ◌≢◌, subst, ◌∙◌, inl, inr, arith, Result-cases}
use gpu_budget_operator.Objects.Value.{Fields, int}
use gpu_budget_operator.Base.Int.{pos}
use gpu_budget_operator.Cluster.{Cluster}
use gpu_budget_operator.Cluster.Helpers.{IsUnstructured, IsNested}
use gpu_budget_operator.Enforce.InferenceServices.{bound_path, zero_bounds}
use gpu_budget_operator.Enforce.InferenceServices.Restored.{bound}

module _ (c : Cluster) (U : IsUnstructured c.unstructured) (N : IsNested c.unstructured) where
  -- The same object, but for the bounds of one component.
  pub record IsBut (k : String) (o o' : Fields) : Type 0 where
    pub others : (j f : String) → j ≢ k → bound c U N o' j f ≡ bound c U N o j f
    pub name : c.unstructured.get_name o' ≡ c.unstructured.get_name o
    pub namespace : c.unstructured.get_namespace o' ≡ c.unstructured.get_namespace o

  set-IsBut :
      (k f : String) (o o' : Fields)
      → c.unstructured.set_nested_field o (int (pos 0)) (bound_path k f) ≡ ok o'
      → IsBut k o o'
  set-IsBut k f o o' e = record {
    others = λ j g apart. N.nested_int64-set_other o o' _ k f j g e (inl apart);
    name = (U.get_name-set_nested_field o o' _ _ e).0;
    namespace = (U.get_name-set_nested_field o o' _ _ e).1;
  }

  pub zero_bounds-IsBut : (o o' : Fields) (k : String) → zero_bounds c o k ≡ ok o' → IsBut k o o'
  unfolding zero_bounds
  zero_bounds-IsBut o o' k e =
      elim (Result-cases
        (c.unstructured.set_nested_field o (int (pos 0)) (bound_path k "minReplicas"))) [
          | inr (x, p) ↦ absurd (ground (arith, e, p))
          | inl (o1, p) ↦
              elim (Result-cases
                (c.unstructured.set_nested_field o1 (int (pos 0)) (bound_path k "maxReplicas"))) [
                  | inr (x, q) ↦ absurd (ground (arith, e, p, q))
                  | inl (o2, q) ↦
                      let same : o2 ≡ o' = ground (arith, e, p, q) in
                      let low = set-IsBut k "minReplicas" o o1 p in
                      let high = set-IsBut k "maxReplicas" o1 o2 q in
                      subst (IsBut k o) same (record {
                        others = λ j f apart. high.others j f apart ∙ low.others j f apart;
                        name = high.name ∙ low.name;
                        namespace = high.namespace ∙ low.namespace;
                      })
                ]
        ]

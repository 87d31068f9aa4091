-- ===== src/Cluster/Helpers.antt =====
-- What the theorems assume of apimachinery's helpers for unstructured objects: a field that was set
-- is read back, setting a field below `spec` and setting the annotations do not meet, and neither
-- touches the object's name and namespace.
use gpu_budget_operator.Base.{String, Bool, none, some, List, [], ◌∷◌, ok, ◌≡◌, ◌≢◌, ◌⊎◌}
use gpu_budget_operator.Base.Int.{ℤ}
use gpu_budget_operator.Base.Dict.{Dict, lookup}
use gpu_budget_operator.Objects.Value.{Value, bool, int, Fields}
use gpu_budget_operator.Cluster.{Unstructured, Cluster, ComponentReplicaSpec}

pub record IsUnstructured (u : Unstructured) : Type 0 where
  pub nested_bool-set_nested_field :
      (o o' : Fields) (b : Bool) (path : List String)
      → u.set_nested_field o (bool b) path ≡ ok o'
      → u.nested_bool o' path ≡ some b
  pub get_annotations-set_nested_field :
      (o o' : Fields) (v : Value) (path : List String)
      → u.set_nested_field o v ("spec" ∷ path) ≡ ok o'
      → u.get_annotations o' ≡ u.get_annotations o
  pub get_name-set_nested_field :
      (o o' : Fields) (v : Value) (path : List String)
      → u.set_nested_field o v ("spec" ∷ path) ≡ ok o'
      → (u.get_name o' ≡ u.get_name o) × (u.get_namespace o' ≡ u.get_namespace o)
  pub get_annotations-set_annotations :
      (a : Dict String) (o : Fields) → u.get_annotations (u.set_annotations o a) ≡ some a
  pub nested_bool-set_annotations :
      (a : Dict String) (o : Fields) (path : List String)
      → u.nested_bool (u.set_annotations o a) ("spec" ∷ path) ≡ u.nested_bool o ("spec" ∷ path)
  pub get_name-set_annotations :
      (a : Dict String) (o : Fields)
      → (u.get_name (u.set_annotations o a) ≡ u.get_name o)
        × (u.get_namespace (u.set_annotations o a) ≡ u.get_namespace o)

-- What is read back from a marshalled map is that map, whatever the order of its keys.
abbrev pub IsJson : Cluster → Type 0
IsJson c =
    (m : Dict ComponentReplicaSpec)
    → (m' : Dict ComponentReplicaSpec) × (c.unmarshal (c.marshal m) ≡ some m')
      × ((k : String) → lookup k m' ≡ lookup k m)

-- What the theorems on restored replica bounds assume of the integers below `spec`: they are those
-- of the map that a component is read as; one that was set is read back, one that was removed is gone, and neither touches another one, the annotations or
-- the object's name and namespace; nor does setting the annotations touch them.
pub record IsNested (u : Unstructured) : Type 0 where
  pub nested_int64-set_nested_field :
      (o o' : Fields) (n : ℤ) (path : List String)
      → u.set_nested_field o (int n) path ≡ ok o'
      → u.nested_int64 o' path ≡ some n
  pub nested_int64-set_other :
      (o o' : Fields) (n : ℤ) (k f j g : String)
      → u.set_nested_field o (int n) ("spec" ∷ k ∷ f ∷ []) ≡ ok o'
      → (j ≢ k) ⊎ (g ≢ f)
      → u.nested_int64 o' ("spec" ∷ j ∷ g ∷ []) ≡ u.nested_int64 o ("spec" ∷ j ∷ g ∷ [])
  pub nested_int64-nested_map :
      (o m : Fields) (k f : String)
      → u.nested_map o ("spec" ∷ k ∷ []) ≡ some m
      → u.nested_int64 m (f ∷ []) ≡ u.nested_int64 o ("spec" ∷ k ∷ f ∷ [])
  pub nested_int64-remove_nested_field :
      (o : Fields) (k f : String)
      → u.nested_int64 (u.remove_nested_field o ("spec" ∷ k ∷ f ∷ [])) ("spec" ∷ k ∷ f ∷ []) ≡ none
  pub nested_int64-remove_other :
      (o : Fields) (k f j g : String)
      → (j ≢ k) ⊎ (g ≢ f)
      → u.nested_int64 (u.remove_nested_field o ("spec" ∷ k ∷ f ∷ [])) ("spec" ∷ j ∷ g ∷ [])
        ≡ u.nested_int64 o ("spec" ∷ j ∷ g ∷ [])
  pub get_name-remove_nested_field :
      (o : Fields) (path : List String)
      → (u.get_name (u.remove_nested_field o ("spec" ∷ path)) ≡ u.get_name o)
        × (u.get_namespace (u.remove_nested_field o ("spec" ∷ path)) ≡ u.get_namespace o)
  pub nested_int64-set_annotations :
      (a : Dict String) (o : Fields) (path : List String)
      → u.nested_int64 (u.set_annotations o a) ("spec" ∷ path) ≡ u.nested_int64 o ("spec" ∷ path)

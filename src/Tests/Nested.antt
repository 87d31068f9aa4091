-- ===== src/Tests/Nested.antt =====
-- The integers below `spec` of unstructured objects in memory, and the restore of a service.
use gpu_budget_operator.Base.{
  String, Option, none, some, List, [], ◌∷◌, ok, ◌≡◌, ◌≢◌, sym, ap, ◌∙◌, ◌⊎◌, inl, inr, arith, ◌==◌,
  ==_refl, ==_sound, if◌then◌else◌, Bool-cases, string_dec,
}
use mathlib.Core.Option.{some-injective}
use gpu_budget_operator.Objects.Value.{
  Value, null, bool, int, number, text, array, object, Fields, end, field,
}
use gpu_budget_operator.Cluster.Helpers.{IsNested}
use gpu_budget_operator.Tests.Objects.{
  get_key, set_key, drop_key, below, get_path, set_path, remove_path, as_int, as_text, as_map,
  helpers, metadata, get_key-set_key, set_path_deep, get_path-set_path, get_path-with_annotations,
}

get_key-drop_key :
    (j k : String) (fs : Fields)
    → get_key j (drop_key k fs) ≡ (if j == k then none else get_key j fs)
unfolding get_key drop_key
get_key-drop_key j k end = ground arith
get_key-drop_key j k (field _ _ fs) = ground (arith, get_key-drop_key j k fs)

-- A map two levels down that agrees with another one at `g`, written at `k`.
deep_other :
    (k f j g : String) (inner base : Fields)
    → ((g ≢ f) → get_key g inner ≡ get_key g (below (get_key k base)))
    → (j ≢ k) ⊎ (g ≢ f)
    → get_key g (below (get_key j (set_key k (object inner) base)))
      ≡ get_key g (below (get_key j base))
deep_other k f j g inner base agree h =
    let step = get_key-set_key j k (object inner) base in
    elim (Bool-cases (j == k)) [
      | inr e ↦
          let same : get_key j (set_key k (object inner) base) ≡ get_key j base =
            ground (arith, step, e) in
          ap (λ x. get_key g (below x)) same
      | inl e ↦
          let found : get_key j (set_key k (object inner) base) ≡ some (object inner) =
            ground (arith, step, e) in
          elim h [
            | inl apart ↦ absurd (apart (==_sound j k e))
            | inr apart ↦
                ap (λ x. get_key g (below x)) found
                ∙ agree apart
                ∙ ap (λ x. get_key g (below (get_key x base))) (sym (==_sound j k e))
          ]
    ]

top : (w : Value) (fs : Fields) → get_key "spec" (set_key "spec" w fs) ≡ some w
unfolding string_dec
top w fs = get_key-set_key "spec" "spec" w fs

set_other :
    (fs fs' : Fields) (v : Value) (k f j g : String)
    → set_path fs v ("spec" ∷ k ∷ f ∷ []) ≡ ok fs'
    → (j ≢ k) ⊎ (g ≢ f)
    → get_path fs' ("spec" ∷ j ∷ g ∷ []) ≡ get_path fs ("spec" ∷ j ∷ g ∷ [])
unfolding get_path set_path
set_other fs fs' v k f j g e h =
    let (inner, q, r) = set_path_deep "spec" k (f ∷ []) fs fs' v e in
    let base = below (get_key "spec" fs) in
    let (last, q', r') = set_path_deep k f [] base inner v q in
    let is : last ≡ set_key f v (below (get_key k base)) = ground (arith, q') in
    ap (λ x. get_key g (below (get_key j (below (get_key "spec" x))))) r
    ∙ ap (λ x. get_key g (below (get_key j (below x)))) (top (object inner) fs)
    ∙ ap (λ x. get_key g (below (get_key j x))) r'
    ∙ deep_other k f j g last base
        (λ apart.
          ap (get_key g) is ∙ ground (arith, get_key-set_key g f v (below (get_key k base)), apart))
        h

remove_other :
    (fs : Fields) (k f j g : String)
    → (j ≢ k) ⊎ (g ≢ f)
    → get_path (remove_path fs ("spec" ∷ k ∷ f ∷ [])) ("spec" ∷ j ∷ g ∷ [])
      ≡ get_path fs ("spec" ∷ j ∷ g ∷ [])
unfolding get_path remove_path
remove_other fs k f j g h =
    let base = below (get_key "spec" fs) in
    ap (λ x. get_key g (below (get_key j (below x)))) (top _ fs)
    ∙ deep_other k f j g (drop_key f (below (get_key k base))) base
        (λ apart. ground (arith, get_key-drop_key g f (below (get_key k base)), apart)) h

remove_here :
    (fs : Fields) (k f : String)
    → get_path (remove_path fs ("spec" ∷ k ∷ f ∷ [])) ("spec" ∷ k ∷ f ∷ []) ≡ none
unfolding get_path remove_path
remove_here fs k f =
    let base = below (get_key "spec" fs) in
    let inner = drop_key f (below (get_key k base)) in
    let found : get_key k (set_key k (object inner) base) ≡ some (object inner) =
      ground (arith, get_key-set_key k k (object inner) base, ==_refl k) in
    ap (λ x. get_key f (below (get_key k (below x)))) (top _ fs)
    ∙ ap (λ x. get_key f (below x)) found
    ∙ ground (arith, get_key-drop_key f f (below (get_key k base)), ==_refl f)

map_is : (o : Option Value) (m : Fields) → as_map o ≡ some m → below o ≡ m
map_is (some (object fs)) m e = some-injective _ _ e
map_is none m e = absurd (cc)
map_is (some null) m e = absurd (cc)
map_is (some (bool b)) m e = absurd (cc)
map_is (some (int n)) m e = absurd (cc)
map_is (some (number s)) m e = absurd (cc)
map_is (some (text s)) m e = absurd (cc)
map_is (some (array xs)) m e = absurd (cc)

map_path :
    (fs m : Fields) (k f : String)
    → as_map (get_path fs ("spec" ∷ k ∷ [])) ≡ some m
    → get_path m (f ∷ []) ≡ get_path fs ("spec" ∷ k ∷ f ∷ [])
unfolding get_path
map_path fs m k f e = ap (get_key f) (sym (map_is (get_key k (below (get_key "spec" fs))) m e))

metadata-remove_path :
    (k : String) (fs : Fields) (path : List String)
    → metadata k (remove_path fs ("spec" ∷ path)) ≡ metadata k fs
unfolding metadata remove_path string_dec
metadata-remove_path k fs [] = ap (λ x. get_key k (below x)) (get_key-drop_key "metadata" "spec" fs)
metadata-remove_path k fs (j ∷ p) =
    ap (λ x. get_key k (below x)) (get_key-set_key "metadata" "spec" _ fs)

pub helpers-IsNested : IsNested helpers
helpers-IsNested = record {
  nested_int64-set_nested_field = λ o o' n path e. ap as_int (get_path-set_path path o o' _ e);
  nested_int64-set_other = λ o o' n k f j g e h. ap as_int (set_other o o' _ k f j g e h);
  nested_int64-nested_map = λ o m k f e. ap as_int (map_path o m k f e);
  nested_int64-remove_nested_field = λ o k f. ap as_int (remove_here o k f);
  nested_int64-remove_other = λ o k f j g h. ap as_int (remove_other o k f j g h);
  get_name-remove_nested_field = λ o path. (
    ap as_text (metadata-remove_path "name" o path),
    ap as_text (metadata-remove_path "namespace" o path),
  );
  nested_int64-set_annotations = λ a o path. ap as_int (get_path-with_annotations path o a);
}

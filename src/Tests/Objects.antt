-- ===== src/Tests/Objects.antt =====
-- Unstructured objects that behave as apimachinery's helpers are documented to, on nested maps.
use gpu_budget_operator.Base.{
  String, Bool, true, false, Option, none, some, List, [], ◌∷◌, Result, ok, err, ◌≡◌, refl, ap, ◌∙◌,
  arith, ◌==◌, if◌then◌else◌, Bool-cases, Result-cases, inl, inr, string_dec,
}
use gpu_budget_operator.Base.Int.{ℤ}
use gpu_budget_operator.Base.Dict.{Dict}
use gpu_budget_operator.Objects.Value.{Value, bool, int, text, object, Fields, end, field}
use gpu_budget_operator.Cluster.{Unstructured}
use gpu_budget_operator.Cluster.Helpers.{IsUnstructured}

unfoldable pub get_key : String → Fields → Option Value
get_key k end = none
get_key k (field j v fs) = if k == j then some v else get_key k fs

unfoldable pub set_key : String → Value → Fields → Fields
set_key k v end = field k v end
set_key k v (field j w fs) =
    let rest = set_key k v fs in if k == j then field k v fs else field j w rest

unfoldable pub drop_key : String → Fields → Fields
drop_key k end = end
drop_key k (field j w fs) = let rest = drop_key k fs in if k == j then rest else field j w rest

pub get_key-set_key :
    (j k : String) (v : Value) (fs : Fields)
    → get_key j (set_key k v fs) ≡ (if j == k then some v else get_key j fs)
unfolding get_key set_key
get_key-set_key j k v end = ground arith
get_key-set_key j k v (field _ _ fs) = ground (arith, get_key-set_key j k v fs)

-- The map below a key, an empty one where there is none.
abbrev pub below : Option Value → Fields
below (some (object fs)) = fs
below _ = end

unfoldable pub get_path : Fields → List String → Option Value
unfolding get_key
get_path fs [] = none
get_path fs (k ∷ []) = get_key k fs
get_path fs (k ∷ j ∷ p) = get_path (below (get_key k fs)) (j ∷ p)

abbrev pub is_map : Option Value → Bool
is_map none = true
is_map (some (object fs)) = true
is_map (some _) = false

abbrev pub under : String → Fields → Result String Fields → Result String Fields
under k fs (err e) = err e
under k fs (ok inner) = ok (set_key k (object inner) fs)

unfoldable pub set_path : Fields → Value → List String → Result String Fields
unfolding set_key get_key
set_path fs v [] = err "no path"
set_path fs v (k ∷ []) = ok (set_key k v fs)
set_path fs v (k ∷ j ∷ p) =
    let inner = set_path (below (get_key k fs)) v (j ∷ p) in
    if is_map (get_key k fs) then under k fs inner else err "not a map"

unfoldable pub remove_path : Fields → List String → Fields
unfolding drop_key set_key get_key
remove_path fs [] = fs
remove_path fs (k ∷ []) = drop_key k fs
remove_path fs (k ∷ j ∷ p) = set_key k (object (remove_path (below (get_key k fs)) (j ∷ p))) fs

abbrev pub as_bool : Option Value → Option Bool
as_bool (some (bool b)) = some b
as_bool _ = none

abbrev pub as_int : Option Value → Option ℤ
as_int (some (int n)) = some n
as_int _ = none

abbrev pub as_map : Option Value → Option Fields
as_map (some (object fs)) = some fs
as_map _ = none

abbrev pub as_text : Option Value → String
as_text (some (text s)) = s
as_text _ = ""

unfoldable pub texts : Dict String → Fields
texts [] = end
texts ((k, s) ∷ d) = field k (text s) (texts d)

unfoldable pub from_texts : Fields → Dict String
from_texts end = []
from_texts (field k v fs) = (k, as_text (some v)) ∷ from_texts fs

abbrev pub as_texts : Option Value → Option (Dict String)
as_texts (some (object fs)) = some (from_texts fs)
as_texts _ = none

from_texts-texts : (d : Dict String) → from_texts (texts d) ≡ d
unfolding texts from_texts
from_texts-texts [] = refl
from_texts-texts ((k, s) ∷ d) = ap (λ r. (k, s) ∷ r) (from_texts-texts d)

-- An object without metadata gets it with its annotations.
unfoldable pub with_annotations : Fields → Dict String → Fields
unfolding set_key get_key texts
with_annotations fs d =
    set_key "metadata"
      (object (set_key "annotations" (object (texts d)) (below (get_key "metadata" fs)))) fs

unfoldable pub metadata : String → Fields → Option Value
unfolding get_key
metadata k fs = get_key k (below (get_key "metadata" fs))

abbrev pub helpers : Unstructured
helpers = record {
  nested_bool = λ fs p. as_bool (get_path fs p);
  nested_int64 = λ fs p. as_int (get_path fs p);
  nested_map = λ fs p. as_map (get_path fs p);
  set_nested_field = set_path;
  remove_nested_field = remove_path;
  get_annotations = λ fs. as_texts (metadata "annotations" fs);
  set_annotations = with_annotations;
  get_name = λ fs. as_text (metadata "name" fs);
  get_namespace = λ fs. as_text (metadata "namespace" fs);
}

pub set_path_deep :
    (k j : String) (p : List String) (fs fs' : Fields) (v : Value)
    → set_path fs v (k ∷ j ∷ p) ≡ ok fs'
    → (inner : Fields) × (set_path (below (get_key k fs)) v (j ∷ p) ≡ ok inner)
      × (fs' ≡ set_key k (object inner) fs)
unfolding set_path
set_path_deep k j p fs fs' v e = elim (Bool-cases (is_map (get_key k fs))) [
  | inr other ↦ absurd (ground (arith, e, other))
  | inl known ↦ elim (Result-cases (set_path (below (get_key k fs)) v (j ∷ p))) [
    | inr (x, q) ↦ absurd (ground (arith, e, known, q))
    | inl (inner, q) ↦ (inner, q, ground (arith, e, known, q))
  ]
]

pub get_path-set_path :
    (p : List String) (fs fs' : Fields) (v : Value)
    → set_path fs v p ≡ ok fs'
    → get_path fs' p ≡ some v
unfolding get_path set_path
get_path-set_path [] fs fs' v e = absurd (cc)
get_path-set_path (k ∷ []) fs fs' v e = ground (arith, e, get_key-set_key k k v fs)
get_path-set_path (k ∷ j ∷ p) fs fs' v e =
    let (inner, q, r) = set_path_deep k j p fs fs' v e in
    let found : get_key k fs' ≡ some (object inner) =
      ground (arith, r, get_key-set_key k k (object inner) fs) in
    rw found (get_path-set_path (j ∷ p) (below (get_key k fs)) inner v q)

set_path_top :
    (k : String) (p : List String) (fs fs' : Fields) (v : Value)
    → set_path fs v (k ∷ p) ≡ ok fs'
    → (w : Value) × (fs' ≡ set_key k w fs)
unfolding set_path
set_path_top k [] fs fs' v e = (v, ground (arith, e))
set_path_top k (j ∷ p) fs fs' v e =
    let (inner, _, r) = set_path_deep k j p fs fs' v e in (object inner, r)

metadata-set_path :
    (k : String) (p : List String) (fs fs' : Fields) (v : Value)
    → set_path fs v ("spec" ∷ p) ≡ ok fs'
    → metadata k fs' ≡ metadata k fs
unfolding metadata string_dec
metadata-set_path k p fs fs' v e =
    let (w, r) = set_path_top "spec" p fs fs' v e in
    let same : get_key "metadata" (set_key "spec" w fs) ≡ get_key "metadata" fs =
      get_key-set_key "metadata" "spec" w fs in
    ap (λ o. get_key k (below o)) (ap (get_key "metadata") r ∙ same)

metadata-with_annotations :
    (k : String) (fs : Fields) (d : Dict String)
    → metadata k (with_annotations fs d)
      ≡ (if k == "annotations" then some (object (texts d)) else metadata k fs)
unfolding metadata with_annotations string_dec
metadata-with_annotations k fs d =
    let here =
      get_key-set_key "metadata" "metadata"
        (object (set_key "annotations" (object (texts d)) (below (get_key "metadata" fs)))) fs in
    ap (λ o. get_key k (below o)) here
    ∙ get_key-set_key k "annotations" (object (texts d)) (below (get_key "metadata" fs))

pub get_path-with_annotations :
    (p : List String) (fs : Fields) (d : Dict String)
    → get_path (with_annotations fs d) ("spec" ∷ p) ≡ get_path fs ("spec" ∷ p)
unfolding get_path with_annotations string_dec
get_path-with_annotations [] fs d = get_key-set_key "spec" "metadata" _ fs
get_path-with_annotations (j ∷ p) fs d =
    ap (λ o. get_path (below o) (j ∷ p)) (get_key-set_key "spec" "metadata" _ fs)

pub helpers-IsUnstructured : IsUnstructured helpers
unfolding string_dec
helpers-IsUnstructured = record {
  nested_bool-set_nested_field =
      λ o o' b path e. ap as_bool (get_path-set_path path o o' (bool b) e);
  get_annotations-set_nested_field =
      λ o o' v path e. ap as_texts (metadata-set_path "annotations" path o o' v e);
  get_name-set_nested_field = λ o o' v path e. (
    ap as_text (metadata-set_path "name" path o o' v e),
    ap as_text (metadata-set_path "namespace" path o o' v e),
  );
  get_annotations-set_annotations = λ a o.
      ap as_texts (metadata-with_annotations "annotations" o a) ∙ ap some (from_texts-texts a);
  nested_bool-set_annotations = λ a o path. ap as_bool (get_path-with_annotations path o a);
  get_name-set_annotations = λ a o. (
    ap as_text (metadata-with_annotations "name" o a),
    ap as_text (metadata-with_annotations "namespace" o a),
  );
}

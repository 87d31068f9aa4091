-- ===== src/Enforce/InferenceServices/Progress.antt =====
-- What the loop over the components does to the recorded originals.
use gpu_budget_operator.Base.{
  String, true, false, none, some, List, [], ◌∷◌, ok, ◌≡◌, refl, sym, ap, subst, ◌∙◌, ◌⊎◌, inl, inr,
  arith, Bool-cases, Option-cases, Result-cases,
}
use gpu_budget_operator.Base.Dict.{Dict, lookup, insert, lookup-insert, lookup-insert_self}
use gpu_budget_operator.Objects.Value.{Fields}
use gpu_budget_operator.Cluster.{Cluster, ComponentReplicaSpec}
use gpu_budget_operator.Enforce.InferenceServices.{
  Zeroing, read_replica_spec, is_zeroed, affirm, capture, zero_component, zero_components,
}

-- Every record of the first map stands in the second as it was.
abbrev pub Extends : Dict ComponentReplicaSpec → Dict ComponentReplicaSpec → Type 0
Extends m m' =
    (k : String) (spec : ComponentReplicaSpec) → lookup k m ≡ some spec → lookup k m' ≡ some spec

-- Some component has a record in the second map and none in the first.
abbrev pub HasNew : Dict ComponentReplicaSpec → Dict ComponentReplicaSpec → Type 0
HasNew m m' =
    (k : String) × (spec : ComponentReplicaSpec) × (lookup k m ≡ none) × (lookup k m' ≡ some spec)

absent_before :
    (m m' : Dict ComponentReplicaSpec) (k : String)
    → Extends m m'
    → lookup k m' ≡ none
    → lookup k m ≡ none
absent_before m m' k h e = elim (Option-cases (lookup k m)) [
  | inl absent ↦ absent
  | inr (spec, p) ↦ absurd (ground (arith, e, h k spec p))
]

-- The loop variables after some components, from those before them.
pub record IsProgress (z z' : Zeroing) : Type 0 where
  pub extends : Extends z.original z'.original
  pub quiet : z'.newly_captured ≡ false → (z'.original ≡ z.original) × (z.newly_captured ≡ false)
  pub loud : z'.newly_captured ≡ true → (z.newly_captured ≡ true) ⊎ HasNew z.original z'.original

IsProgress-refl : (z : Zeroing) → IsProgress z z
IsProgress-refl z = record { extends = λ k spec h. h; quiet = λ h. (refl, h); loud = λ h. inl h }

IsProgress-trans : (x y z : Zeroing) → IsProgress x y → IsProgress y z → IsProgress x z
IsProgress-trans x y z p q = record {
  extends = λ k spec h. q.extends k spec (p.extends k spec h);
  quiet = λ h. ((q.quiet h).0 ∙ (p.quiet (q.quiet h).1).0, (p.quiet (q.quiet h).1).1);
  loud = λ h. later (q.loud h);
}
  where
    earlier :
        (x.newly_captured ≡ true) ⊎ HasNew x.original y.original
        → (x.newly_captured ≡ true) ⊎ HasNew x.original z.original
    earlier (inl e) = inl e
    earlier (inr (k, spec, a, b)) = inr (k, spec, a, q.extends k spec b)

    later :
        (y.newly_captured ≡ true) ⊎ HasNew y.original z.original
        → (x.newly_captured ≡ true) ⊎ HasNew x.original z.original
    later (inl e) = earlier (p.loud e)
    later (inr (k, spec, a, b)) =
        inr (k, spec, absent_before x.original y.original k p.extends a, b)

module _ (c : Cluster) where
  affirm-IsProgress : (x : String) (z z' : Zeroing) → affirm c x z ≡ ok z' → IsProgress z z'
  unfolding affirm
  affirm-IsProgress x z z' e =
      let same : z'.original ≡ z.original = ground arith in
      let flag : z'.newly_captured ≡ z.newly_captured = ground arith in
      record {
        extends = λ k spec h. ap (lookup k) same ∙ h;
        quiet = λ h. (same, sym flag ∙ h);
        loud = λ h. inl (sym flag ∙ h);
      }

  capture-IsProgress :
      (x : String) (spec : ComponentReplicaSpec) (z z' : Zeroing)
      → lookup x z.original ≡ none
      → capture c x spec z ≡ ok z'
      → IsProgress z z'
  unfolding capture
  capture-IsProgress x spec z z' absent e =
      let same : z'.original ≡ insert x spec z.original = ground arith in
      let flag : z'.newly_captured ≡ true = ground arith in
      record {
        extends = λ k old h.
            ap (lookup k) same ∙ ground (arith, lookup-insert k x spec z.original, absent, h);
        quiet = λ h. absurd (ground (arith, flag, h));
        loud =
            λ h. inr (x, spec, absent, ap (lookup x) same ∙ lookup-insert_self x spec z.original);
      }

  pub affirmed :
      (x : String) (z : Zeroing) (old : ComponentReplicaSpec)
      → lookup x z.original ≡ some old
      → zero_component c x z ≡ affirm c x z
  unfolding zero_component
  affirmed x z old known = rw (known, zero_component)

  pub missing_same :
      (x : String) (z : Zeroing)
      → lookup x z.original ≡ none
      → c.unstructured.nested_map z.obj ("spec" ∷ x ∷ []) ≡ none
      → zero_component c x z ≡ ok z
  unfolding zero_component
  missing_same x z absent missing = rw (absent, missing, zero_component)

  pub zeroed_same :
      (x : String) (z : Zeroing) (spec : Fields)
      → lookup x z.original ≡ none
      → c.unstructured.nested_map z.obj ("spec" ∷ x ∷ []) ≡ some spec
      → is_zeroed c spec ≡ true
      → zero_component c x z ≡ ok z
  unfolding zero_component
  zeroed_same x z spec absent found zeroed = rw (absent, found, zeroed, zero_component)

  pub live_captured :
      (x : String) (z : Zeroing) (spec : Fields)
      → lookup x z.original ≡ none
      → c.unstructured.nested_map z.obj ("spec" ∷ x ∷ []) ≡ some spec
      → is_zeroed c spec ≡ false
      → zero_component c x z ≡ capture c x (read_replica_spec c spec) z
  unfolding zero_component
  live_captured x z spec absent found live = rw (absent, found, live, zero_component)

  unknown :
      (x : String) (z z' : Zeroing)
      → lookup x z.original ≡ none
      → zero_component c x z ≡ ok z'
      → IsProgress z z'
  unknown x z z' absent e =
      elim (Option-cases (c.unstructured.nested_map z.obj ("spec" ∷ x ∷ []))) [
        | inl missing ↦
            subst (IsProgress z) (ground (arith, e, missing_same x z absent missing))
              (IsProgress-refl z)
        | inr (spec, found) ↦ elim (Bool-cases (is_zeroed c spec)) [
          | inl zeroed ↦
              subst (IsProgress z) (ground (arith, e, zeroed_same x z spec absent found zeroed))
                (IsProgress-refl z)
          | inr live ↦
              capture-IsProgress x (read_replica_spec c spec) z z' absent
                (sym (live_captured x z spec absent found live) ∙ e)
        ]
      ]

  zero_component-IsProgress :
      (x : String) (z z' : Zeroing) → zero_component c x z ≡ ok z' → IsProgress z z'
  zero_component-IsProgress x z z' e = elim (Option-cases (lookup x z.original)) [
    | inr (old, known) ↦ affirm-IsProgress x z z' (sym (affirmed x z old known) ∙ e)
    | inl absent ↦ unknown x z z' absent e
  ]

  pub zero_components-IsProgress :
      (xs : List String) (z z' : Zeroing) → zero_components c xs z ≡ ok z' → IsProgress z z'
  unfolding zero_components
  zero_components-IsProgress [] z z' e = subst (IsProgress z) (ground arith) (IsProgress-refl z)
  zero_components-IsProgress (x ∷ xs) z z' e = elim (Result-cases (zero_component c x z)) [
    | inr (f, p) ↦ absurd (ground (arith, e, p))
    | inl (y, p) ↦
        IsProgress-trans z y z' (zero_component-IsProgress x z y p)
          (zero_components-IsProgress xs y z' (ground (arith, e, p)))
  ]

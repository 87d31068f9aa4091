-- ===== src/Controllers/Merge/Keys.antt =====
-- What merging keeps and adds.
use gpu_budget_operator.Base.{
  String, true, false, List, [], ◌∷◌, ◌++◌, ◌≡◌, ◌≢◌, inl, inr, refl, sym, ap, subst, ◌∙◌, arith,
  All, All-append, Any, Any-append_left, Any-append_right, ◌==◌, ==_refl, ==_sound, Bool-cases,
}
use gpu_budget_operator.Objects.{EnforcedResource}
use gpu_budget_operator.Controllers.Merge.{key, is_seen, seen_keys, merge_loop, merge_enforced}

-- Some resource of the list has the key.
abbrev pub HasKey : String → List EnforcedResource → Type 0
HasKey k rs = Any (λ r. key r ≡ k) rs

-- No two resources of the list have one key.
abbrev pub NodupKeys : List EnforcedResource → Type 0
NodupKeys [] = Unit
NodupKeys (r ∷ rs) = All (λ q. key q ≢ key r) rs × NodupKeys rs

-- The list is the other one with more at its end.
abbrev pub IsExtension : List EnforcedResource → List EnforcedResource → Type 0
IsExtension existing merged = (more : List EnforcedResource) × (merged ≡ existing ++ more)

pub append_nil : (xs : List EnforcedResource) → xs ++ [] ≡ xs
append_nil [] = refl
append_nil (x ∷ xs) = ap (λ ys. x ∷ ys) (append_nil xs)

append_assoc : (xs ys zs : List EnforcedResource) → (xs ++ ys) ++ zs ≡ xs ++ (ys ++ zs)
append_assoc [] ys zs = refl
append_assoc (x ∷ xs) ys zs = ap (λ ws. x ∷ ws) (append_assoc xs ys zs)

pub IsExtension-trans :
    (xs ys zs : List EnforcedResource) → IsExtension xs ys → IsExtension ys zs → IsExtension xs zs
IsExtension-trans xs ys zs (us, p) (vs, q) =
    (us ++ vs, q ∙ ap (λ ws. ws ++ vs) p ∙ append_assoc xs us vs)

-- `seen` has exactly the keys of the list.
record IsSeen (seen : List String) (rs : List EnforcedResource) : Type 0 where
  present : (k : String) → is_seen k seen ≡ true → HasKey k rs
  absent : (k : String) → is_seen k seen ≡ false → All (λ r. key r ≢ k) rs

IsSeen-more :
    (r : EnforcedResource) (seen : List String) (rs : List EnforcedResource)
    → IsSeen seen rs
    → IsSeen (key r ∷ seen) (r ∷ rs)
unfolding is_seen
IsSeen-more r seen rs h = record {
  present = λ k e. elim (Bool-cases (k == key r)) [
    | inl same ↦ inl (sym (==_sound k (key r) same))
    | inr other ↦ inr (h.present k (ground (arith, e, other)))
  ];
  absent = λ k e. elim (Bool-cases (k == key r)) [
    | inl same ↦ absurd (ground (arith, e, same))
    | inr other ↦ (λ p. ground (arith, p, other, ==_refl k), h.absent k (ground (arith, e, other)))
  ];
}

seen_keys-IsSeen : (rs : List EnforcedResource) → IsSeen (seen_keys rs) rs
unfolding seen_keys is_seen
seen_keys-IsSeen [] = record { present = λ k h. absurd (cc); absent = λ k h. tt }
seen_keys-IsSeen (r ∷ rs) = IsSeen-more r (seen_keys rs) rs (seen_keys-IsSeen rs)

IsSeen-snoc :
    (a : EnforcedResource) (seen : List String) (rs : List EnforcedResource)
    → IsSeen seen rs
    → IsSeen (key a ∷ seen) (rs ++ (a ∷ []))
unfolding is_seen
IsSeen-snoc a seen rs h = record {
  present = λ k e. elim (Bool-cases (k == key a)) [
    | inl same ↦ Any-append_right _ rs (a ∷ []) (inl (sym (==_sound k (key a) same)))
    | inr other ↦ Any-append_left _ rs (a ∷ []) (h.present k (ground (arith, e, other)))
  ];
  absent = λ k e. elim (Bool-cases (k == key a)) [
    | inl same ↦ absurd (ground (arith, e, same))
    | inr other ↦
        All-append _ rs (a ∷ []) (h.absent k (ground (arith, e, other)))
          (λ p. ground (arith, p, other, ==_refl k), tt)
  ];
}

snoc-NodupKeys :
    (a : EnforcedResource) (rs : List EnforcedResource)
    → NodupKeys rs
    → All (λ r. key r ≢ key a) rs
    → NodupKeys (rs ++ (a ∷ []))
snoc-NodupKeys a [] h new = (tt, tt)
snoc-NodupKeys a (r ∷ rs) h new =
    (All-append _ rs (a ∷ []) h.0 (λ p. new.0 (sym p), tt), snoc-NodupKeys a rs h.1 new.1)

-- What merging makes of the existing resources and the additions.
pub record IsMerge (existing additions merged : List EnforcedResource) : Type 0 where
  pub extends : IsExtension existing merged
  pub adds : All (λ a. HasKey (key a) merged) additions
  pub nodup : NodupKeys existing → NodupKeys merged

HasKey-IsExtension :
    (k : String) (rs ms : List EnforcedResource) → HasKey k rs → IsExtension rs ms → HasKey k ms
HasKey-IsExtension k rs ms h (more, e) = subst (HasKey k) (sym e) (Any-append_left _ rs more h)

merge_known :
    (a : EnforcedResource) (added : List EnforcedResource) (seen : List String)
    (rs : List EnforcedResource)
    → is_seen (key a) seen ≡ true
    → merge_loop (a ∷ added) seen rs ≡ merge_loop added seen rs
unfolding merge_loop
merge_known a added seen rs e = rw (e, merge_loop)

merge_fresh :
    (a : EnforcedResource) (added : List EnforcedResource) (seen : List String)
    (rs : List EnforcedResource)
    → is_seen (key a) seen ≡ false
    → merge_loop (a ∷ added) seen rs ≡ merge_loop added (key a ∷ seen) (rs ++ (a ∷ []))
unfolding merge_loop
merge_fresh a added seen rs e = rw (e, merge_loop)

merge_loop-IsMerge :
    (added : List EnforcedResource) (seen : List String) (rs : List EnforcedResource)
    → IsSeen seen rs
    → IsMerge rs added (merge_loop added seen rs)
unfolding merge_loop
merge_loop-IsMerge [] seen rs h = record {
  extends = ([], sym (append_nil rs));
  adds = tt;
  nodup = λ d. d;
}
merge_loop-IsMerge (a ∷ added) seen rs h = elim (Bool-cases (is_seen (key a) seen)) [
  | inl known ↦
      let m = merge_loop-IsMerge added seen rs h in
      rw (merge_known a added seen rs known) (record {
        extends = m.extends;
        adds = (HasKey-IsExtension (key a) rs _ (h.present (key a) known) m.extends, m.adds);
        nodup = m.nodup;
      })
  | inr fresh ↦
      let m = merge_loop-IsMerge added (key a ∷ seen) (rs ++ (a ∷ [])) (IsSeen-snoc a seen rs h) in
      let here : HasKey (key a) (rs ++ (a ∷ [])) = Any-append_right _ rs (a ∷ []) (inl refl) in
      rw (merge_fresh a added seen rs fresh) (record {
        extends = (a ∷ m.extends.0, m.extends.1 ∙ append_assoc rs (a ∷ []) m.extends.0);
        adds = (HasKey-IsExtension (key a) (rs ++ (a ∷ [])) _ here m.extends, m.adds);
        nodup = λ d. m.nodup (snoc-NodupKeys a rs d (h.absent (key a) fresh));
      })
]

-- Merging keeps the existing resources, in place and unchanged, and only adds behind them; it has
-- the kind and name of every addition; and where no two existing resources share kind and name, no
-- two merged ones do.
pub merge_enforced-IsMerge :
    (existing additions : List EnforcedResource)
    → IsMerge existing additions (merge_enforced existing additions)
unfolding merge_enforced
merge_enforced-IsMerge existing additions =
    merge_loop-IsMerge additions (seen_keys existing) existing (seen_keys-IsSeen existing)

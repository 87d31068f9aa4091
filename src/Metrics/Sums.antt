-- ===== src/Metrics/Sums.antt =====
-- The sums that `GPUHoursByType` makes of the samples.
use gpu_budget_operator.Base.{
  ok, String, true, false, Option, none, some, List, [], ◌∷◌, ◌≡◌, ◌≢◌, refl, sym, ap, subst, ◌∙◌,
  inl, inr, arith, All, ◌==◌, ==_refl, ==_sound, ==_apart, if◌then◌else◌, Bool-cases, Option-cases,
}
use gpu_budget_operator.Base.Dict.{Dict, lookup, insert, lookup-insert}
use gpu_budget_operator.Base.Dict.Keys.{DistinctKeys, lookup_fresh, insert-All, insert-DistinctKeys}
use gpu_budget_operator.Budget.{Floats}
use gpu_budget_operator.Metrics.{vector, add_hours, sum_samples, gpu_hours_by_type}

module _ (fl : Floats) where
  -- The values of the samples of a type, in order.
  pub labelled : String → List (String × fl.F) → List fl.F
  labelled k [] = []
  labelled k ((j, v) ∷ samples) = let rest = labelled k samples in if k == j then v ∷ rest else rest

  abbrev pub or_nought : Option fl.F → fl.F
  or_nought none = fl.nought
  or_nought (some v) = v

  -- The values added to what there is, one after the other; a first one is added to zero.
  pub added : Option fl.F → List fl.F → Option fl.F
  added acc [] = acc
  added acc (v ∷ vs) = added (some (fl.add (or_nought acc) v)) vs

  add_hours_lem :
      (j : String) (v : fl.F) (d : Dict fl.F)
      → add_hours fl j v d ≡ insert j (fl.add (or_nought (lookup j d)) v) d
  unfolding add_hours
  add_hours_lem j v d = elim (Option-cases (lookup j d)) [
    | inl e ↦ ground (arith, e)
    | inr (w, e) ↦ ground (arith, e)
  ]

  lookup-add_hours :
      (k j : String) (v : fl.F) (d : Dict fl.F)
      → lookup k (add_hours fl j v d)
        ≡ (if k == j then some (fl.add (or_nought (lookup j d)) v) else lookup k d)
  lookup-add_hours k j v d =
      ap (lookup k) (add_hours_lem j v d) ∙ lookup-insert k j (fl.add (or_nought (lookup j d)) v) d

  add_hours-DistinctKeys :
      (j : String) (v : fl.F) (d : Dict fl.F) → DistinctKeys d → DistinctKeys (add_hours fl j v d)
  add_hours-DistinctKeys j v d h =
      subst DistinctKeys (sym (add_hours_lem j v d)) (insert-DistinctKeys j _ d h)

  sum_skip :
      (j : String) (v : fl.F) (samples : List (String × fl.F)) (d : Dict fl.F)
      → (j == "") ≡ true
      → sum_samples fl ((j, v) ∷ samples) d ≡ sum_samples fl samples d
  unfolding sum_samples
  sum_skip j v samples d e = rw (e, sum_samples) refl

  sum_add :
      (j : String) (v : fl.F) (samples : List (String × fl.F)) (d : Dict fl.F)
      → (j == "") ≡ false
      → sum_samples fl ((j, v) ∷ samples) d ≡ sum_samples fl samples (add_hours fl j v d)
  unfolding sum_samples
  sum_add j v samples d e = rw (e, sum_samples) refl

  other_label :
      (k j : String) (v : fl.F) (samples : List (String × fl.F))
      → (k == j) ≡ false
      → labelled k ((j, v) ∷ samples) ≡ labelled k samples
  unfolding labelled
  other_label k j v samples e = ground (arith, e)

  same_label :
      (k j : String) (v : fl.F) (samples : List (String × fl.F))
      → (k == j) ≡ true
      → labelled k ((j, v) ∷ samples) ≡ v ∷ labelled k samples
  unfolding labelled
  same_label k j v samples e = ground (arith, e)

  lookup-sum_samples :
      (k : String) (samples : List (String × fl.F)) (d : Dict fl.F)
      → k ≢ ""
      → lookup k (sum_samples fl samples d) ≡ added (lookup k d) (labelled k samples)
  unfolding sum_samples labelled added
  lookup-sum_samples k [] d h = refl
  lookup-sum_samples k ((j, v) ∷ samples) d h = elim (Bool-cases (j == "")) [
    | inl e ↦
        let apart : (k == j) ≡ false = ground (arith, h, ==_sound j "" e, ==_sound k j) in
        ap (lookup k) (sum_skip j v samples d e)
        ∙ lookup-sum_samples k samples d h
        ∙ ap (added (lookup k d)) (sym (other_label k j v samples apart))
    | inr e ↦
        ap (lookup k) (sum_add j v samples d e)
        ∙ lookup-sum_samples k samples (add_hours fl j v d) h
        ∙ elim (Bool-cases (k == j)) [
          | inr p ↦
              rw (other_label k j v samples p) (
                ap (λ x. added x (labelled k samples))
                  (ground (arith, lookup-add_hours k j v d, p)))
          | inl p ↦ rw (same_label k j v samples p) (
              ap (λ x. added x (labelled k samples))
                (ground (arith, lookup-add_hours k j v d, p, ==_sound k j p)))
        ]
  ]

  -- No sample without a label is counted, and each key stands once.
  record IsClean (d : Dict fl.F) : Type 0 where
    labels : All (λ e. e.0 ≢ "") d
    distinct : DistinctKeys d

  add_hours-IsClean :
      (j : String) (v : fl.F) (d : Dict fl.F) → j ≢ "" → IsClean d → IsClean (add_hours fl j v d)
  add_hours-IsClean j v d h clean = record {
    labels =
        subst (λ x. All (λ e. e.0 ≢ "") x) (sym (add_hours_lem j v d))
          (insert-All (λ e. e.0 ≢ "") j _ d h clean.labels);
    distinct = add_hours-DistinctKeys j v d clean.distinct;
  }

  sum_samples-IsClean :
      (samples : List (String × fl.F)) (d : Dict fl.F)
      → IsClean d
      → IsClean (sum_samples fl samples d)
  unfolding sum_samples
  sum_samples-IsClean [] d clean = clean
  sum_samples-IsClean ((j, v) ∷ samples) d clean = elim (Bool-cases (j == "")) [
    | inl e ↦ subst IsClean (sym (sum_skip j v samples d e)) (sum_samples-IsClean samples d clean)
    | inr e ↦ subst IsClean (sym (sum_add j v samples d e)) (
        sum_samples-IsClean samples (add_hours fl j v d)
          (add_hours-IsClean j v d (λ p. ground (arith, e, p, ==_refl "")) clean))
  ]

  lookup_summed :
      (samples : List (String × fl.F)) (k : String)
      → lookup k (sum_samples fl samples [])
        ≡ (if k == "" then none else added none (labelled k samples))
  unfolding lookup
  lookup_summed samples k = elim (Bool-cases (k == "")) [
    | inl e ↦
        let clean = sum_samples-IsClean samples [] (record { labels = tt; distinct = tt }) in
        rw (e, ==_sound k "" e) (lookup_fresh "" (sum_samples fl samples []) clean.labels)
    | inr e ↦ rw e (lookup-sum_samples k samples [] (==_apart k "" e))
  ]

  -- A vector is read as a map with each GPU type once, and no empty one; a type has the sum, in the
  -- order of the samples, of the values that carry its label, and no entry where none does.
  pub gpu_hours_by_type_sums :
      (samples : List (String × fl.F))
      → (d : Dict fl.F) × (gpu_hours_by_type fl (vector samples) ≡ ok d)
        × ((k : String) → lookup k d ≡ (if k == "" then none else added none (labelled k samples)))
        × All (λ e. e.0 ≢ "") d
        × DistinctKeys d
  unfolding gpu_hours_by_type lookup
  gpu_hours_by_type_sums samples =
      let clean = sum_samples-IsClean samples [] (record { labels = tt; distinct = tt }) in
      (sum_samples fl samples [], refl, lookup_summed samples, clean.labels, clean.distinct)

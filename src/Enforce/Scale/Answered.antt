-- ===== src/Enforce/Scale/Answered.antt =====
-- `restoreDeployment`, `restoreStatefulSet` and `restoreReplicaSet` of a stored workload, whatever its
-- annotation is, over a cluster whose API for the kind is lawful.
use gpu_budget_operator.Base.{
  String, Option, none, some, ok, err, ◌≡◌, ◌≢◌, refl, sym, ap, ◌∙◌, ◌⊎◌, inl, inr, arith,
  Option-cases, ==_refl, ==_sound, subst,
}
use gpu_budget_operator.Base.Int.{ℤ}
use gpu_budget_operator.Base.Dict.{read, read-remove}
use gpu_budget_operator.Fmt.{sscanf_d}
use gpu_budget_operator.Objects.{Workload, ScaleKind}
use gpu_budget_operator.Cluster.{Cluster}
use gpu_budget_operator.Cluster.Lawful.{IsLawful}
use gpu_budget_operator.Enforce.Report.{Error, client, bad_annotation}
use gpu_budget_operator.Enforce.Scale.{
  annotation_original_replicas, restored, recover_replicas, scale_restorer, restore_workload,
}
use gpu_budget_operator.Enforce.Scale.Restored.{recover_replicas_place}
use gpu_budget_operator.Enforce.Restore.Cases.{restore_cases}

module _ (c : Cluster) where
  -- The workload at another count, with its template, owners and other annotations, and without the
  -- operator's annotation.
  pub record IsCounted (n : ℤ) (before after : Workload c.Quantity) : Type 0 where
    pub replicas : after.replicas ≡ some n
    pub template : after.template ≡ before.template
    pub name : after.meta.name ≡ before.meta.name
    pub owners : after.meta.owner_references ≡ before.meta.owner_references
    pub cleared : read annotation_original_replicas after.meta.annotations ≡ none
    pub others :
        (key : String)
        → key ≢ annotation_original_replicas
        → read key after.meta.annotations ≡ read key before.meta.annotations

  restored-IsCounted : (n : ℤ) (w : Workload c.Quantity) → IsCounted n w (restored c n w)
  unfolding restored
  restored-IsCounted n w = record {
    replicas = refl;
    template = refl;
    name = refl;
    owners = refl;
    cleared =
        let own = annotation_original_replicas in
        ground (arith, read-remove own own w.meta.annotations, ==_refl own);
    others = λ key h.
        let own = annotation_original_replicas in
        ground (arith, read-remove key own w.meta.annotations, ==_sound key own, h);
  }

  -- What `recover_replicas` gives, by the annotation.
  unannotated :
      (w : Workload c.Quantity)
      → recover_replicas c w ≡ none
      → read annotation_original_replicas w.meta.annotations ≡ none
  unfolding recover_replicas
  unannotated w h = elim (Option-cases (read annotation_original_replicas w.meta.annotations)) [
    | inl e ↦ e
    | inr (raw, e) ↦ elim (Option-cases (sscanf_d raw)) [
      | inl p ↦ absurd (ground (arith, h, e, p))
      | inr (n, p) ↦ absurd (ground (arith, h, e, p))
    ]
  ]

  unparsed :
      (w : Workload c.Quantity) (x : Error c.Err)
      → recover_replicas c w ≡ some (err x)
      → (raw : String) × (read annotation_original_replicas w.meta.annotations ≡ some raw)
        × (sscanf_d raw ≡ none)
        × (x ≡ bad_annotation raw)
  unfolding recover_replicas
  unparsed w x h = elim (Option-cases (read annotation_original_replicas w.meta.annotations)) [
    | inl e ↦ absurd (ground (arith, h, e))
    | inr (raw, e) ↦ elim (Option-cases (sscanf_d raw)) [
      | inl p ↦ (raw, e, p, ground (arith, h, e, p))
      | inr (n, p) ↦ absurd (ground (arith, h, e, p))
    ]
  ]

  parsed :
      (w v : Workload c.Quantity)
      → recover_replicas c w ≡ some (ok v)
      → (raw : String) × (n : ℤ) × (read annotation_original_replicas w.meta.annotations ≡ some raw)
        × (sscanf_d raw ≡ some n)
        × (v ≡ restored c n w)
  unfolding recover_replicas
  parsed w v h = elim (Option-cases (read annotation_original_replicas w.meta.annotations)) [
    | inl e ↦ absurd (ground (arith, h, e))
    | inr (raw, e) ↦ elim (Option-cases (sscanf_d raw)) [
      | inl p ↦ absurd (ground (arith, h, e, p))
      | inr (n, p) ↦ (raw, n, e, p, ground (arith, h, e, p))
    ]
  ]

module _ (c : Cluster) (k : ScaleKind)
    (view : String → c.State → String → Option (Workload c.Quantity))
    (L : IsLawful
      (λ w. w.meta.name)
      (λ w. w.meta.namespace)
      (c.workloads k)
      c.is_not_found
      view) where
  abbrev pub AsBefore : String → c.State → c.State → Type 0
  AsBefore ns s s' = (m : String) → view ns s' m ≡ view ns s m

  -- The count of the annotation is restored, and nothing else is stored.
  pub record IsPutBack (ns n : String) (s : c.State) (w : Workload c.Quantity) (s' : c.State)
      : Type 0 where
    pub raw : String
    pub count : ℤ
    pub after : Workload c.Quantity
    pub annotated : read annotation_original_replicas w.meta.annotations ≡ some raw
    pub parses : sscanf_d raw ≡ some count
    pub stored : view ns s' n ≡ some after
    pub counted : IsCounted c count w after
    pub elsewhere : (m : String) → m ≢ n → view ns s' m ≡ view ns s m

  -- The four ways of a restore: a call of the API fails; the annotation is not a count; there is
  -- none; or its count is restored.
  abbrev pub IsAnswered :
      String → String → c.State → Workload c.Quantity → Option (Error c.Err) × c.State → Type 0
  IsAnswered ns n s w (o, s') =
      ((f : c.Err) × (o ≡ some (client f)) × AsBefore ns s s')
      ⊎ (((raw : String) × (read annotation_original_replicas w.meta.annotations ≡ some raw)
            × (sscanf_d raw ≡ none)
            × (o ≡ some (bad_annotation raw))
            × AsBefore ns s s')
          ⊎ (((o ≡ none)
                × (read annotation_original_replicas w.meta.annotations ≡ none)
                × AsBefore ns s s')
              ⊎ ((o ≡ none) × IsPutBack ns n s w s')))

  -- A restore of a stored workload: where a call of the API fails, or where the annotation is no
  -- count, that is the error and nothing is stored; with no annotation there is no error and nothing
  -- is stored; otherwise the workload gets exactly the count that the annotation keeps, loses the
  -- annotation, keeps the rest, and no other workload changes.
  pub restore_workload-IsAnswered :
      (ns n : String) (s : c.State) (w : Workload c.Quantity)
      → view ns s n ≡ some w
      → IsAnswered ns n s w (restore_workload c k ns n s)
  unfolding restore_workload
  restore_workload-IsAnswered ns n s w here =
      elim (restore_cases (scale_restorer c k) _ _ view L ns n s w here
        (recover_replicas_place c w)) [
          | inl failed ↦ inl failed
          | inr (inl (none_kept, fine, same)) ↦
              inr (inr (inl (fine, unannotated c w none_kept, same)))
          | inr (inr (inl (e, refused, failed, same))) ↦
              let (raw, found, bad, is) = unparsed c w e refused in
              inr (inl (raw, found, bad, failed ∙ ap some is, same))
          | inr (inr (inr (y, kept, fine, after))) ↦
              let (raw, count, found, good, is) = parsed c w y kept in
              inr (
                inr (
                  inr (
                    fine,
                    record {
                      raw = raw;
                      count = count;
                      after = y;
                      annotated = found;
                      parses = good;
                      stored = ground (arith, after n, ==_refl n);
                      counted = subst (IsCounted c count w) (sym is) (restored-IsCounted c count w);
                      elsewhere = λ m apart. ground (arith, after m, apart, ==_sound m n);
                    },
                  )))
        ]

-- ===== src/Enforce/Scale/Restored.antt =====
-- `restoreDeployment`, `restoreStatefulSet` and `restoreReplicaSet`, alone and after a pass that
-- scaled to zero, over a cluster whose API for the kind is lawful.
use gpu_budget_operator.Base.{String, Option, none, some, ok, ◌≡◌, ◌≢◌, refl, arith}
use gpu_budget_operator.Base.Dict.{
  read, make, lookup-insert_self, read-remove_self, read-remove_other,
}
use gpu_budget_operator.Fmt.{sprintf_d}
use gpu_budget_operator.Fmt.Scan.{IsInt32, sscanf_d-sprintf_d}
use gpu_budget_operator.Objects.{Workload, ScaleKind}
use gpu_budget_operator.Cluster.{Cluster}
use gpu_budget_operator.Cluster.Lawful.{IsLawful}
use gpu_budget_operator.Enforce.Scale.{
  annotation_original_replicas, original_replicas, scaled_to_zero, restored, recover_replicas,
  scale_restorer, restore_workload,
}
use gpu_budget_operator.Enforce.Restore.Whole.{restore_done}

module _ (c : Cluster) where
  -- The workload is back at its count, with its template, owners and other annotations, and
  -- without the operator's annotation.
  pub record IsRestored (before after : Workload c.Quantity) : Type 0 where
    pub replicas : after.replicas ≡ some (original_replicas before.replicas)
    pub template : after.template ≡ before.template
    pub name : after.meta.name ≡ before.meta.name
    pub owners : after.meta.owner_references ≡ before.meta.owner_references
    pub cleared : read annotation_original_replicas after.meta.annotations ≡ none
    pub others :
        (key : String)
        → key ≢ annotation_original_replicas
        → read key after.meta.annotations ≡ read key before.meta.annotations

  read-scaled_to_zero :
      (w : Workload c.Quantity)
      → read annotation_original_replicas (scaled_to_zero c w).meta.annotations
        ≡ some (sprintf_d (original_replicas w.replicas))
  unfolding scaled_to_zero read
  read-scaled_to_zero w = lookup-insert_self _ _ (make w.meta.annotations)

  pub restored-IsRestored :
      (w : Workload c.Quantity)
      → IsRestored w (restored c (original_replicas w.replicas) (scaled_to_zero c w))
  unfolding restored scaled_to_zero
  restored-IsRestored w = record {
    replicas = refl;
    template = refl;
    name = refl;
    owners = refl;
    cleared = read-remove_self _ _ w.meta.annotations;
    others = λ key h. read-remove_other key _ _ w.meta.annotations h;
  }

  -- A count that was printed into the annotation is parsed back.
  pub recover_replicas-scaled_to_zero :
      (w : Workload c.Quantity)
      → IsInt32 (original_replicas w.replicas)
      → recover_replicas c (scaled_to_zero c w)
        ≡ some (ok (restored c (original_replicas w.replicas) (scaled_to_zero c w)))
  unfolding recover_replicas
  recover_replicas-scaled_to_zero w h =
      rw (read-scaled_to_zero w, sscanf_d-sprintf_d _ h, recover_replicas)

  pub recover_replicas_place :
      (w v : Workload c.Quantity)
      → recover_replicas c w ≡ some (ok v)
      → (v.meta.namespace ≡ w.meta.namespace) × (v.meta.name ≡ w.meta.name)
  unfolding recover_replicas restored
  recover_replicas_place w v h = ground arith

module _ (c : Cluster) (k : ScaleKind)
    (view : String → c.State → String → Option (Workload c.Quantity))
    (L : IsLawful
      (λ w. w.meta.name)
      (λ w. w.meta.namespace)
      (c.workloads k)
      c.is_not_found
      view) where
  -- A workload that was scaled to zero is restored if the restore returns no error: its count is
  -- the one it had before, one if it had none, and no other workload changes.
  pub restore_workload-IsRestored :
      (ns n : String) (s : c.State) (w : Workload c.Quantity)
      → view ns s n ≡ some (scaled_to_zero c w)
      → IsInt32 (original_replicas w.replicas)
      → (restore_workload c k ns n s).0 ≡ none
      → (v : Workload c.Quantity) × (view ns (restore_workload c k ns n s).1 n ≡ some v)
        × IsRestored c w v
        × ((m : String) → m ≢ n → view ns (restore_workload c k ns n s).1 m ≡ view ns s m)
  unfolding restore_workload
  restore_workload-IsRestored ns n s w here fits fine =
      let after =
        restore_done (scale_restorer c k) _ _ view L ns n s (scaled_to_zero c w) _ here
          (recover_replicas-scaled_to_zero c w fits) (recover_replicas_place c (scaled_to_zero c w))
          fine in
      (
        restored c (original_replicas w.replicas) (scaled_to_zero c w),
        ground (arith, after n),
        restored-IsRestored c w,
        λ m differs. ground (arith, after m, differs),
      )

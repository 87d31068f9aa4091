-- ===== src/Enforce/Namespace/Attempted.antt =====
-- What `RestoreNamespace` does for the recorded workloads, also after enforcement.
use gpu_budget_operator.Base.{
  String, Option, none, some, List, ◌≡◌, ◌≢◌, refl, sym, ap, ◌∙◌, ◌⊎◌, inl, inr, Any, Any-map,
  string_dec,
}
use mathlib.Core.Option.{some-injective}
use gpu_budget_operator.Fmt.Scan.{IsInt32}
use gpu_budget_operator.Objects.{
  Workload, ScaleKind, deployment, stateful_set, replica_set, EnforcedResource,
}
use gpu_budget_operator.Cluster.{Cluster}
use gpu_budget_operator.Cluster.Lawful.{IsLawful}
use gpu_budget_operator.Enforce.Restore.{restore}
use gpu_budget_operator.Enforce.Scale.{
  kind_name, original_replicas, scaled_to_zero, restored, recover_replicas, scale_restorer,
  restore_workload, restore_deployment, restore_stateful_set, restore_replica_set,
}
use gpu_budget_operator.Enforce.Scale.Enforced.{IsReport}
use gpu_budget_operator.Enforce.Scale.Restored.{
  IsRestored, restored-IsRestored, recover_replicas-scaled_to_zero, recover_replicas_place,
}
use gpu_budget_operator.Enforce.Jobs.{job_restorer}
use gpu_budget_operator.Enforce.JobSets.{job_set_restorer}
use gpu_budget_operator.Enforce.InferenceServices.{service_restorer}
use gpu_budget_operator.Enforce.Namespace.{restore_resource, restore_namespace, enforce_namespace}
use gpu_budget_operator.Enforce.Namespace.Frame.{LeavesAlone}
use gpu_budget_operator.Enforce.Namespace.RestoreFrame.{restore_alone, restore_resource_cases}
use gpu_budget_operator.Enforce.Namespace.Entries.{IsEntry, IsAbout, restore_namespace_attempts}
use gpu_budget_operator.Enforce.Namespace.Told.{enforce_namespace-IsTold}

pub restore_workload_of :
    (c : Cluster) (k : ScaleKind) (ns : String) (e : EnforcedResource) (s : c.State)
    → e.kind ≡ kind_name k
    → restore_resource c ns e s ≡ restore (scale_restorer c k) ns e.name s
unfolding restore_resource restore_workload restore_deployment restore_stateful_set
    restore_replica_set string_dec
restore_workload_of c deployment ns e s p = rw p refl
restore_workload_of c stateful_set ns e s p = rw p refl
restore_workload_of c replica_set ns e s p = rw p refl

module _ (c : Cluster) (k : ScaleKind)
    (view : String → c.State → String → Option (Workload c.Quantity))
    (L : IsLawful (λ w. w.meta.name) (λ w. w.meta.namespace) (c.workloads k) c.is_not_found view)
    (others : (j : ScaleKind)
      → j ≢ k
      → (ns n : String) → LeavesAlone (c.workloads j) (λ s. view ns s n))
    (jobs_apart : (ns n : String) → LeavesAlone c.jobs (λ s. view ns s n))
    (job_sets_apart : (ns n : String) → LeavesAlone c.job_sets (λ s. view ns s n))
    (services_apart : (ns n : String) → LeavesAlone c.inference_services (λ s. view ns s n))
    (pods_apart : (ns n : String) → LeavesAlone c.pods (λ s. view ns s n)) where
  restore_elsewhere :
      (ns n : String) (e : EnforcedResource) (s : c.State)
      → e.kind ≢ kind_name k
      → view ns (restore_resource c ns e s).1 n ≡ view ns s n
  restore_elsewhere ns n e s differs =
      let look = λ (t : c.State). view ns t n in
      restore_resource_cases c look ns e s
        (λ j is.
          restore_alone (scale_restorer c j) look
            (others j (λ p. differs (is ∙ ap kind_name p)) ns n) ns e.name s)
        (λ _. restore_alone (job_set_restorer c) look (job_sets_apart ns n) ns e.name s)
        (λ _. restore_alone (job_restorer c) look (jobs_apart ns n) ns e.name s)
        (λ _. restore_alone (service_restorer c) look (services_apart ns n) ns e.name s)

  restored_idle :
      (w : Workload c.Quantity)
      → recover_replicas c (restored c (original_replicas w.replicas) (scaled_to_zero c w)) ≡ none
  unfolding recover_replicas
  restored_idle w = rw ((restored-IsRestored c w).cleared, recover_replicas)

  -- Every recorded workload is attempted, whatever fails before it: if it is scaled to zero with an
  -- int32 count in its annotation, then afterwards it is back at its count, or an error tells that
  -- its own restore failed.
  pub restore_namespace-IsRestored :
      (ns n : String) (s : c.State) (w : Workload c.Quantity) (es : List EnforcedResource)
      → Any (IsEntry (kind_name k) n) es
      → view ns s n ≡ some (scaled_to_zero c w)
      → IsInt32 (original_replicas w.replicas)
      → ((v : Workload c.Quantity) × (view ns (restore_namespace c ns es s).1 n ≡ some v)
          × IsRestored c w v)
        ⊎ Any (IsAbout (kind_name k) n) (restore_namespace c ns es s).0
  restore_namespace-IsRestored ns n s w es listed found fits =
      elim (restore_namespace_attempts c (scale_restorer c k) _ _ view L
        (λ _ x. recover_replicas_place c x) (kind_name k) ns n
        (λ e t. restore_workload_of c k ns e t) (restore_elsewhere ns n) es s (scaled_to_zero c w)
        (restored c (original_replicas w.replicas) (scaled_to_zero c w)) listed found
        (recover_replicas-scaled_to_zero c w fits) (restored_idle w)) [
          | inl done ↦ inl (_, done, restored-IsRestored c w)
          | inr failed ↦ inr failed
        ]

  -- A namespace enforced and reset, whatever fails in either: each stored workload of the kind is
  -- left alone by the enforcement, or the reset brings it back to its count, or an error of the reset
  -- tells that its own restore failed. Its count is asked to be an int32.
  pub restore_namespace-enforce_namespace :
      (ns n : String) (s : c.State) (w : Workload c.Quantity)
      → view ns s n ≡ some w
      → IsInt32 (original_replicas w.replicas)
      → let run = enforce_namespace c ns s in
        let back = restore_namespace c ns run.resources run.state in
        (view ns run.state n ≡ some w)
        ⊎ ((v : Workload c.Quantity) × (view ns back.1 n ≡ some v) × IsRestored c w v)
        ⊎ Any (IsAbout (kind_name k) n) back.0
  restore_namespace-enforce_namespace ns n s w found fits =
      elim (enforce_namespace-IsTold c k view L others jobs_apart job_sets_apart services_apart
        pods_apart ns s n) [
          | inl same ↦ inl (same ∙ found)
          | inr (x, here, (due, zeroed), told) ↦
              let is : x ≡ w = some-injective _ _ (sym here ∙ found) in
              inr (
                restore_namespace-IsRestored ns n (enforce_namespace c ns s).state w _
                  (Any-map (IsReport c k n) (IsEntry (kind_name k) n) (λ r h. (h.0, h.1)) _ told)
                  (zeroed ∙ ap (λ z. some (scaled_to_zero c z)) is) fits)
        ]

-- ===== src/Enforce/Namespace/RestoreFrame.antt =====
-- What `RestoreNamespace` leaves alone.
use gpu_budget_operator.Base.{
  String, Option, none, some, List, [], ◌∷◌, Result, ok, err, ◌≡◌, refl, sym, ap, ◌∙◌, arith, inl,
  inr, Call-cases, Bool-cases, ◌==◌, ==_sound, if◌then◌else◌,
}
use gpu_budget_operator.Objects.{ScaleKind, EnforcedResource, deployment, stateful_set, replica_set}
use gpu_budget_operator.Cluster.{Cluster}
use gpu_budget_operator.Enforce.Report.{Error, sent}
use gpu_budget_operator.Enforce.Restore.{Restorer, restore_found, restore}
use gpu_budget_operator.Enforce.Scale.{
  kind_name, scale_restorer, restore_workload, restore_deployment, restore_stateful_set,
  restore_replica_set,
}
use gpu_budget_operator.Enforce.Jobs.{job_restorer, restore_job}
use gpu_budget_operator.Enforce.JobSets.{job_set_restorer, restore_job_set}
use gpu_budget_operator.Enforce.InferenceServices.{service_restorer, restore_inference_service}
use gpu_budget_operator.Enforce.Namespace.{restore_resource, restore_namespace}
use gpu_budget_operator.Enforce.Namespace.Frame.{LeavesAlone, IsApart}

module _ {S E T V : Type 0} (r : Restorer S E T) (look : S → V) (F : LeavesAlone r.api look) where
  sent_same : {A : Type 0} (call : Result E A × S) → (sent call).1 ≡ call.1
  sent_same (ok x, s) = refl
  sent_same (err e, s) = refl

  restore_found_alone :
      (o : Option (Result (Error E) T)) (s : S) → look (restore_found r o s).1 ≡ look s
  unfolding restore_found
  restore_found_alone none s = refl
  restore_found_alone (some (err e)) s = refl
  restore_found_alone (some (ok y)) s = ap look (sent_same (r.api.update y s)) ∙ F.update y s

  gotten :
      (ns n : String) (s s' : S) (x : T)
      → r.api.get ns n s ≡ (ok x, s')
      → restore r ns n s ≡ restore_found r (r.recover ns x) s'
  unfolding restore
  gotten ns n s s' x e = ground (arith, e)

  refused :
      (ns n : String) (s s' : S) (x : E)
      → r.api.get ns n s ≡ (err x, s')
      → (restore r ns n s).1 ≡ s'
  unfolding restore
  refused ns n s s' x e = ground (arith, e)

  pub restore_alone : (ns n : String) (s : S) → look (restore r ns n s).1 ≡ look s
  restore_alone ns n s = elim (Call-cases (r.api.get ns n s)) [
    | inl (x, s', e) ↦
        ap (λ t. look t.1) (gotten ns n s s' x e)
        ∙ restore_found_alone (r.recover ns x) s'
        ∙ ap (λ t. look t.1) (sym e)
        ∙ F.get ns n s
    | inr (x, s', e) ↦ ap look (refused ns n s s' x e) ∙ ap (λ t. look t.1) (sym e) ∙ F.get ns n s
  ]

branch :
    {S A V : Type 0} (look : S → V) (v : V) (k n : String) (x y : A × S)
    → (k ≡ n → look x.1 ≡ v)
    → look y.1 ≡ v
    → look (if k == n then x else y).1 ≡ v
branch look v k n x y p q = elim (Bool-cases (k == n)) [
  | inl e ↦ rw e (p (==_sound k n e))
  | inr e ↦ rw e q
]

-- A restored entry leaves alone what the restore of its own kind does.
pub restore_resource_cases :
    {V : Type 0} (c : Cluster) (look : c.State → V) (ns : String) (r : EnforcedResource)
    (s : c.State)
    → ((k : ScaleKind)
        → r.kind ≡ kind_name k
        → look (restore (scale_restorer c k) ns r.name s).1 ≡ look s)
    → (r.kind ≡ "JobSet" → look (restore (job_set_restorer c) ns r.name s).1 ≡ look s)
    → (r.kind ≡ "Job" → look (restore (job_restorer c) ns r.name s).1 ≡ look s)
    → (r.kind ≡ "InferenceService" → look (restore (service_restorer c) ns r.name s).1 ≡ look s)
    → look (restore_resource c ns r s).1 ≡ look s
unfolding restore_resource restore_deployment restore_replica_set restore_stateful_set
    restore_workload restore_job_set restore_job restore_inference_service
restore_resource_cases c look ns r s workload job_set job service =
    branch look _ r.kind "Deployment" _ _ (workload deployment) (
      branch look _ r.kind "ReplicaSet" _ _ (workload replica_set) (
        branch look _ r.kind "StatefulSet" _ _ (workload stateful_set) (
          branch look _ r.kind "JobSet" _ _ job_set (
            branch look _ r.kind "Job" _ _ job
              (branch look _ r.kind "InferenceService" _ _ service refl)))))

-- A reset calls nothing of the Pods, so what `look` sees may be theirs.
module _ {V : Type 0} (c : Cluster) (look : c.State → V)
    (workloads : (k : ScaleKind) → LeavesAlone (c.workloads k) look)
    (job_sets : LeavesAlone c.job_sets look) (jobs : LeavesAlone c.jobs look)
    (services : LeavesAlone c.inference_services look) where
  restore_resource_alone :
      (ns : String) (res : EnforcedResource) (s : c.State)
      → look (restore_resource c ns res s).1 ≡ look s
  restore_resource_alone ns res s =
      restore_resource_cases c look ns res s
        (λ k _. restore_alone (scale_restorer c k) look (workloads k) ns res.name s)
        (λ _. restore_alone (job_set_restorer c) look job_sets ns res.name s)
        (λ _. restore_alone (job_restorer c) look jobs ns res.name s)
        (λ _. restore_alone (service_restorer c) look services ns res.name s)

  pub restore_namespace_untouched :
      (ns : String) (rs : List EnforcedResource) (s : c.State)
      → look (restore_namespace c ns rs s).1 ≡ look s
  unfolding restore_namespace
  restore_namespace_untouched ns [] s = refl
  restore_namespace_untouched ns (x ∷ rs) s =
      restore_namespace_untouched ns rs (restore_resource c ns x s).1
      ∙ restore_resource_alone ns x s

pub restore_namespace_alone :
    {V : Type 0} (c : Cluster) (look : c.State → V) (a : IsApart c look) (ns : String)
    (rs : List EnforcedResource) (s : c.State)
    → look (restore_namespace c ns rs s).1 ≡ look s
restore_namespace_alone c look a =
    restore_namespace_untouched c look a.workloads a.job_sets a.jobs a.services

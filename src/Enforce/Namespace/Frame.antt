-- ===== src/Enforce/Namespace/Frame.antt =====
-- What the passes over the kinds, and `EnforceNamespace`, leave alone.
use gpu_budget_operator.Base.{
  All, String, List, [], ◌∷◌, ◌≡◌, refl, ◌∙◌, arith, inl, inr, Bool-cases, Call-cases, Result-cases,
  Option-cases,
}
use gpu_budget_operator.Objects.{Pod}
use gpu_budget_operator.Objects.Value.{Fields}
use gpu_budget_operator.Cluster.{Api, Cluster}
use gpu_budget_operator.Enforce.Gpu.{unstructured_requests_gpu}
use gpu_budget_operator.Enforce.Pass.{Marker, mark_loop, pass}
use gpu_budget_operator.Enforce.Pass.Steps.{
  mark_loop-skipped, mark_loop-unmarked, mark_loop-sent, mark_loop-refused, pass-listed,
  pass-unlisted,
}
use gpu_budget_operator.Enforce.Pods.{skips_pod, delete_loop, enforce_pods}
use gpu_budget_operator.Enforce.InferenceServices.{
  zero_service, service_loop, enforce_inference_services,
}
use gpu_budget_operator.Objects.{ScaleKind, deployment, stateful_set, replica_set}
use gpu_budget_operator.Enforce.Report.{Outcome}
use gpu_budget_operator.Enforce.Scale.{
  scale_marker, enforce_workloads, enforce_deployments, enforce_stateful_sets, enforce_replica_sets,
}
use gpu_budget_operator.Enforce.Jobs.{job_marker, enforce_jobs}
use gpu_budget_operator.Enforce.JobSets.{job_set_marker, enforce_job_sets}
use gpu_budget_operator.Enforce.Namespace.{run_steps, enforce_steps, enforce_namespace}

-- No call of the API changes what `look` sees.
pub record LeavesAlone {S E T V : Type 0} (api : Api S E T) (look : S → V) : Type 0 where
  pub list : (ns : String) (s : S) → look (api.list ns s).1 ≡ look s
  pub get : (ns n : String) (s : S) → look (api.get ns n s).1 ≡ look s
  pub update : (x : T) (s : S) → look (api.update x s).1 ≡ look s
  pub delete : (x : T) (s : S) → look (api.delete x s).1 ≡ look s

module _ {S E T V : Type 0} (m : Marker S E T) (look : S → V) (F : LeavesAlone m.api look) where
  mark_loop_alone : (ns : String) (xs : List T) (s : S) → look (mark_loop m ns xs s).state ≡ look s
  unfolding mark_loop
  mark_loop_alone ns [] s = refl
  mark_loop_alone ns (x ∷ xs) s = elim (Bool-cases (m.skips x)) [
    | inl skipped ↦ rw (mark_loop-skipped m ns x xs s skipped) (mark_loop_alone ns xs s)
    | inr due ↦ elim (Result-cases (m.mark ns x)) [
      | inr (e, p) ↦ rw (mark_loop-unmarked m ns x xs s e due p)
      | inl (y, p) ↦ elim (Call-cases (m.api.update y s)) [
        | inl (z, s', q) ↦
            rw (mark_loop-sent m ns x y xs s s' z due p q)
              (mark_loop_alone ns xs s' ∙ rw q at (F.update y s))
        | inr (e, s', q) ↦
            rw (mark_loop-refused m ns x y xs s s' e due p q) (rw q at (F.update y s))
      ]
    ]
  ]

  pub pass_alone : (ns : String) (s : S) → look (pass m ns s).state ≡ look s
  pass_alone ns s = elim (Call-cases (m.api.list ns s)) [
    | inl (xs, s', e) ↦
        rw (pass-listed m ns s s' xs e) (mark_loop_alone ns xs s' ∙ rw e at (F.list ns s))
    | inr (e, s', p) ↦ rw (pass-unlisted m ns s s' e p) (rw p at (F.list ns s))
  ]

module _ {V : Type 0} (c : Cluster) (look : c.State → V) where
  delete_loop_alone :
      LeavesAlone c.pods look
      → (ns : String) (ps : List (Pod c.Quantity)) (s : c.State)
      → look (delete_loop c ns ps s).state ≡ look s
  unfolding delete_loop
  delete_loop_alone F ns [] s = refl
  delete_loop_alone F ns (p ∷ ps) s = elim (Bool-cases (skips_pod c p)) [
    | inl skipped ↦ rw (skipped, delete_loop) (delete_loop_alone F ns ps s)
    | inr due ↦ elim (Call-cases (c.pods.delete p s)) [
      | inl (x, s', q) ↦
          let rest = delete_loop_alone F ns ps s' ∙ rw q at (F.delete p s) in
          ground (arith, due, q, rest)
      | inr (e, s', q) ↦
          let here = rw q at (F.delete p s) in
          let rest = delete_loop_alone F ns ps s' ∙ here in ground (arith, due, q, rest, here)
    ]
  ]

  pub enforce_pods_alone :
      LeavesAlone c.pods look
      → (ns : String) (s : c.State) → look (enforce_pods c ns s).state ≡ look s
  unfolding enforce_pods
  enforce_pods_alone F ns s = elim (Call-cases (c.pods.list ns s)) [
    | inl (ps, s', e) ↦
        let rest = delete_loop_alone F ns ps s' ∙ rw e at (F.list ns s) in ground (arith, e, rest)
    | inr (e, s', p) ↦ ground (arith, p, F.list ns s)
  ]

  service_loop_alone :
      LeavesAlone c.inference_services look
      → (ns : String) (os : List Fields) (s : c.State)
      → look (service_loop c ns os s).state ≡ look s
  unfolding service_loop
  service_loop_alone F ns [] s = refl
  service_loop_alone F ns (o ∷ os) s = elim (Bool-cases (unstructured_requests_gpu c o)) [
    | inr skipped ↦ rw (skipped, service_loop) (service_loop_alone F ns os s)
    | inl due ↦ elim (Result-cases (zero_service c o)) [
      | inr (e, p) ↦ rw (due, p, service_loop) refl
      | inl (found, p) ↦ elim (Option-cases found) [
        | inl idle ↦ rw (due, p, idle, service_loop) (service_loop_alone F ns os s)
        | inr (sending, q) ↦ elim (Call-cases (c.inference_services.update sending.0 s)) [
          | inl (x, s', r) ↦
              let rest = service_loop_alone F ns os s' ∙ rw r at (F.update sending.0 s) in
              ground (arith, due, p, q, r, rest)
          | inr (e, s', r) ↦
              let here = rw r at (F.update sending.0 s) in ground (arith, due, p, q, r, here)
        ]
      ]
    ]
  ]

  pub enforce_inference_services_alone :
      LeavesAlone c.inference_services look
      → (ns : String) (s : c.State) → look (enforce_inference_services c ns s).state ≡ look s
  unfolding enforce_inference_services
  enforce_inference_services_alone F ns s = elim (Call-cases (c.inference_services.list ns s)) [
    | inl (os, s', e) ↦
        let rest = service_loop_alone F ns os s' ∙ rw e at (F.list ns s) in ground (arith, e, rest)
    | inr (e, s', p) ↦ ground (arith, p, F.list ns s)
  ]

run_steps_alone :
    {S E V : Type 0} (look : S → V) (fs : List (String → S → Outcome E S))
    → All (λ f. (ns : String) (s : S) → look (f ns s).state ≡ look s) fs
    → (ns : String) (s : S) → look (run_steps fs ns s).state ≡ look s
unfolding run_steps
run_steps_alone look [] h ns s = refl
run_steps_alone look (f ∷ fs) (h, hs) ns s = run_steps_alone look fs hs ns (f ns s).state ∙ h ns s

-- No call of the enforcement changes what `look` sees.
pub record IsApart (c : Cluster) {V : Type 0} (look : c.State → V) : Type 0 where
  pub workloads : (k : ScaleKind) → LeavesAlone (c.workloads k) look
  pub job_sets : LeavesAlone c.job_sets look
  pub jobs : LeavesAlone c.jobs look
  pub services : LeavesAlone c.inference_services look
  pub pods : LeavesAlone c.pods look

pub enforce_namespace_alone :
    {V : Type 0} (c : Cluster) (look : c.State → V)
    → IsApart c look
    → (ns : String) (s : c.State) → look (enforce_namespace c ns s).state ≡ look s
unfolding enforce_namespace enforce_deployments enforce_stateful_sets enforce_replica_sets
    enforce_workloads enforce_job_sets enforce_jobs
enforce_namespace_alone c look a ns s =
    run_steps_alone look (enforce_steps c)
      (
        pass_alone (scale_marker c deployment) look (a.workloads deployment),
        (
          pass_alone (scale_marker c stateful_set) look (a.workloads stateful_set),
          (
            pass_alone (scale_marker c replica_set) look (a.workloads replica_set),
            (
              pass_alone (job_set_marker c) look a.job_sets,
              (
                pass_alone (job_marker c) look a.jobs,
                (
                  enforce_inference_services_alone c look a.services,
                  (enforce_pods_alone c look a.pods, tt),
                ),
              ),
            ),
          ),
        ),
      )
      ns s

-- ===== src/Enforce/Namespace.antt =====
-- `EnforceNamespace` and `RestoreNamespace`. `errors.Join` is nil without an error; otherwise the
-- model keeps the list that it joins.
pub mod Frame
pub mod Telling
pub mod Told
pub mod RestoreFrame
pub mod Entries
pub mod Attempted
pub mod Jobs
pub mod JobSets
pub mod Services
pub mod Pods
use gpu_budget_operator.Base.{
  String, ◌<>◌, Bool, true, false, Option, none, some, List, [], ◌∷◌, ◌++◌, ◌==◌, if◌then◌else◌,
}
use gpu_budget_operator.Objects.{EnforcedResource, deployment, stateful_set, replica_set}
use gpu_budget_operator.Cluster.{Cluster}
use gpu_budget_operator.Enforce.Report.{Error, wrapped, Outcome}
use gpu_budget_operator.Enforce.Scale.{
  enforce_deployments, enforce_stateful_sets, enforce_replica_sets, restore_deployment,
  restore_stateful_set, restore_replica_set,
}
use gpu_budget_operator.Enforce.JobSets.{enforce_job_sets, restore_job_set}
use gpu_budget_operator.Enforce.Jobs.{enforce_jobs, restore_job}
use gpu_budget_operator.Enforce.InferenceServices.{
  enforce_inference_services, restore_inference_service,
}
use gpu_budget_operator.Enforce.Pods.{enforce_pods}

-- What a run of several steps returns, with the errors still apart.
pub record Run (E S : Type 0) : Type 0 where
  pub resources : List EnforcedResource
  pub errors : List (Error E)
  pub state : S

-- `errors.Join(errs...)`
abbrev pub join : {E : Type 0} → List (Error E) → Option (List (Error E))
join [] = none
join (e ∷ es) = some (e ∷ es)

-- `if err != nil { errs = append(errs, err) }`
abbrev pub keep : {E : Type 0} → Option (Error E) → List (Error E) → List (Error E)
keep none es = es
keep (some e) es = e ∷ es

module _ {S E : Type 0} where
  -- Each step runs on the state that the one before it left, also after an error.
  unfoldable pub run_steps : List (String → S → Outcome E S) → String → S → Run E S
  run_steps [] ns s = record { resources = []; errors = []; state = s }
  run_steps (f ∷ fs) ns s =
      let out = f ns s in
      let rest = run_steps fs ns out.state in
      record {
        resources = out.resources ++ rest.resources;
        errors = keep out.error rest.errors;
        state = rest.state;
      }

module _ (c : Cluster) where
  open c use {State, Err}

  abbrev pub enforce_steps : List (String → State → Outcome Err State)
  enforce_steps =
      enforce_deployments c
      ∷ enforce_stateful_sets c
      ∷ enforce_replica_sets c
      ∷ enforce_job_sets c
      ∷ enforce_jobs c
      ∷ enforce_inference_services c
      ∷ enforce_pods c
      ∷ []

  unfoldable pub enforce_namespace : String → State → Run Err State
  unfolding run_steps
  enforce_namespace = run_steps enforce_steps

  -- The switch on the kind; a Pod and an unknown kind are passed over.
  unfoldable pub restore_resource : String → EnforcedResource → State → Option (Error Err) × State
  restore_resource ns r s =
      if r.kind == "Deployment"
      then restore_deployment c ns r.name s
      else if r.kind == "ReplicaSet"
      then restore_replica_set c ns r.name s
      else if r.kind == "StatefulSet"
      then restore_stateful_set c ns r.name s
      else if r.kind == "JobSet"
      then restore_job_set c ns r.name s
      else if r.kind == "Job"
      then restore_job c ns r.name s
      else if r.kind == "InferenceService"
      then restore_inference_service c ns r.name s
      else (none, s)

  abbrev pub restoring : EnforcedResource → Option (Error Err) → Option (Error Err)
  restoring r none = none
  restoring r (some e) = some (wrapped ("restoring " <> r.kind <> "/" <> r.name) e)

  -- Every entry is attempted, also after one that fails.
  unfoldable pub restore_namespace :
      String → List EnforcedResource → State → List (Error Err) × State
  unfolding restore_resource
  restore_namespace ns [] s = ([], s)
  restore_namespace ns (r ∷ rs) s =
      let (e, s') = restore_resource ns r s in
      let (es, s'') = restore_namespace ns rs s' in (keep (restoring r e) es, s'')

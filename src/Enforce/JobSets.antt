-- ===== src/Enforce/JobSets.antt =====
-- `enforceJobSets` and `restoreJobSet`, on unstructured objects.
pub mod Changed
pub mod Suspended
use gpu_budget_operator.Base.{
  ℕ, String, ◌<>◌, Bool, true, false, not, ◌||◌, Option, none, some, List, [], ◌∷◌, Result, ok, err,
  ◌==◌, if◌then◌else◌,
}
use gpu_budget_operator.Base.Dict.{read, make, insert, erase}
use gpu_budget_operator.Objects.Value.{Value, bool, Fields}
use gpu_budget_operator.Cluster.{Cluster, is_no_kind_match}
use gpu_budget_operator.Enforce.Gpu.{unstructured_requests_gpu}
use gpu_budget_operator.Enforce.Report.{
  Error, client, message, wrapped, Outcome, resource, suspended_action,
}
use gpu_budget_operator.Enforce.Pass.{Marker, pass}
use gpu_budget_operator.Enforce.Restore.{Restorer, restore}
use gpu_budget_operator.Enforce.Jobs.{annotation_original_suspend, is_suspended}

abbrev pub suspend_path : List String
suspend_path = "spec" ∷ "suspend" ∷ []

-- `fmt.Sprintf("%t", b)`
abbrev pub sprintf_t : Bool → String
sprintf_t true = "true"
sprintf_t false = "false"

module _ (c : Cluster) where
  open c use {State, Err, is_not_found, job_sets, now, unstructured}
  open c.unstructured use {
    nested_bool, set_nested_field, get_annotations, set_annotations, get_name, get_namespace,
  }

  -- `found && suspended`
  abbrev pub found_suspended : Fields → Bool
  found_suspended o = is_suspended (nested_bool o suspend_path)

  unfoldable pub skips_job_set : Fields → Bool
  skips_job_set o = found_suspended o || not (unstructured_requests_gpu c o)

  abbrev pub annotated : Fields → Fields
  annotated o = set_annotations o (
      insert annotation_original_suspend (sprintf_t (found_suspended o)) (make (get_annotations o)))

  abbrev pub helper_error : String → String → String → String → Error Err
  helper_error doing ns name e =
      wrapped (doing <> " suspend on jobset " <> ns <> "/" <> name) (message e)

  unfoldable pub suspend_job_set : String → Fields → Result (Error Err) Fields
  suspend_job_set ns o = elim (set_nested_field (annotated o) (bool true) suspend_path) [
    | err e ↦ err (helper_error "setting" ns (get_name o) e)
    | ok o' ↦ ok o'
  ]

  abbrev pub job_set_marker : Marker State Err Fields
  job_set_marker = record {
    api = job_sets;
    name = get_name;
    namespace = get_namespace;
    list_failed = λ ns e.
        if is_no_kind_match c e
        then none
        else some (wrapped ("listing jobsets in " <> ns) (client e));
    skips = skips_job_set;
    mark = suspend_job_set;
    update_failed = λ ns o e. wrapped ("suspending jobset " <> ns <> "/" <> get_name o) (client e);
    report = λ name t. resource "jobset.x-k8s.io/v1alpha2" "JobSet" name suspended_action t;
    now = now;
  }

  unfoldable pub enforce_job_sets : String → State → Outcome Err State
  enforce_job_sets = pass job_set_marker

  -- The object that a restore sends, from the suspension that the annotation keeps.
  unfoldable pub resume_job_set : String → Fields → Bool → Result (Error Err) Fields
  resume_job_set ns o original = elim (set_nested_field o (bool original) suspend_path) [
    | err e ↦ err (helper_error "restoring" ns (get_name o) e)
    | ok o' ↦ ok (set_annotations o' (erase annotation_original_suspend (make (get_annotations o))))
  ]

  unfoldable pub recover_job_set : String → Fields → Option (Result (Error Err) Fields)
  recover_job_set ns o = elim (read annotation_original_suspend (get_annotations o)) [
    | none ↦ none
    | some raw ↦ some (resume_job_set ns o (raw == "true"))
  ]

  abbrev pub job_set_restorer : Restorer State Err Fields
  job_set_restorer = record {
    api = job_sets;
    is_not_found = is_not_found;
    recover = recover_job_set;
  }

  unfoldable pub restore_job_set : String → String → State → Option (Error Err) × State
  restore_job_set = restore job_set_restorer

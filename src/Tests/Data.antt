-- ===== src/Tests/Data.antt =====
-- A namespace with a workload of each kind.
use gpu_budget_operator.Base.{ℕ, String, none, some, [], ◌∷◌}
use gpu_budget_operator.Base.Int.{pos}
use gpu_budget_operator.Budget.{GpuBudget}
use gpu_budget_operator.Objects.{Meta, PodSpec, Workload, Job, Pod}
use gpu_budget_operator.Objects.Value.{
  Value, int, text, object, array, Fields, end, field, nil, cons,
}
use gpu_budget_operator.Tests.Memory.{Memory}

abbrev pub named : String → Meta
named n = record { name = n; namespace = "team"; owner_references = []; annotations = none }

abbrev pub two_gpus : PodSpec ℕ
two_gpus = record {
  containers = record { requests = some (("nvidia.com/gpu", 2) ∷ []); limits = none } ∷ [];
  init_containers = [];
}

abbrev pub no_gpus : PodSpec ℕ
no_gpus = record {
  containers = record { requests = none; limits = none } ∷ [];
  init_containers = [];
}

abbrev pub trainer : Workload ℕ
trainer = record { meta = named "trainer"; replicas = some (pos 3); template = two_gpus }

abbrev pub web : Workload ℕ
web = record { meta = named "web"; replicas = none; template = no_gpus }

abbrev pub tuning : Job ℕ
tuning = record { meta = named "tuning"; suspend = none; template = two_gpus }

abbrev pub notebook : Pod ℕ
notebook = record { meta = named "notebook"; deletion_timestamp = none; spec = two_gpus }

abbrev pub called : String → Value
called n = object (field "name" (text n) (field "namespace" (text "team") end))

abbrev pub gpu_template : Value
gpu_template = object (
    field "resources" (object (field "limits" (object (field "nvidia.com/gpu" (text "4") end)) end))
      end)

abbrev pub sweep : Fields
sweep =
    field "metadata" (called "sweep")
      (field "spec" (object (field "replicatedJobs" (array (cons gpu_template nil)) end)) end)

abbrev pub chat : Fields
chat = field "metadata" (called "chat") (
    field "spec"
      (object (
        field "predictor"
          (object (field "minReplicas" (int (pos 1)) (field "model" gpu_template end))) end))
      end)

-- A budget of one GPU-hour, with a workload that was enforced before.
abbrev pub budget : GpuBudget ℕ
budget = record {
  name = "gpus";
  namespace = "team";
  annotations = none;
  generation = 1;
  resource_version = "7";
  spec = record {
    period = "Monthly";
    gpu_hours_limit = some 1;
    dollars_limit = some 100;
    query = "";
    check_interval = pos 0;
  };
  status = record {
    current_period_start = none;
    gpu_hours_used = 0;
    gpu_hours_by_type = [];
    dollars_used = 0;
    phase = "Enforced";
    last_checked_time = none;
    last_enforcement_time = some 900;
    enforced_resources =
        record {
          api_version = "apps/v1";
          kind = "Deployment";
          name = "gone";
          action = "ScaledToZero";
          enforced_at = 900;
        }
        ∷ [];
    observed_generation = 1;
    conditions = [];
  };
}

abbrev pub team : Memory
team = record {
  deployments = trainer ∷ web ∷ [];
  stateful_sets = [];
  replica_sets = [];
  jobs = tuning ∷ [];
  pods = notebook ∷ [];
  job_sets = sweep ∷ [];
  services = chat ∷ [];
  budgets = budget ∷ [];
}

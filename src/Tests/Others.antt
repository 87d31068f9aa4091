-- ===== src/Tests/Others.antt =====
-- The theorems on Pods, InferenceServices, the GPU tests and the printed counts at concrete data.
use gpu_budget_operator.Tests.Store.{find, listed}
use gpu_budget_operator.Base.{
  string_dec, Option, some, [], ◌++◌, ◌≡◌, refl, ◌↔◌, Any, Bool, true, Result, ok, arith,
}
use gpu_budget_operator.Base.Int.{pos, negsuc}
use gpu_budget_operator.Base.Dict.{insert, read, Dict}
use gpu_budget_operator.Fmt.{sprintf_d, sscanf_d}
use gpu_budget_operator.Fmt.Scan.{sscanf_d-sprintf_d}
use gpu_budget_operator.Objects.Value.{object, Fields}
use gpu_budget_operator.Cluster.{ComponentReplicaSpec}
use gpu_budget_operator.Enforce.Gpu.{pod_template_requests_gpu, scan_for_gpu_request}
use gpu_budget_operator.Enforce.Gpu.Occurs.{
  RequestsGpu, HasGpu, pod_template_requests_gpu_iff, scan_for_gpu_request_iff,
}
use gpu_budget_operator.Enforce.Report.{Error}
use gpu_budget_operator.Enforce.Pods.{skips_pod, enforce_pods}
use gpu_budget_operator.Enforce.Pods.Deleted.{IsSettled, enforce_pods-IsSettled, enforce_pods_again}
use gpu_budget_operator.Enforce.InferenceServices.{
  zero_bounds, is_zeroed, zero_component, zero_components, recorded, zero_service,
}
use gpu_budget_operator.Enforce.InferenceServices.Captured.{zero_service_captures}
use gpu_budget_operator.Enforce.InferenceServices.Progress.{Extends, HasNew}
use gpu_budget_operator.Tests.Objects.{set_path, get_path, metadata, helpers-IsUnstructured}
use gpu_budget_operator.Tests.Memory.{
  Memory, memory, memory-IsJson, pod_view, pods-IsLawful, pods-IsGraceful, terminate,
}
use gpu_budget_operator.Tests.Data.{two_gpus, notebook, sweep, chat, team}

abbrev after : Memory
after = (enforce_pods memory "team" team).state

enforce_pods-IsSettled_example :
    IsSettled memory pod_view pods-IsLawful pods-IsGraceful notebook
      (pod_view "team" after "notebook")
unfolding enforce_pods listed string_dec skips_pod pod_template_requests_gpu read terminate find
enforce_pods-IsSettled_example =
    enforce_pods-IsSettled memory pod_view pods-IsLawful pods-IsGraceful "team" team "notebook"
      notebook refl refl

enforce_pods_again_example :
    pod_view "team" (enforce_pods memory "team" after).state "notebook"
    ≡ pod_view "team" after "notebook"
unfolding enforce_pods listed string_dec skips_pod pod_template_requests_gpu read terminate find
enforce_pods_again_example =
    enforce_pods_again memory pod_view pods-IsLawful pods-IsGraceful "team" team "notebook" refl

-- The Pod still stands after the pass, with its deletion timestamp.
terminating_test :
    pod_view "team" after "notebook" ≡ some (record notebook { deletion_timestamp = some 1000 })
unfolding enforce_pods listed string_dec skips_pod pod_template_requests_gpu read terminate find
terminating_test = refl

-- What is sent for the service.
abbrev sent_for : Result (Error memory.Err) (Option (Fields × Bool)) → Fields
sent_for (ok (some (o, newly))) = o
sent_for _ = chat

abbrev pub zeroed_chat : Fields
zeroed_chat = sent_for (zero_service memory chat)

zero_service_captures_example :
    (m' : Dict ComponentReplicaSpec) × (recorded memory zeroed_chat ≡ ok m')
    × Extends [] m'
    × ((true ≡ true) ↔ HasNew [] m')
unfolding recorded read metadata string_dec zero_service zero_components zero_component get_path
    is_zeroed zero_bounds set_path insert
zero_service_captures_example =
    zero_service_captures memory helpers-IsUnstructured memory-IsJson chat zeroed_chat true [] refl
      refl

pod_template_requests_gpu_iff_example :
    (pod_template_requests_gpu memory two_gpus ≡ true)
    ↔ Any (RequestsGpu memory) (two_gpus.containers ++ two_gpus.init_containers)
pod_template_requests_gpu_iff_example = pod_template_requests_gpu_iff memory refl two_gpus

scan_for_gpu_request_iff_example :
    (scan_for_gpu_request memory (object sweep) ≡ true) ↔ HasGpu memory (object sweep)
scan_for_gpu_request_iff_example = scan_for_gpu_request_iff memory (object sweep)

sscanf_d-sprintf_d_example : sscanf_d (sprintf_d (negsuc 41)) ≡ some (negsuc 41)
sscanf_d-sprintf_d_example = sscanf_d-sprintf_d (negsuc 41) (omega arith)

sprintf_d_test : sprintf_d (pos 120) ≡ "120"
unfolding sprintf_d
sprintf_d_test = refl

sscanf_d_test : sscanf_d " +12abc" ≡ some (pos 12)
unfolding sscanf_d
sscanf_d_test = refl

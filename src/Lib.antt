-- ===== src/Lib.antt =====
-- Verification of gpu-budget-operator, a Kubernetes operator that scales down, suspends or deletes
-- the GPU workloads of a namespace whose GPU budget is used up, and restores them on a manual reset.
--
-- The parts. Each enforce function lists the objects of one kind in a namespace, passes over those
-- that need nothing, writes the original count or suspension into an annotation, zeroes or suspends
-- the object, and returns what it acted on beside a possible error. `EnforceNamespace` runs the
-- seven functions in order, also after one that fails. `RestoreNamespace` goes through the resources
-- that were recorded and puts each back from its annotation. The reconciler measures a namespace's
-- GPU-hours in Prometheus, prices them, and enforces when a limit is exceeded or anything is still
-- enforced; it merges what was acted on into the status, and empties it only in a manual reset.
--
-- Where they stand.
--   Base, Fmt          shared types and lemmas; `Sprintf` and `Sscanf` with "%d" at int32
--   Objects, Cluster   the API objects with the fields that the code names; the Kubernetes API
--   Enforce.Gpu        enforce/enforce.go, podTemplateRequestsGPU and scanForGPURequest
--   Enforce.Pass       the loop that the five scale and suspend functions share
--   Enforce.Restore    the get, recover, update of the restore functions
--   Enforce.Scale      enforceDeployments, enforceStatefulSets, enforceReplicaSets and their restores
--   Enforce.Jobs, Enforce.JobSets, Enforce.Pods, Enforce.InferenceServices
--                      the functions of these kinds; unstructured objects are trees of values
--   Enforce.Namespace  EnforceNamespace and RestoreNamespace; its modules Jobs, JobSets, Pods and
--                      Services follow one kind of resource through all of a pass
--   Budget             v1alpha1/gpubudget_types.go
--   CommandLine        main.go, gpuRatesFlag and the values of --gpu-rate; Flags for the parsing of
--                      the arguments by package flag, Main for `main`
--   Metrics            metrics/prometheus.go, BuildGPUHoursQuery and GPUHoursByType; Rendered for
--                      templates with placeholders; Transport for NewClient, buildTransport and
--                      RoundTrip
--   Controllers        controllers/: Merge for mergeEnforced, Rates for rates.go, Period for
--                      period.go, Usage for computeUsage, Status for what is written into a
--                      budget, PromClient for the steps of prometheusClient between callers that
--                      share promClientMu, Reconcile for Reconcile and its methods;
--                      Reconcile.Standing is the diagram of the stored status that they follow
--   Tests              a cluster in memory that satisfies every assumption, and the witnesses
-- The functions keep the source's names in snake_case. State is passed along: every API call takes
-- the outside state and returns a new one, and a function's error comes back beside its results.
--
-- Parameters (Cluster): client-go's calls, apimachinery's quantities, error predicates and helpers
-- for unstructured objects, encoding/json at the replica records, and the clock. What a theorem
-- needs of them is a hypothesis: Cluster.Lawful for a store that nobody else writes to meanwhile
-- (every call may still fail), Cluster.Deletion for the deletion of a Pod, which may let it stand
-- with a deletion timestamp, Cluster.Helpers for the helpers, Controllers.Reconcile.Persisted for
-- the stored status and the retries, Controllers.Reconcile.Standing.Refined for `Update` beside a
-- status subresource and for what the Prometheus calls leave alone. Controllers.Host has the calls
-- on budgets, the Prometheus client, the retry helper and the printing of texts; Budget.Floats has
-- float64, of which no theorem assumes a law; Metrics.Transport has the files, the certificates
-- and the base transport. Upper-casing is an argument, asked at most to be the same done twice and
-- to leave no name empty. A JSON object is read into distinct keys
-- (Enforce.InferenceServices.Recalled). The flags that other packages register, and the manager of
-- controller-runtime with its start, are arguments of CommandLine.
--
-- Bounds. Counts are integers, and a round trip through an annotation asks for an int32. Fuel is
-- spent in printing a number, one unit a digit, and in finding a day's year, one unit a year; the
-- number, or the day's, plus one is given.
--
-- Not modelled: HTTP and TLS themselves; the registration of the types and the generated deep
-- copies; the logger; the texts of wrapped parse errors, whose raw annotation is kept; an annotation
-- that holds the JSON null. Reconciles interleave in prometheusClient only; the other theorems
-- follow one at a time.
pub mod Base
pub mod Fmt
pub mod Objects
pub mod Cluster
pub mod Enforce
pub mod Budget
pub mod CommandLine
pub mod Metrics
pub mod Controllers
pub mod Tests

-- ===== src/Tests/Memory.antt =====
-- A cluster in memory: a store for each API, and nobody else who writes.
use gpu_budget_operator.Base.{
  ℕ, String, Option, none, some, List, [], ◌∷◌, ◌≡◌, refl, ap, subst, eqb, inl, inr, arith,
  Option-cases, Result, ok, err, ==_refl, ==_sound, true, ◌≢◌,
}
use gpu_budget_operator.Base.Dict.{Dict, lookup, insert, lookup-insert}
use gpu_budget_operator.Base.Dict.Keys.{DistinctKeys, insert-DistinctKeys}
use gpu_budget_operator.Enforce.InferenceServices.Recalled.{IsDistinct}
use gpu_budget_operator.Base.Int.{ℤ, pos}
use gpu_budget_operator.Fmt.{sscanf_d}
use gpu_budget_operator.Objects.{
  Workload, Job, Pod, ScaleKind, deployment, stateful_set, replica_set,
}
use gpu_budget_operator.Objects.Value.{Fields}
use gpu_budget_operator.Budget.{GpuBudget}
use gpu_budget_operator.Cluster.{Api, ComponentReplicaSpec, Cluster}
use gpu_budget_operator.Cluster.Lawful.{IsLawful}
use gpu_budget_operator.Cluster.Deletion.{IsEnding, IsGraceful}
use gpu_budget_operator.Cluster.Helpers.{IsJson}
use gpu_budget_operator.Tests.Store.{
  find, missing, Refusal, is_missing, is_no_such_kind, store, stored,
}
use gpu_budget_operator.Tests.Store.Listed.{find-place}
use gpu_budget_operator.Enforce.Namespace.Frame.{LeavesAlone}
use gpu_budget_operator.Tests.Store.Laws.{store-IsLawful, store-LeavesAlone}
use gpu_budget_operator.Tests.Json.{print, parse, parse-print}
use gpu_budget_operator.Tests.Objects.{helpers}

pub record Memory : Type 0 where
  pub deployments : List (Workload ℕ)
  pub stateful_sets : List (Workload ℕ)
  pub replica_sets : List (Workload ℕ)
  pub jobs : List (Job ℕ)
  pub pods : List (Pod ℕ)
  pub job_sets : List Fields
  pub services : List Fields
  pub budgets : List (GpuBudget ℕ)

abbrev quantity_of : Option ℤ → Option ℕ
quantity_of (some (pos n)) = some n
quantity_of _ = none

abbrev pub held : ScaleKind → Memory → List (Workload ℕ)
held deployment m = m.deployments
held stateful_set m = m.stateful_sets
held replica_set m = m.replica_sets

abbrev pub hold : ScaleKind → List (Workload ℕ) → Memory → Memory
hold deployment xs m = record m { deployments = xs }
hold stateful_set xs m = record m { stateful_sets = xs }
hold replica_set xs m = record m { replica_sets = xs }

abbrev pub workload_store : ScaleKind → Api Memory Refusal (Workload ℕ)
workload_store k = store (λ w. w.meta.name) (λ w. w.meta.namespace) (held k) (hold k)

abbrev pub job_store : Api Memory Refusal (Job ℕ)
job_store =
    store (λ j. j.meta.name) (λ j. j.meta.namespace) (λ m. m.jobs) (λ xs m. record m { jobs = xs })

-- A deletion sets the deletion timestamp, and the Pod stands on.
unfoldable pub terminate : Option (Pod ℕ) → Memory → Result Refusal (Unit {0}) × Memory
terminate none m = (err missing, m)
terminate (some p) m =
    (ok tt, record m { pods = record p { deletion_timestamp = some 1000 } ∷ m.pods })

abbrev pub pod_store : Api Memory Refusal (Pod ℕ)
pod_store =
    record (store (λ p. p.meta.name) (λ p. p.meta.namespace) (λ m. m.pods)
      (λ xs m. record m { pods = xs })) {
        delete = λ p m.
            terminate
              (find (λ q. q.meta.name) (λ q. q.meta.namespace) p.meta.namespace p.meta.name m.pods)
              m;
      }

abbrev pub job_set_store : Api Memory Refusal Fields
job_set_store =
    store helpers.get_name helpers.get_namespace (λ m. m.job_sets)
      (λ xs m. record m { job_sets = xs })

abbrev pub service_store : Api Memory Refusal Fields
service_store =
    store helpers.get_name helpers.get_namespace (λ m. m.services)
      (λ xs m. record m { services = xs })

-- A map with each key once: the first entry of a key counts.
unfoldable pub tidy : Dict ComponentReplicaSpec → Dict ComponentReplicaSpec
unfolding insert
tidy [] = []
tidy ((k, v) ∷ d) = insert k v (tidy d)

abbrev tidied : Option (Dict ComponentReplicaSpec) → Option (Dict ComponentReplicaSpec)
tidied none = none
tidied (some m) = some (tidy m)

tidy-DistinctKeys : (d : Dict ComponentReplicaSpec) → DistinctKeys (tidy d)
unfolding tidy
tidy-DistinctKeys [] = tt
tidy-DistinctKeys ((k, v) ∷ d) = insert-DistinctKeys k v (tidy d) (tidy-DistinctKeys d)

lookup-tidy : (j : String) (d : Dict ComponentReplicaSpec) → lookup j (tidy d) ≡ lookup j d
unfolding tidy lookup
lookup-tidy j [] = refl
lookup-tidy j ((k, v) ∷ d) = ground (arith, lookup-insert j k v (tidy d), lookup-tidy j d)

-- Quantities are whole numbers, and the clock stands at 1000.
abbrev pub memory : Cluster
memory = record {
  State = Memory;
  Err = Refusal;
  Quantity = ℕ;
  is_not_found = is_missing;
  is_no_match = is_no_such_kind;
  zero_quantity = 0;
  is_zero = λ q. eqb q 0;
  parse_quantity = λ s. quantity_of (sscanf_d s);
  unstructured = helpers;
  marshal = print;
  unmarshal = λ s. tidied (parse s);
  workloads = workload_store;
  jobs = job_store;
  pods = pod_store;
  job_sets = job_set_store;
  inference_services = service_store;
  now = λ m. 1000;
}

pub memory-IsJson : IsJson memory
memory-IsJson m = (tidy m, ap tidied (parse-print m), λ k. lookup-tidy k m)

pub memory-IsDistinct : IsDistinct memory
memory-IsDistinct raw m e = elim (Option-cases (parse raw)) [
  | inl p ↦ absurd (ground (arith, e, p))
  | inr (d, p) ↦ subst DistinctKeys (ground (arith, e, p)) (tidy-DistinctKeys d)
]

abbrev pub workload_view : ScaleKind → String → Memory → String → Option (Workload ℕ)
workload_view k = stored (λ w. w.meta.name) (λ w. w.meta.namespace) (held k) (hold k)

held-hold : (k : ScaleKind) (xs : List (Workload ℕ)) (m : Memory) → held k (hold k xs m) ≡ xs
held-hold deployment xs m = refl
held-hold stateful_set xs m = refl
held-hold replica_set xs m = refl

pub workloads-IsLawful :
    (k : ScaleKind)
    → IsLawful
        (λ w. w.meta.name)
        (λ w. w.meta.namespace)
        (memory.workloads k)
        memory.is_not_found
        (workload_view k)
workloads-IsLawful k = store-IsLawful _ _ (held k) (hold k) (held-hold k)

abbrev pub job_view : String → Memory → String → Option (Job ℕ)
job_view =
    stored (λ j. j.meta.name) (λ j. j.meta.namespace) (λ m. m.jobs) (λ xs m. record m { jobs = xs })

pub jobs-IsLawful :
    IsLawful (λ j. j.meta.name) (λ j. j.meta.namespace) memory.jobs memory.is_not_found job_view
jobs-IsLawful = store-IsLawful _ _ (λ m. m.jobs) (λ xs m. record m { jobs = xs }) (λ xs m. refl)

abbrev pub pod_view : String → Memory → String → Option (Pod ℕ)
pod_view =
    stored (λ p. p.meta.name) (λ p. p.meta.namespace) (λ m. m.pods) (λ xs m. record m { pods = xs })

pub pods-IsLawful :
    IsLawful (λ p. p.meta.name) (λ p. p.meta.namespace) memory.pods memory.is_not_found pod_view
pods-IsLawful =
    let base =
      store-IsLawful (λ (p : Pod ℕ). p.meta.name) (λ p. p.meta.namespace) (λ (m : Memory). m.pods)
        (λ xs m. record m { pods = xs }) (λ xs m. refl) in
    record {
      list_ok = base.list_ok;
      list_err = base.list_err;
      update_ok = base.update_ok;
      update_err = base.update_err;
      get_ok = base.get_ok;
      get_err = base.get_err;
    }

-- What a write of the Pods leaves alone, their calls leave alone.
pub pods-LeavesAlone :
    {V : Type 0} (look : Memory → V)
    → ((xs : List (Pod ℕ)) (m : Memory) → look (record m { pods = xs }) ≡ look m)
    → LeavesAlone memory.pods look
unfolding terminate
pods-LeavesAlone look h =
    let base =
      store-LeavesAlone (λ (p : Pod ℕ). p.meta.name) (λ p. p.meta.namespace)
        (λ (m : Memory). m.pods) (λ xs m. record m { pods = xs }) look h in
    record {
      list = base.list;
      get = base.get;
      update = base.update;
      delete = λ p m. elim (Option-cases (pod_view p.meta.namespace m p.meta.name)) [
        | inl e ↦ rw e refl
        | inr (q, e) ↦ rw e (h _ m)
      ];
    }

pods-delete_ok :
    (ns : String) (p : Pod ℕ) (s s' : Memory)
    → p.meta.namespace ≡ ns
    → memory.pods.delete p s ≡ (ok tt, s')
    → ((q : Pod ℕ)
        → pod_view ns s p.meta.name ≡ some q
        → IsEnding memory q (pod_view ns s' p.meta.name))
      × ((n : String) → n ≢ p.meta.name → pod_view ns s' n ≡ pod_view ns s n)
unfolding terminate find
pods-delete_ok ns p s s' here e = elim (Option-cases (pod_view p.meta.namespace s p.meta.name)) [
  | inl gone ↦ absurd (ground (arith, e, gone))
  | inr (q, found) ↦
      let place = find-place _ _ p.meta.namespace p.meta.name s.pods q found in
      (
        λ r is. inr (
          1000,
          ground (arith, e, found, is, here, place.0, place.1, ==_refl ns, ==_refl p.meta.name),
        ),
        λ n apart. ground (arith, e, found, here, place.0, place.1, apart, ==_sound n p.meta.name),
      )
]

pods-delete_err :
    (ns : String) (p : Pod ℕ) (s : Memory) (e : Refusal) (s' : Memory)
    → p.meta.namespace ≡ ns
    → memory.pods.delete p s ≡ (err e, s')
    → (is_missing e ≡ true → pod_view ns s p.meta.name ≡ none)
      × ((n : String) → pod_view ns s' n ≡ pod_view ns s n)
unfolding terminate
pods-delete_err ns p s e s' here h = (λ q. ground (arith, here, h, q), λ n. ground (arith, here, h))

pub pods-IsGraceful : IsGraceful memory pod_view
pods-IsGraceful = record { delete_ok = pods-delete_ok; delete_err = pods-delete_err }

abbrev pub job_set_view : String → Memory → String → Option Fields
job_set_view =
    stored helpers.get_name helpers.get_namespace (λ m. m.job_sets)
      (λ xs m. record m { job_sets = xs })

pub job_sets-IsLawful :
    IsLawful memory.unstructured.get_name memory.unstructured.get_namespace memory.job_sets
      memory.is_not_found job_set_view
job_sets-IsLawful =
    store-IsLawful _ _ (λ m. m.job_sets) (λ xs m. record m { job_sets = xs }) (λ xs m. refl)

abbrev pub service_view : String → Memory → String → Option Fields
service_view =
    stored helpers.get_name helpers.get_namespace (λ m. m.services)
      (λ xs m. record m { services = xs })

pub services-IsLawful :
    IsLawful memory.unstructured.get_name memory.unstructured.get_namespace
      memory.inference_services memory.is_not_found service_view
services-IsLawful =
    store-IsLawful _ _ (λ m. m.services) (λ xs m. record m { services = xs }) (λ xs m. refl)

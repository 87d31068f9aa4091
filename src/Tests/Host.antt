-- ===== src/Tests/Host.antt =====
-- The reconciler's surroundings in memory: budgets are stored, Prometheus answers four GPU-hours of
-- an A100, and a conflict is retried once.
use gpu_budget_operator.Base.{
  ℕ, ◌+◌, ◌*◌, ◌/◌, String, ◌<>◌, Option, none, some, List, [], ◌∷◌, Result, ok, err, ◌≡◌, refl, ap,
  subst, inl, inr, arith, sym, ◌==◌, ==_sound, Bool-cases, Option-cases, ltb, leb, ==_refl,
  Call-cases,
}
use gpu_budget_operator.Cluster.{Api}
use gpu_budget_operator.Cluster.Lawful.{IsLawful}
use gpu_budget_operator.Budget.{Floats, GpuBudgetStatus, GpuBudget}
use gpu_budget_operator.Objects.{ScaleKind, deployment, stateful_set, replica_set}
use gpu_budget_operator.Metrics.{vector}
use gpu_budget_operator.Enforce.Namespace.Frame.{LeavesAlone, IsApart}
use gpu_budget_operator.Controllers.Host.{Host}
use gpu_budget_operator.Controllers.Status.{Settings}
use gpu_budget_operator.Controllers.Reconcile.Persisted.{IsKept}
use gpu_budget_operator.Controllers.Reconcile.Standing.Refined.{IsIdle}
use gpu_budget_operator.Tests.Store.{Refusal, missing, is_missing, find, store, stored}
use gpu_budget_operator.Tests.Store.Laws.{store-IsLawful, store-get_state, store-LeavesAlone}
use gpu_budget_operator.Tests.Memory.{pods-LeavesAlone, Memory, memory}

abbrev pub whole : Floats
whole = record {
  F = ℕ;
  nought = 0;
  hundred = 100;
  add = λ a b. a + b;
  times = λ a b. a * b;
  over = λ a b. a / b;
  round = λ a. a;
  gt = λ a b. ltb b a;
  le = λ a b. leb a b;
}

abbrev put_budgets : List (GpuBudget ℕ) → Memory → Memory
put_budgets bs m = record m { budgets = bs }

abbrev budget_store : Api Memory Refusal (GpuBudget ℕ)
budget_store = store (λ b. b.name) (λ b. b.namespace) (λ m. m.budgets) put_budgets

abbrev again :
    (Memory → Result Refusal String × Memory)
    → Result Refusal String × Memory
    → Result Refusal String × Memory
again f (ok v, s) = (ok v, s)
again f (err e, s) = f s

abbrev pub status_of : Option (GpuBudget ℕ) → Option (GpuBudgetStatus ℕ)
status_of none = none
status_of (some b) = some b.status

abbrev pub budget_view : String → Memory → String → Option (GpuBudget ℕ)
budget_view = stored (λ b. b.name) (λ b. b.namespace) (λ m. m.budgets) put_budgets

abbrev pub stored_status : String → String → Memory → Option (GpuBudgetStatus ℕ)
stored_status ns n s = status_of (budget_view ns s n)

-- `Update` leaves the stored status in place.
unfoldable pub update_rest :
    Option (GpuBudget ℕ) → GpuBudget ℕ → Memory → Result Refusal (GpuBudget ℕ) × Memory
update_rest none b s = (err missing, s)
update_rest (some old) b s =
    let new = record b { status = old.status } in (ok new, put_budgets (new ∷ s.budgets) s)

abbrev pub host : Host memory whole
host = record {
  Client = String;
  new_client = λ url s. (ok url, s);
  query = λ p q s. (ok (vector (("A100-SXM4-80GB", 4) ∷ [])), s);
  get = budget_store.get;
  update = λ b s. update_rest (budget_view b.namespace s b.name) b s;
  update_status = budget_store.update;
  retry_on_conflict = λ f s. again f (f s);
  set_status_condition = λ cs x. x ∷ [];
  error_text = λ e. "error";
  joined_text = λ es. "errors";
  print_usage = λ hours dollars phase. phase;
  quote = λ s. "\"" <> s <> "\"";
  print_duration = λ n. "1h";
  print_hours = λ n. "1";
  to_upper = λ s. s;
}

budgets-IsLawful : IsLawful (λ b. b.name) (λ b. b.namespace) budget_store is_missing budget_view
budgets-IsLawful = store-IsLawful _ _ (λ m. m.budgets) put_budgets (λ xs m. refl)

update_alone :
    (b : GpuBudget ℕ) (s s' : Memory) (e : Refusal)
    → budget_store.update b s ≡ (err e, s')
    → (ns n : String) → stored_status ns n s' ≡ stored_status ns n s
update_alone b s s' e p ns n = ap status_of (budgets-IsLawful.update_err ns b s e s' p n)

get_alone :
    (ns n m k : String) (s : Memory)
    → stored_status m k (budget_store.get ns n s).1 ≡ stored_status m k s
get_alone ns n m k s =
    ap (stored_status m k)
      (store-get_state (λ b. b.name) (λ b. b.namespace) (λ m. m.budgets) put_budgets ns n s)

update_stores :
    (b b' : GpuBudget ℕ) (s s' : Memory)
    → budget_store.update b s ≡ (ok b', s')
    → stored_status b.namespace b.name s' ≡ some b.status
update_stores b b' s s' e =
    let found : budget_view b.namespace s' b.name ≡ some b =
      ground
        (arith, budgets-IsLawful.update_ok b.namespace b s b' s' refl e b.name, ==_refl b.name) in
    ap status_of found

retried_again :
    (f : Memory → Result Refusal String × Memory) (P : Memory → Type 0)
    → ((s : Memory) → P s → P (f s).1)
    → (s : Memory) → P s
    → (s' : Memory) × P s' × (again f (f s) ≡ f s')
retried_again f P step s p = elim (Call-cases (f s)) [
  | inl (v, s', e) ↦ (s, p, rw e refl)
  | inr (x, s', e) ↦ (s', subst P (ap (λ y. y.1) e) (step s p), rw e refl)
]

pub host-IsKept : IsKept memory whole host stored_status
host-IsKept = record {
  get_ok = λ ns n s s' b e.
      let (_, space, named, _) = budgets-IsLawful.get_ok ns n s b s' e in (space, named);
  get_alone = get_alone;
  update_status_ok = update_stores;
  update_status_err = update_alone;
  retried = retried_again;
}

workloads_apart :
    (ns n : String) (k : ScaleKind) → LeavesAlone (memory.workloads k) (λ s. stored_status ns n s)
workloads_apart ns n deployment = store-LeavesAlone _ _ _ _ _ (λ xs m. refl)
workloads_apart ns n stateful_set = store-LeavesAlone _ _ _ _ _ (λ xs m. refl)
workloads_apart ns n replica_set = store-LeavesAlone _ _ _ _ _ (λ xs m. refl)

pub host-IsApart : (ns n : String) → IsApart memory (λ s. stored_status ns n s)
host-IsApart ns n = record {
  workloads = workloads_apart ns n;
  job_sets = store-LeavesAlone _ _ _ _ _ (λ xs m. refl);
  jobs = store-LeavesAlone _ _ _ _ _ (λ xs m. refl);
  services = store-LeavesAlone _ _ _ _ _ (λ xs m. refl);
  pods = pods-LeavesAlone _ (λ xs m. refl);
}

rest_alone :
    (b : GpuBudget ℕ) (s : Memory) (ns n : String)
    → stored_status ns n (host.update b s).1 ≡ stored_status ns n s
unfolding update_rest find
rest_alone b s ns n = elim (Option-cases (budget_view b.namespace s b.name)) [
  | inl e ↦ rw e refl
  | inr (old, e) ↦ rw e (elim (Bool-cases (b.namespace == ns)) [
    | inr p ↦ rw p refl
    | inl p ↦ elim (Bool-cases (n == b.name)) [
      | inr q ↦ rw (p, q) refl
      | inl q ↦
          rw (p, q) (rw (← ==_sound b.namespace ns p, ==_sound n b.name q) (sym (ap status_of e)))
    ]
  ])
]

pub host-IsIdle :
    (r : Settings ℕ) (ns n : String) → IsIdle memory whole host r stored_status host-IsKept ns n
unfolding update_rest
host-IsIdle r ns n = record {
  update_ok = λ b b' s s' e. elim (Option-cases (budget_view b.namespace s b.name)) [
    | inl p ↦ absurd (ground (arith, p, e))
    | inr (old, p) ↦ ground (arith, p, e)
  ];
  update_alone = λ b s. rest_alone b s ns n;
  new_client_alone = λ url s. refl;
  query_alone = λ p q s. refl;
}

pub host_current :
    (ns n : String) (b : GpuBudget ℕ) (s s' : Memory)
    → host.get ns n s ≡ (ok b, s')
    → stored_status ns n s ≡ some b.status
host_current ns n b s s' e = ap status_of (budgets-IsLawful.get_ok ns n s b s' e).0

-- ===== src/Controllers/Reconcile/Retained.antt =====
-- What the ways through a reconcile do to the enforced resources of the stored status.
use gpu_budget_operator.Base.{ℕ, String, Option, some, [], ◌≡◌, refl, sym, ◌∙◌}
use gpu_budget_operator.Budget.{Floats, GpuBudgetStatus, GpuBudget}
use gpu_budget_operator.Cluster.{Cluster}
use gpu_budget_operator.Enforce.Namespace.Frame.{IsApart}
use gpu_budget_operator.Controllers.Host.{Host}
use gpu_budget_operator.Controllers.Merge.Keys.{IsExtension, append_nil}
use gpu_budget_operator.Controllers.Usage.{Usage}
use gpu_budget_operator.Controllers.Status.{Settings, failed, with_condition, measured}
use gpu_budget_operator.Controllers.Reconcile.{evaluate}
use gpu_budget_operator.Controllers.Reconcile.Stored.{IsAllowed, evaluate-Holds}
use gpu_budget_operator.Controllers.Reconcile.Branches.{with_compliant}
use gpu_budget_operator.Controllers.Reconcile.Persisted.{IsKept, with_enforced-IsDecided}

module _ (c : Cluster) (fl : Floats) (h : Host c fl) (r : Settings fl.F)
    (stored : String → String → c.State → Option (GpuBudgetStatus fl.F)) (K : IsKept c fl h stored)
    (gb : GpuBudget fl.F) (apart : IsApart c (λ s. stored gb.namespace gb.name s))
    (new_client_apart : (url : String) (s : c.State)
      → stored gb.namespace gb.name (h.new_client url s).1 ≡ stored gb.namespace gb.name s)
    (query_apart : (p : h.Client) (q : String) (s : c.State)
      → stored gb.namespace gb.name (h.query p q s).1 ≡ stored gb.namespace gb.name s) where
  -- The stored status of the budget still lists the enforced resources.
  abbrev pub Retains : c.State → Type 0
  Retains s =
      (st : GpuBudgetStatus fl.F) × (stored gb.namespace gb.name s ≡ some st)
      × IsExtension gb.status.enforced_resources st.enforced_resources

  pub Retains-same :
      (s s' : c.State)
      → stored gb.namespace gb.name s' ≡ stored gb.namespace gb.name s
      → Retains s
      → Retains s'
  Retains-same s s' e (st, q, x) = (st, e ∙ q, x)

  compliant_extends :
      (now : ℕ) (u : Usage fl h.to_upper)
      → IsExtension gb.status.enforced_resources
          (with_compliant c fl h r gb now u).status.enforced_resources
  unfolding with_condition measured
  compliant_extends now u = ([], sym (append_nil gb.status.enforced_resources))

  extends_all :
      IsAllowed c fl h r stored K gb.namespace gb.name apart new_client_apart query_apart
        (λ st. IsExtension gb.status.enforced_resources st.enforced_resources)
        gb
  unfolding failed
  extends_all = record {
    in_space = refl;
    named = refl;
    fails = λ reason cause. ([], sym (append_nil gb.status.enforced_resources));
    enforces = λ now u s e.
        ((with_enforced-IsDecided c fl h r stored K gb now u s e).enforced e).1.extends;
    complies = λ now u e. compliant_extends now u;
  }

  -- From a budget that was read without a reset to the end: a missing client, a failed or odd answer
  -- of Prometheus, a type without a rate, an enforcement that fails, a status that is not stored:
  -- whatever happens, the stored status still lists the enforced resources that were read, in place.
  pub evaluate-Retains :
      (cached : Option h.Client) (s : c.State)
      → Retains s
      → Retains (evaluate c fl h r gb cached s).state
  evaluate-Retains cached s kept =
      evaluate-Holds c fl h r stored K gb.namespace gb.name apart new_client_apart query_apart
        (λ st. IsExtension gb.status.enforced_resources st.enforced_resources) gb extends_all cached
        s kept

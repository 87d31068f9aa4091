-- ===== src/Enforce/Scale/Enforced.antt =====
-- `enforceDeployments`, `enforceStatefulSets` and `enforceReplicaSets` as wholes, over a cluster
-- whose API for the kind is lawful.
use gpu_budget_operator.Base.{
  String, true, false, Option, none, some, ◌≡◌, refl, ◌∙◌, ◌⊎◌, inl, inr, arith, All, All-map, Any,
  Any-map, Bool-cases, Option-cases, Call-cases, if◌then◌else◌,
}
use mathlib.Core.Option
use gpu_budget_operator.Objects.{Workload, ScaleKind, EnforcedResource}
use gpu_budget_operator.Cluster.{Cluster}
use gpu_budget_operator.Cluster.Lawful.{IsLawful}
use gpu_budget_operator.Enforce.Report.{Outcome, scaled_to_zero_action}
use gpu_budget_operator.Enforce.Pass.Loop.{IsMarking}
use gpu_budget_operator.Enforce.Pass.Steps.{pass-unlisted}
use gpu_budget_operator.Enforce.Pass.Whole.{pass-IsMarked, pass-IsTrue, pass-due, pass-skipped}
use gpu_budget_operator.Enforce.Scale.{
  kind_name, skips, scaled_to_zero, scale_marker, enforce_workloads,
}

module _ (c : Cluster) (k : ScaleKind) where
  pub skips-scaled_to_zero : (w : Workload c.Quantity) → skips c k (scaled_to_zero c w) ≡ true
  unfolding skips scaled_to_zero
  skips-scaled_to_zero w = ground arith

  scaled_to_zero_keeps :
      (w : Workload c.Quantity)
      → ((scaled_to_zero c w).meta.name ≡ w.meta.name)
        × ((scaled_to_zero c w).meta.namespace ≡ w.meta.namespace)
  unfolding scaled_to_zero
  scaled_to_zero_keeps w = (refl, refl)

  scale_marker-IsMarking : IsMarking (scale_marker c k)
  scale_marker-IsMarking = record {
    name = λ ns x y e. ground (arith, scaled_to_zero_keeps x);
    namespace = λ ns x y e. ground (arith, scaled_to_zero_keeps x);
    done = λ ns x y e. ground (arith, skips-scaled_to_zero x);
  }

  -- The entry that tells of a scaled workload.
  abbrev pub IsReport : String → EnforcedResource → Type 0
  IsReport n r = (r.kind ≡ kind_name k) × (r.name ≡ n) × (r.action ≡ scaled_to_zero_action)

module _ (c : Cluster) (k : ScaleKind)
    (view : String → c.State → String → Option (Workload c.Quantity))
    (L : IsLawful
      (λ w. w.meta.name)
      (λ w. w.meta.namespace)
      (c.workloads k)
      c.is_not_found
      view) where
  -- The object `n` was eligible, is now scaled to zero, and is among the reported resources.
  abbrev pub IsScaled : String → c.State → Outcome c.Err c.State → String → Type 0
  IsScaled ns s out n =
      (w : Workload c.Quantity) × (view ns s n ≡ some w)
      × (skips c k w ≡ false)
      × (view ns out.state n ≡ some (scaled_to_zero c w))
      × Any (IsReport c k n) out.resources

  -- Whatever comes back, also an error: every stored workload of the namespace is as it was, or it
  -- was eligible, is now scaled to zero with its count kept in the annotation, and is among the
  -- reported resources.
  pub enforce_workloads-IsScaled :
      (ns : String) (s : c.State) (n : String)
      → (view ns (enforce_workloads c k ns s).state n ≡ view ns s n)
        ⊎ IsScaled ns s (enforce_workloads c k ns s) n
  unfolding enforce_workloads
  enforce_workloads-IsScaled ns s n =
      elim (pass-IsMarked (scale_marker c k) c.is_not_found view L (scale_marker-IsMarking c k) ns s
        n) [
          | inl same ↦ inl same
          | inr r ↦ inr (
            r.before,
            r.found,
            r.due,
            ground (arith, r.stored, r.marked),
            Any-map _ (IsReport c k n) (λ e h. ground (arith, h.1)) _ r.reported,
          )
        ]

  -- The resource tells of an eligible workload that is now scaled to zero.
  abbrev pub IsTold : String → c.State → c.State → EnforcedResource → Type 0
  IsTold ns s s' r =
      (w : Workload c.Quantity) × (view ns s r.name ≡ some w)
      × (skips c k w ≡ false)
      × (view ns s' r.name ≡ some (scaled_to_zero c w))
      × IsReport c k r.name r

  -- Every resource that is reported was an eligible workload of the namespace, and is now scaled
  -- to zero with its count kept in the annotation.
  pub enforce_workloads-IsTold :
      (ns : String) (s : c.State)
      → All (IsTold ns s (enforce_workloads c k ns s).state) (enforce_workloads c k ns s).resources
  unfolding enforce_workloads
  enforce_workloads-IsTold ns s =
      All-map _ (IsTold ns s (enforce_workloads c k ns s).state)
        (λ r h. (
          h.before,
          ground (arith, h.found, h.reports.1),
          h.due,
          ground (arith, h.stored, h.marked, h.reports.1),
          ground (arith, h.reports.1),
        ))
        _ (pass-IsTrue (scale_marker c k) c.is_not_found view L (scale_marker-IsMarking c k) ns s)

  -- What a pass without an error makes of a stored workload.
  abbrev pub settled : Workload c.Quantity → Workload c.Quantity
  settled w = if skips c k w then w else scaled_to_zero c w

  present :
      (ns : String) (s : c.State) (n : String) (w : Workload c.Quantity)
      → (enforce_workloads c k ns s).error ≡ none
      → view ns s n ≡ some w
      → view ns (enforce_workloads c k ns s).state n ≡ some (settled w)
  unfolding enforce_workloads
  present ns s n w fine here = elim (Bool-cases (skips c k w)) [
    | inl skipped ↦ rw skipped (
        pass-skipped (scale_marker c k) c.is_not_found view L (scale_marker-IsMarking c k) ns s n w
          here skipped)
    | inr due ↦ elim (Call-cases ((c.workloads k).list ns s)) [
      | inl (xs, s', e) ↦
          let (y, p, stored) =
            pass-due (scale_marker c k) c.is_not_found view L (scale_marker-IsMarking c k) ns s s'
              xs n w e fine here due in
          rw due (ground (arith, stored, p))
      | inr (e, s', p) ↦ absurd (ground (arith, fine, pass-unlisted (scale_marker c k) ns s s' e p))
    ]
  ]

  -- With no error every eligible workload of the namespace is scaled to zero, and every other is
  -- as it was.
  pub enforce_workloads-settled :
      (ns : String) (s : c.State) (n : String)
      → (enforce_workloads c k ns s).error ≡ none
      → view ns (enforce_workloads c k ns s).state n ≡ Option.map settled (view ns s n)
  enforce_workloads-settled ns s n fine = elim (Option-cases (view ns s n)) [
    | inr (w, here) ↦ present ns s n w fine here ∙ rw here
    | inl absent ↦ elim (enforce_workloads-IsScaled ns s n) [
      | inl same ↦ same ∙ rw absent
      | inr r ↦ absurd (ground (arith, r.1, absent))
    ]
  ]

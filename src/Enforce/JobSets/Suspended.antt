-- ===== src/Enforce/JobSets/Suspended.antt =====
-- Suspending and resuming JobSets, over a cluster whose API for them is lawful and whose helpers
-- for unstructured objects behave as documented.
use gpu_budget_operator.Base.{
  String, false, Option, none, some, List, ok, ◌≡◌, ap, ◌∙◌, ◌⊎◌, inl, inr, arith, Any, Any-map,
  Result-cases,
}
use gpu_budget_operator.Objects.Value.{Fields}
use gpu_budget_operator.Cluster.{Cluster}
use gpu_budget_operator.Cluster.Lawful.{IsLawful}
use gpu_budget_operator.Cluster.Helpers.{IsUnstructured}
use gpu_budget_operator.Enforce.Pass.Whole.{pass-IsMarked, pass-due}
use gpu_budget_operator.Enforce.Restore.Whole.{restore_done, restore_refused}
use gpu_budget_operator.Enforce.JobSets.{
  skips_job_set, job_set_marker, enforce_job_sets, resume_job_set, job_set_restorer,
  restore_job_set,
}
use gpu_budget_operator.Enforce.JobSets.Changed.{
  IsSuspended, IsResumed, IsReport, suspend_job_set-IsSuspended, job_set_marker-IsMarking,
  recover_job_set-suspended, recover_place, resume_job_set-IsResumed,
}

module _ (c : Cluster) (U : IsUnstructured c.unstructured)
    (view : String → c.State → String → Option Fields)
    (L : IsLawful c.unstructured.get_name c.unstructured.get_namespace c.job_sets c.is_not_found
      view) where
  -- Whatever comes back, also an error: every stored JobSet of the namespace is as it was, or it
  -- was not suspended and requested GPUs, reads as suspended now, and is among the reported
  -- resources.
  pub enforce_job_sets-IsSuspended :
      (ns : String) (s : c.State) (n : String)
      → (view ns (enforce_job_sets c ns s).state n ≡ view ns s n)
        ⊎ ((o o' : Fields) × (view ns s n ≡ some o)
            × (skips_job_set c o ≡ false)
            × (view ns (enforce_job_sets c ns s).state n ≡ some o')
            × IsSuspended c U o o'
            × Any (IsReport c U n) (enforce_job_sets c ns s).resources)
  unfolding enforce_job_sets
  enforce_job_sets-IsSuspended ns s n =
      elim (pass-IsMarked (job_set_marker c) c.is_not_found view L (job_set_marker-IsMarking c U) ns
        s n) [
          | inl same ↦ inl same
          | inr r ↦ inr (
            r.before,
            r.after,
            r.found,
            r.due,
            r.stored,
            suspend_job_set-IsSuspended c U ns r.before r.after r.due r.marked,
            Any-map _ (IsReport c U n) (λ e h. ground (arith, h.1)) _ r.reported,
          )
        ]

  -- A JobSet that a pass suspends reads as running after a restore without an error, with its own
  -- annotations, if the list of the pass and the pass succeed.
  pub restore_job_set-enforce_job_sets :
      (ns n : String) (s s' : c.State) (os : List Fields) (o : Fields)
      → c.job_sets.list ns s ≡ (ok os, s')
      → view ns s n ≡ some o
      → skips_job_set c o ≡ false
      → (enforce_job_sets c ns s).error ≡ none
      → (restore_job_set c ns n (enforce_job_sets c ns s).state).0 ≡ none
      → (v : Fields) × (view ns (restore_job_set c ns n (enforce_job_sets c ns s).state).1 n
          ≡ some v)
        × IsResumed c U o v
  unfolding restore_job_set enforce_job_sets
  restore_job_set-enforce_job_sets ns n s s' os o e here due fine done =
      let (y, marked, stored) =
        pass-due (job_set_marker c) c.is_not_found view L (job_set_marker-IsMarking c U) ns s s' os
          n o e fine here due in
      let is = suspend_job_set-IsSuspended c U ns o y due marked in
      elim (Result-cases (resume_job_set c ns y false)) [
        | inl (v, q) ↦
            let after =
              restore_done (job_set_restorer c) _ _ view L ns n (enforce_job_sets c ns s).state y v
                stored (recover_job_set-suspended c U ns o y is ∙ ap some q)
                (λ z. recover_place c U ns y z) done n in
            (v, ground (arith, after), resume_job_set-IsResumed c U ns o y v is q)
        | inr (f, q) ↦ absurd (
            restore_refused (job_set_restorer c) _ _ view L ns n (enforce_job_sets c ns s).state y f
              stored (recover_job_set-suspended c U ns o y is ∙ ap some q) done)
      ]

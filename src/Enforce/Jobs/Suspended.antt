-- ===== src/Enforce/Jobs/Suspended.antt =====
-- Suspending and resuming Jobs, over a cluster whose API for jobs is lawful.
use gpu_budget_operator.Base.{
  String, true, false, Option, none, some, ok, ◌≡◌, ◌≢◌, refl, ap, ◌⊎◌, inl, inr, arith, Any,
  Any-map, Call-cases, ◌==◌, string_dec,
}
use gpu_budget_operator.Base.Dict.{
  read, make, lookup-insert_self, read-remove_self, read-remove_other,
}
use gpu_budget_operator.Objects.{Job, EnforcedResource}
use gpu_budget_operator.Cluster.{Cluster}
use gpu_budget_operator.Cluster.Lawful.{IsLawful}
use gpu_budget_operator.Enforce.Report.{suspended_action}
use gpu_budget_operator.Enforce.Pass.Loop.{IsMarking}
use gpu_budget_operator.Enforce.Pass.Steps.{pass-unlisted}
use gpu_budget_operator.Enforce.Pass.Whole.{pass-IsMarked, pass-due}
use gpu_budget_operator.Enforce.Restore.Whole.{restore_done}
use gpu_budget_operator.Enforce.Jobs.{
  annotation_original_suspend, skips_job, suspended, job_marker, enforce_jobs, recover_job, resumed,
  job_restorer, restore_job,
}

module _ (c : Cluster) where
  pub skips_job-suspended : (j : Job c.Quantity) → skips_job c (suspended c j) ≡ true
  unfolding skips_job suspended
  skips_job-suspended j = ground arith

  suspended_keeps :
      (j : Job c.Quantity)
      → ((suspended c j).meta.name ≡ j.meta.name)
        × ((suspended c j).meta.namespace ≡ j.meta.namespace)
  unfolding suspended
  suspended_keeps j = (refl, refl)

  job_marker-IsMarking : IsMarking (job_marker c)
  job_marker-IsMarking = record {
    name = λ ns x y e. ground (arith, suspended_keeps x);
    namespace = λ ns x y e. ground (arith, suspended_keeps x);
    done = λ ns x y e. ground (arith, skips_job-suspended x);
  }

  abbrev pub IsReport : String → EnforcedResource → Type 0
  IsReport n r = (r.kind ≡ "Job") × (r.name ≡ n) × (r.action ≡ suspended_action)

  -- The job runs again: it is not suspended, and all but the suspension is as before it.
  pub record IsResumed (before after : Job c.Quantity) : Type 0 where
    pub suspend : after.suspend ≡ some false
    pub template : after.template ≡ before.template
    pub name : after.meta.name ≡ before.meta.name
    pub cleared : read annotation_original_suspend after.meta.annotations ≡ none
    pub others :
        (key : String)
        → key ≢ annotation_original_suspend
        → read key after.meta.annotations ≡ read key before.meta.annotations

  pub resumed-IsResumed : (j : Job c.Quantity) → IsResumed j (resumed c false (suspended c j))
  unfolding resumed suspended
  resumed-IsResumed j = record {
    suspend = refl;
    template = refl;
    name = refl;
    cleared = read-remove_self _ _ j.meta.annotations;
    others = λ key h. read-remove_other key _ _ j.meta.annotations h;
  }

  read-suspended :
      (j : Job c.Quantity)
      → read annotation_original_suspend (suspended c j).meta.annotations ≡ some "false"
  unfolding suspended read
  read-suspended j = lookup-insert_self _ _ (make j.meta.annotations)

  false_is_not_true : ("false" == "true") ≡ false
  unfolding string_dec
  false_is_not_true = refl

  pub recover_job-suspended :
      (j : Job c.Quantity)
      → recover_job c (suspended c j) ≡ some (ok (resumed c false (suspended c j)))
  unfolding recover_job
  recover_job-suspended j =
      rw (read-suspended j, recover_job)
        (ap (λ b. some (ok (resumed c b (suspended c j)))) false_is_not_true)

  pub recover_job_place :
      (j v : Job c.Quantity)
      → recover_job c j ≡ some (ok v)
      → (v.meta.namespace ≡ j.meta.namespace) × (v.meta.name ≡ j.meta.name)
  unfolding recover_job resumed
  recover_job_place j v h = ground arith

module _ (c : Cluster) (view : String → c.State → String → Option (Job c.Quantity))
    (L : IsLawful (λ j. j.meta.name) (λ j. j.meta.namespace) c.jobs c.is_not_found view) where
  -- Whatever comes back, also an error: every stored Job of the namespace is as it was, or it had
  -- no owner, was not suspended and requested GPUs, is now suspended, and is among the reported
  -- resources.
  pub enforce_jobs-suspended :
      (ns : String) (s : c.State) (n : String)
      → (view ns (enforce_jobs c ns s).state n ≡ view ns s n)
        ⊎ ((j : Job c.Quantity) × (view ns s n ≡ some j)
            × (skips_job c j ≡ false)
            × (view ns (enforce_jobs c ns s).state n ≡ some (suspended c j))
            × Any (IsReport c n) (enforce_jobs c ns s).resources)
  unfolding enforce_jobs
  enforce_jobs-suspended ns s n =
      elim (pass-IsMarked (job_marker c) c.is_not_found view L (job_marker-IsMarking c) ns s n) [
        | inl same ↦ inl same
        | inr r ↦ inr (
          r.before,
          r.found,
          r.due,
          ground (arith, r.stored, r.marked),
          Any-map _ (IsReport c n) (λ e h. ground (arith, h.1)) _ r.reported,
        )
      ]

  due_suspended :
      (ns : String) (s : c.State) (n : String) (j : Job c.Quantity)
      → (enforce_jobs c ns s).error ≡ none
      → view ns s n ≡ some j
      → skips_job c j ≡ false
      → view ns (enforce_jobs c ns s).state n ≡ some (suspended c j)
  unfolding enforce_jobs
  due_suspended ns s n j fine here due = elim (Call-cases (c.jobs.list ns s)) [
    | inl (xs, s', e) ↦
        let (y, p, stored) =
          pass-due (job_marker c) c.is_not_found view L (job_marker-IsMarking c) ns s s' xs n j e
            fine here due in
        ground (arith, stored, p)
    | inr (e, s', p) ↦ absurd (ground (arith, fine, pass-unlisted (job_marker c) ns s s' e p))
  ]

  -- A Job that a pass without an error suspends runs again after a restore without an error, and
  -- apart from the suspension it is the Job that it was.
  pub restore_job-enforce_jobs :
      (ns n : String) (s : c.State) (j : Job c.Quantity)
      → view ns s n ≡ some j
      → skips_job c j ≡ false
      → (enforce_jobs c ns s).error ≡ none
      → (restore_job c ns n (enforce_jobs c ns s).state).0 ≡ none
      → (v : Job c.Quantity) × (view ns (restore_job c ns n (enforce_jobs c ns s).state).1 n
          ≡ some v)
        × IsResumed c j v
  unfolding restore_job
  restore_job-enforce_jobs ns n s j here due fine done =
      let after =
        restore_done (job_restorer c) _ _ view L ns n (enforce_jobs c ns s).state (suspended c j) _
          (due_suspended ns s n j fine here due) (recover_job-suspended c j)
          (recover_job_place c (suspended c j)) done n in
      (resumed c false (suspended c j), ground (arith, after), resumed-IsResumed c j)

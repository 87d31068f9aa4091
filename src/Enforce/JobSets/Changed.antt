-- ===== src/Enforce/JobSets/Changed.antt =====
-- What suspending and resuming make of one JobSet.
use gpu_budget_operator.Base.{
  String, Bool, true, false, none, some, ok, ◌≡◌, ◌≢◌, refl, ap, ◌∙◌, inl, inr, arith, Option-cases,
  Result-cases, ◌==◌, string_dec,
}
use gpu_budget_operator.Base.Dict.{
  read, make, insert, erase, remove, lookup-insert_self, read-remove_self, read-remove_other,
  remove-some,
}
use gpu_budget_operator.Objects.{EnforcedResource}
use gpu_budget_operator.Objects.Value.{bool, Fields}
use gpu_budget_operator.Cluster.{Cluster}
use gpu_budget_operator.Cluster.Helpers.{IsUnstructured}
use gpu_budget_operator.Enforce.Report.{suspended_action}
use gpu_budget_operator.Enforce.Pass.Loop.{IsMarking}
use gpu_budget_operator.Enforce.Jobs.{annotation_original_suspend}
use gpu_budget_operator.Enforce.JobSets.{
  suspend_path, sprintf_t, skips_job_set, annotated, found_suspended, suspend_job_set,
  job_set_marker, resume_job_set, recover_job_set,
}

module _ (c : Cluster) (U : IsUnstructured c.unstructured) where
  open c.unstructured use {
    nested_bool, set_nested_field, get_annotations, set_annotations, get_name, get_namespace,
  }

  set_field :
      (ns : String) (o o' : Fields)
      → suspend_job_set c ns o ≡ ok o'
      → set_nested_field (annotated c o) (bool true) suspend_path ≡ ok o'
  unfolding suspend_job_set
  set_field ns o o' e = ground arith

  -- What `suspend_job_set` makes of an object, by what the helpers read of it.
  pub suspend_job_set_lem :
      (ns : String) (o o' : Fields)
      → suspend_job_set c ns o ≡ ok o'
      → (nested_bool o' suspend_path ≡ some true)
        × (get_annotations o'
            ≡ some (
                insert annotation_original_suspend
                  (sprintf_t (found_suspended c o))
                  (make (get_annotations o))))
        × (get_name o' ≡ get_name o)
        × (get_namespace o' ≡ get_namespace o)
  suspend_job_set_lem ns o o' e =
      let set = set_field ns o o' e in
      let names = U.get_name-set_nested_field _ o' _ _ set in
      let before = U.get_name-set_annotations _ o in
      (
        U.nested_bool-set_nested_field _ o' true _ set,
        U.get_annotations-set_nested_field _ o' _ _ set ∙ U.get_annotations-set_annotations _ o,
        names.0 ∙ before.0,
        names.1 ∙ before.1,
      )

  pub skips_job_set-suspended :
      (o : Fields) → nested_bool o suspend_path ≡ some true → skips_job_set c o ≡ true
  unfolding skips_job_set
  skips_job_set-suspended o e = ground arith

  pub job_set_marker-IsMarking : IsMarking (job_set_marker c)
  job_set_marker-IsMarking = record {
    name = λ ns x y e. (suspend_job_set_lem ns x y e).2;
    namespace = λ ns x y e. (suspend_job_set_lem ns x y e).3;
    done = λ ns x y e. skips_job_set-suspended y (suspend_job_set_lem ns x y e).0;
  }

  abbrev pub IsReport : String → EnforcedResource → Type 0
  IsReport n r = (r.kind ≡ "JobSet") × (r.name ≡ n) × (r.action ≡ suspended_action)

  -- The object reads as suspended, with the operator's annotation on top of those it had.
  abbrev pub IsSuspended : Fields → Fields → Type 0
  IsSuspended before after =
      (nested_bool after suspend_path ≡ some true)
      × (get_annotations after
          ≡ some (insert annotation_original_suspend "false" (make (get_annotations before))))

  -- The object reads as running, without the operator's annotation and with the others as before.
  abbrev pub IsResumed : Fields → Fields → Type 0
  IsResumed before after =
      (nested_bool after suspend_path ≡ some false)
      × (read annotation_original_suspend (get_annotations after) ≡ none)
      × ((key : String)
          → key ≢ annotation_original_suspend
          → read key (get_annotations after) ≡ read key (get_annotations before))

  not_suspended : (o : Fields) → skips_job_set c o ≡ false → found_suspended c o ≡ false
  unfolding skips_job_set
  not_suspended o h = ground arith

  pub suspend_job_set-IsSuspended :
      (ns : String) (o o' : Fields)
      → skips_job_set c o ≡ false
      → suspend_job_set c ns o ≡ ok o'
      → IsSuspended o o'
  suspend_job_set-IsSuspended ns o o' due e =
      let facts = suspend_job_set_lem ns o o' e in
      (
        facts.0,
        facts.1
            ∙ ap
                (λ b.
                  some
                    (insert annotation_original_suspend (sprintf_t b) (make (get_annotations o))))
                (not_suspended o due),
      )

  false_is_not_true : ("false" == "true") ≡ false
  unfolding string_dec
  false_is_not_true = refl

  read-suspended :
      (o o' : Fields)
      → IsSuspended o o'
      → read annotation_original_suspend (get_annotations o') ≡ some "false"
  unfolding read
  read-suspended o o' h = rw h.1 (lookup-insert_self _ _ (make (get_annotations o)))

  pub recover_job_set-suspended :
      (ns : String) (o o' : Fields)
      → IsSuspended o o'
      → recover_job_set c ns o' ≡ some (resume_job_set c ns o' false)
  unfolding recover_job_set
  recover_job_set-suspended ns o o' h =
      rw (read-suspended o o' h, recover_job_set)
        (ap (λ b. some (resume_job_set c ns o' b)) false_is_not_true)

  resume_field :
      (ns : String) (o o' : Fields) (b : Bool)
      → resume_job_set c ns o b ≡ ok o'
      → (p : Fields) × (set_nested_field o (bool b) suspend_path ≡ ok p)
        × (o' ≡ set_annotations p (erase annotation_original_suspend (make (get_annotations o))))
  unfolding resume_job_set
  resume_field ns o o' b e = elim (Result-cases (set_nested_field o (bool b) suspend_path)) [
    | inl (p, q) ↦ (p, q, ground (arith, e, q))
    | inr (f, q) ↦ absurd (ground (arith, e, q))
  ]

  resume_place :
      (ns : String) (o o' : Fields) (b : Bool)
      → resume_job_set c ns o b ≡ ok o'
      → (get_namespace o' ≡ get_namespace o) × (get_name o' ≡ get_name o)
  resume_place ns o o' b e =
      let (p, set, is) = resume_field ns o o' b e in
      let names = U.get_name-set_nested_field o p _ _ set in
      let after =
        U.get_name-set_annotations (erase annotation_original_suspend (make (get_annotations o)))
          p in
      (ap get_namespace is ∙ after.1 ∙ names.1, ap get_name is ∙ after.0 ∙ names.0)

  pub recover_place :
      (ns : String) (o o' : Fields)
      → recover_job_set c ns o ≡ some (ok o')
      → (get_namespace o' ≡ get_namespace o) × (get_name o' ≡ get_name o)
  unfolding recover_job_set
  recover_place ns o o' e =
      elim (Option-cases (read annotation_original_suspend (get_annotations o))) [
        | inl a ↦ absurd (ground (arith, e, a))
        | inr (raw, a) ↦ resume_place ns o o' (raw == "true") (ground (arith, e, a))
      ]

  pub resume_job_set-IsResumed :
      (ns : String) (o o' v : Fields)
      → IsSuspended o o'
      → resume_job_set c ns o' false ≡ ok v
      → IsResumed o v
  unfolding make
  resume_job_set-IsResumed ns o o' v h e =
      let (p, set, is) = resume_field ns o' v false e in
      let kept : get_annotations v
          ≡ remove annotation_original_suspend
              (some (insert annotation_original_suspend "false" (make (get_annotations o)))) =
        ap get_annotations is
        ∙ U.get_annotations-set_annotations _ p
        ∙ ap (λ a. some (erase annotation_original_suspend (make a))) h.1
        ∙ remove-some _ _ in
      (
        ap (λ x. nested_bool x suspend_path) is
            ∙ U.nested_bool-set_annotations _ p _
            ∙ U.nested_bool-set_nested_field o' p false _ set,
        rw kept (read-remove_self _ _ (get_annotations o)),
        λ key differs. rw kept (read-remove_other key _ _ (get_annotations o) differs),
      )

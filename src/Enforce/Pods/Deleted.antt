-- ===== src/Enforce/Pods/Deleted.antt =====
-- Deleting Pods, over a cluster whose API for pods is lawful and deletes gracefully.
use gpu_budget_operator.Base.{
  String, ◌<>◌, true, false, Option, none, some, List, ok, err, ◌≡◌, sym, subst, ◌∙◌, ◌⊎◌, inl, inr,
  arith, All-map, Bool-cases, Call-cases,
}
use gpu_budget_operator.Objects.{Pod}
use gpu_budget_operator.Cluster.{Cluster}
use gpu_budget_operator.Cluster.Lawful.{IsLawful}
use gpu_budget_operator.Cluster.Deletion.{IsEnding, IsGraceful}
use gpu_budget_operator.Enforce.Report.{client, wrapped, nothing}
use gpu_budget_operator.Enforce.Pods.{skips_pod, delete_loop, enforce_pods}
use gpu_budget_operator.Enforce.Pods.Loop.{
  IsDeleted, IsListed, ending_skipped, delete_loop-IsDeleted, delete_loop-IsEnding,
}

module _ (c : Cluster) (view : String → c.State → String → Option (Pod c.Quantity))
    (L : IsLawful (λ p. p.meta.name) (λ p. p.meta.namespace) c.pods c.is_not_found view)
    (G : IsGraceful c view) where
  pods_listed :
      (ns : String) (s s' : c.State) (ps : List (Pod c.Quantity))
      → c.pods.list ns s ≡ (ok ps, s')
      → enforce_pods c ns s ≡ delete_loop c ns ps s'
  unfolding enforce_pods
  pods_listed ns s s' ps e = ground arith

  pods_unlisted :
      (ns : String) (s s' : c.State) (e : c.Err)
      → c.pods.list ns s ≡ (err e, s')
      → enforce_pods c ns s ≡ nothing (some (wrapped ("listing pods in " <> ns) (client e))) s'
  unfolding enforce_pods
  pods_unlisted ns s s' e p = ground arith

  listed :
      (ns : String) (s s' : c.State) (ps : List (Pod c.Quantity))
      → c.pods.list ns s ≡ (ok ps, s')
      → IsListed c view G ns s' ps
  listed ns s s' ps e =
      let (same, each, all, distinct) = L.list_ok ns s ps s' e in
      (
        All-map (λ p. (p.meta.namespace ≡ ns) × (view ns s p.meta.name ≡ some p))
            (λ p. (p.meta.namespace ≡ ns) × (view ns s' p.meta.name ≡ some p))
            (λ p h. (h.0, same p.meta.name ∙ h.1)) ps each,
        distinct,
      )

  -- Whatever comes back, also an error: every stored Pod of the namespace is as it was, or it had
  -- no owner, was not terminating and requested GPUs, is gone or terminating, and is among the
  -- reported resources.
  pub enforce_pods-IsDeleted :
      (ns : String) (s : c.State) (n : String)
      → (view ns (enforce_pods c ns s).state n ≡ view ns s n)
        ⊎ IsDeleted c view G ns s (enforce_pods c ns s) n
  enforce_pods-IsDeleted ns s n = elim (Call-cases (c.pods.list ns s)) [
    | inl (ps, s', e) ↦
        let same = (L.list_ok ns s ps s' e).0 n in
        rw (pods_listed ns s s' ps e)
          (elim (delete_loop-IsDeleted c view G ns ps s' (listed ns s s' ps e) n) [
            | inl q ↦ inl (q ∙ same)
            | inr (p, a, b, d, r) ↦ inr (p, sym same ∙ a, b, d, r)
          ])
    | inr (e, s', p) ↦ rw (pods_unlisted ns s s' e p) (inl (L.list_err ns s e s' p n))
  ]

  due-IsEnding :
      (ns : String) (s : c.State) (n : String) (p : Pod c.Quantity)
      → (enforce_pods c ns s).error ≡ none
      → view ns s n ≡ some p
      → skips_pod c p ≡ false
      → IsEnding c p (view ns (enforce_pods c ns s).state n)
  due-IsEnding ns s n p fine here due = elim (Call-cases (c.pods.list ns s)) [
    | inl (ps, s', e) ↦
        let step = pods_listed ns s s' ps e in
        let (named, member) = (L.list_ok ns s ps s' e).2 n p here in
        rw step (
          subst (λ m. IsEnding c p (view ns (delete_loop c ns ps s').state m)) named
            (delete_loop-IsEnding c view G ns ps s' p (listed ns s s' ps e) (rw step at fine) member
              due))
    | inr (e, s', p) ↦ absurd (ground (arith, fine, pods_unlisted ns s s' e p))
  ]

  -- What a pass without an error leaves of a Pod.
  abbrev pub IsSettled : Pod c.Quantity → Option (Pod c.Quantity) → Type 0
  IsSettled p after =
      (skips_pod c p ≡ true → after ≡ some p) × (skips_pod c p ≡ false → IsEnding c p after)

  -- After a pass without an error a stored Pod that had an owner, was terminating or requested no
  -- GPU is as it was, and every other one is gone, or stands as it was with a deletion timestamp.
  pub enforce_pods-IsSettled :
      (ns : String) (s : c.State) (n : String) (p : Pod c.Quantity)
      → (enforce_pods c ns s).error ≡ none
      → view ns s n ≡ some p
      → IsSettled p (view ns (enforce_pods c ns s).state n)
  enforce_pods-IsSettled ns s n p fine here = (
    λ skipped. elim (enforce_pods-IsDeleted ns s n) [
      | inl same ↦ same ∙ here
      | inr (q, a, b, d, r) ↦ absurd (ground (arith, here, a, b, skipped))
    ],
    λ due. due-IsEnding ns s n p fine here due,
  )

  -- After a pass without an error no Pod is due.
  left_skipped :
      (ns : String) (s : c.State) (n : String) (q : Pod c.Quantity)
      → (enforce_pods c ns s).error ≡ none
      → view ns (enforce_pods c ns s).state n ≡ some q
      → skips_pod c q ≡ true
  left_skipped ns s n q fine left = elim (Bool-cases (skips_pod c q)) [
    | inl skipped ↦ skipped
    | inr due ↦ elim (enforce_pods-IsDeleted ns s n) [
      | inl same ↦ absurd (
          ending_skipped c view G q q _ (due-IsEnding ns s n q fine (sym same ∙ left) due) left due)
      | inr (p, a, b, d, r) ↦ absurd (ending_skipped c view G p q _ d left due)
    ]
  ]

  -- After a pass without an error a second one, whatever comes back of it, leaves every Pod as the
  -- first one did: a Pod that still terminates is not deleted again.
  pub enforce_pods_again :
      (ns : String) (s : c.State) (n : String)
      → (enforce_pods c ns s).error ≡ none
      → let once = (enforce_pods c ns s).state in
        view ns (enforce_pods c ns once).state n ≡ view ns once n
  enforce_pods_again ns s n fine = elim (enforce_pods-IsDeleted ns (enforce_pods c ns s).state n) [
    | inl same ↦ same
    | inr (p, a, b, d, r) ↦ absurd (ground (arith, left_skipped ns s n p fine a, b))
  ]

-- ===== src/Enforce/Pods/Loop.antt =====
-- The loop of `enforcePods`, Pod by Pod, over an API that deletes gracefully.
use gpu_budget_operator.Base.{
  String, ◌<>◌, true, false, Option, none, some, List, [], ◌∷◌, ok, err, ◌≡◌, refl, sym, subst, ◌∙◌,
  ◌⊎◌, inl, inr, arith, All, All-zip, Any, Bool-cases, Call-cases, string_dec,
}
use mathlib.Core.Option.{some-injective}
use gpu_budget_operator.Objects.{Pod, EnforcedResource}
use gpu_budget_operator.Cluster.{Cluster}
use gpu_budget_operator.Cluster.Lawful.{NodupNames}
use gpu_budget_operator.Cluster.Deletion.{IsEnding, IsGraceful}
use gpu_budget_operator.Enforce.Report.{
  client, wrapped, Outcome, Error, resource, also, nothing, deleted_action,
}
use gpu_budget_operator.Enforce.Pods.{skips_pod, delete_loop}

module _ (c : Cluster) (view : String → c.State → String → Option (Pod c.Quantity))
    (G : IsGraceful c view) where
  abbrev pub IsReport : String → EnforcedResource → Type 0
  IsReport n r = (r.kind ≡ "Pod") × (r.name ≡ n) × (r.action ≡ deleted_action)

  -- The Pod `n` was due, is gone or terminating, and is among the reported resources.
  abbrev pub IsDeleted : String → c.State → Outcome c.Err c.State → String → Type 0
  IsDeleted ns s out n =
      (p : Pod c.Quantity) × (view ns s n ≡ some p)
      × (skips_pod c p ≡ false)
      × IsEnding c p (view ns out.state n)
      × Any (IsReport n) out.resources

  abbrev pub IsListed : String → c.State → List (Pod c.Quantity) → Type 0
  IsListed ns s ps =
      All (λ p. (p.meta.namespace ≡ ns) × (view ns s p.meta.name ≡ some p)) ps
      × NodupNames (λ p. p.meta.name) ps

  listed_after :
      (ns : String) (p : Pod c.Quantity) (ps : List (Pod c.Quantity)) (s s' : c.State)
      → IsListed ns s (p ∷ ps)
      → c.pods.delete p s ≡ (ok tt, s')
      → IsListed ns s' ps
  listed_after ns p ps s s' (here, fresh) e = (
    All-zip
        (λ u listed other.
          (listed.0, (G.delete_ok ns p s s' here.0.0 e).1 u.meta.name other ∙ listed.1))
        ps here.1 fresh.0,
    fresh.1,
  )

  -- The ways a round of the loop goes.
  delete_loop-skipped :
      (ns : String) (p : Pod c.Quantity) (ps : List (Pod c.Quantity)) (s : c.State)
      → skips_pod c p ≡ true
      → delete_loop c ns (p ∷ ps) s ≡ delete_loop c ns ps s
  unfolding delete_loop
  delete_loop-skipped ns p ps s h = rw (h, delete_loop)

  delete_loop-sent :
      (ns : String) (p : Pod c.Quantity) (ps : List (Pod c.Quantity)) (s s' : c.State)
      → skips_pod c p ≡ false
      → c.pods.delete p s ≡ (ok tt, s')
      → delete_loop c ns (p ∷ ps) s
        ≡ also (resource "v1" "Pod" p.meta.name deleted_action (c.now s')) (delete_loop c ns ps s')
  unfolding delete_loop
  delete_loop-sent ns p ps s s' h e = ground arith

  -- A listed Pod is there, so "not found" cannot come back.
  delete_loop-refused :
      (ns : String) (p : Pod c.Quantity) (ps : List (Pod c.Quantity)) (s s' : c.State) (e : c.Err)
      → (p.meta.namespace ≡ ns) × (view ns s p.meta.name ≡ some p)
      → skips_pod c p ≡ false
      → c.pods.delete p s ≡ (err e, s')
      → (o : Error c.Err) × (delete_loop c ns (p ∷ ps) s ≡ nothing (some o) s')
  unfolding delete_loop
  delete_loop-refused ns p ps s s' e here h q = (
    wrapped ("deleting pod " <> ns <> "/" <> p.meta.name) (client e),
    ground (arith, (G.delete_err ns p s e s' here.0 q).0),
  )

  -- A Pod that is ending is passed over where it still stands.
  pub ending_skipped :
      (p q : Pod c.Quantity) (o : Option (Pod c.Quantity))
      → IsEnding c p o
      → o ≡ some q
      → skips_pod c q ≡ false
      → ⊥
  unfolding skips_pod
  ending_skipped p q o (inl gone) e due = absurd (ground (arith, gone, e))
  ending_skipped p q o (inr (t, stands)) e due =
      let same : record p { deletion_timestamp = some t } ≡ q =
        some-injective _ _ (sym stands ∙ e) in
      absurd (ground (arith, subst (λ u. skips_pod c u ≡ false) (sym same) due))

  also-IsDeleted :
      (ns : String) (p : Pod c.Quantity) (s s' : c.State) (n : String)
      (rest : Outcome c.Err c.State)
      → (p.meta.namespace ≡ ns) × (view ns s p.meta.name ≡ some p)
      → skips_pod c p ≡ false
      → c.pods.delete p s ≡ (ok tt, s')
      → (view ns rest.state n ≡ view ns s' n) ⊎ IsDeleted ns s' rest n
      → (view ns rest.state n ≡ view ns s n)
        ⊎ IsDeleted ns s (also (resource "v1" "Pod" p.meta.name deleted_action (c.now s')) rest) n
  also-IsDeleted ns p s s' n rest here due e known = go (string_dec n p.meta.name) known
    where
      elsewhere : (n ≡ p.meta.name → ⊥) → view ns s' n ≡ view ns s n
      elsewhere = (G.delete_ok ns p s s' here.0 e).1 n

      ended : n ≡ p.meta.name → IsEnding c p (view ns s' n)
      ended h = rw h ((G.delete_ok ns p s s' here.0 e).0 p here.1)

      go :
          Dec (n ≡ p.meta.name)
          → (view ns rest.state n ≡ view ns s' n) ⊎ IsDeleted ns s' rest n
          → (view ns rest.state n ≡ view ns s n)
            ⊎ IsDeleted ns s
                (also (resource "v1" "Pod" p.meta.name deleted_action (c.now s')) rest)
                n
      go (yes h) (inl q) = inr (p, rw h here.1, due, rw q (ended h), inl (refl, sym h, refl))
      go (yes h) (inr (v, a, b, d, r)) = absurd (ending_skipped p v _ (ended h) a b)
      go (no h) (inl q) = inl (q ∙ elsewhere h)
      go (no h) (inr (v, a, b, d, r)) = inr (v, sym (elsewhere h) ∙ a, b, d, inr r)

  pub delete_loop-IsDeleted :
      (ns : String) (ps : List (Pod c.Quantity)) (s : c.State)
      → IsListed ns s ps
      → (n : String)
      → (view ns (delete_loop c ns ps s).state n ≡ view ns s n)
        ⊎ IsDeleted ns s (delete_loop c ns ps s) n
  unfolding delete_loop
  delete_loop-IsDeleted ns [] s h n = inl refl
  delete_loop-IsDeleted ns (p ∷ ps) s h n = elim (Bool-cases (skips_pod c p)) [
    | inl skipped ↦
        rw (delete_loop-skipped ns p ps s skipped) (delete_loop-IsDeleted ns ps s (h.0.1, h.1.1) n)
    | inr due ↦ elim (Call-cases (c.pods.delete p s)) [
      | inl (tt, s', q) ↦ rw (delete_loop-sent ns p ps s s' due q) (
          also-IsDeleted ns p s s' n (delete_loop c ns ps s') h.0.0 due q
            (delete_loop-IsDeleted ns ps s' (listed_after ns p ps s s' h q) n))
      | inr (e, s', q) ↦
          rw ((delete_loop-refused ns p ps s s' e h.0.0 due q).1)
            (inl ((G.delete_err ns p s e s' h.0.0.0 q).1 n))
    ]
  ]

  stays-IsEnding :
      (ns : String) (ps : List (Pod c.Quantity)) (s : c.State) (n : String) (p : Pod c.Quantity)
      → IsListed ns s ps
      → IsEnding c p (view ns s n)
      → IsEnding c p (view ns (delete_loop c ns ps s).state n)
  stays-IsEnding ns ps s n p h e = elim (delete_loop-IsDeleted ns ps s h n) [
    | inl same ↦ rw same e
    | inr (q, a, b, d, r) ↦ absurd (ending_skipped p q _ e a b)
  ]

  -- With no error every listed Pod that was due is gone or terminating.
  pub delete_loop-IsEnding :
      (ns : String) (ps : List (Pod c.Quantity)) (s : c.State) (v : Pod c.Quantity)
      → IsListed ns s ps
      → (delete_loop c ns ps s).error ≡ none
      → Any (λ p. p ≡ v) ps
      → skips_pod c v ≡ false
      → IsEnding c v (view ns (delete_loop c ns ps s).state v.meta.name)
  delete_loop-IsEnding ns [] s v h fine member due = absurd member
  delete_loop-IsEnding ns (p ∷ ps) s v h fine (inl same) late =
      let due : skips_pod c p ≡ false = rw same late in
      elim (Call-cases (c.pods.delete p s)) [
        | inl (tt, s', q) ↦ rw (delete_loop-sent ns p ps s s' due q) (
            subst (λ u. IsEnding c u (view ns (delete_loop c ns ps s').state u.meta.name)) same
              (stays-IsEnding ns ps s' p.meta.name p (listed_after ns p ps s s' h q)
                ((G.delete_ok ns p s s' h.0.0.0 q).0 p h.0.0.1)))
        | inr (e, s', q) ↦
            absurd (ground (arith, fine, (delete_loop-refused ns p ps s s' e h.0.0 due q).1))
      ]
  delete_loop-IsEnding ns (p ∷ ps) s v h fine (inr member) late =
      elim (Bool-cases (skips_pod c p)) [
        | inl skipped ↦
            let step = delete_loop-skipped ns p ps s skipped in
            rw step (delete_loop-IsEnding ns ps s v (h.0.1, h.1.1) (rw step at fine) member late)
        | inr due ↦ elim (Call-cases (c.pods.delete p s)) [
          | inl (tt, s', q) ↦
              let step = delete_loop-sent ns p ps s s' due q in
              rw step (
                delete_loop-IsEnding ns ps s' v (listed_after ns p ps s s' h q) (rw step at fine)
                  member late)
          | inr (e, s', q) ↦
              absurd (ground (arith, fine, (delete_loop-refused ns p ps s s' e h.0.0 due q).1))
        ]
      ]

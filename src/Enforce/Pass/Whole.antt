-- ===== src/Enforce/Pass/Whole.antt =====
-- A pass as a whole, over a lawful API: what it stores and what it reports.
use gpu_budget_operator.Base.{
  String, Bool, true, false, Option, none, some, List, ok, ◌≡◌, sym, subst, ◌∙◌, ◌⊎◌, inl, inr,
  arith, All, All-map, Call-cases,
}
use gpu_budget_operator.Cluster.Lawful.{IsLawful}
use gpu_budget_operator.Enforce.Pass.{Marker, mark_loop, pass}
use gpu_budget_operator.Enforce.Pass.Steps.{pass-listed, pass-unlisted}
use gpu_budget_operator.Enforce.Pass.Loop.{
  IsMarking, IsMarked, IsListed, mark_loop-IsMarked, mark_loop-IsStored,
}
use gpu_budget_operator.Enforce.Pass.Reports.{IsTrue, IsTrue-from, mark_loop-IsTrue}

module _ {S E T : Type 0} (m : Marker S E T) (is_not_found : E → Bool)
    (view : String → S → String → Option T)
    (L : IsLawful m.name m.namespace m.api is_not_found view) (K : IsMarking m) where
  listed :
      (ns : String) (s s' : S) (xs : List T)
      → m.api.list ns s ≡ (ok xs, s')
      → IsListed m is_not_found view L K ns s' xs
  listed ns s s' xs e =
      let (same, each, all, distinct) = L.list_ok ns s xs s' e in
      (
        All-map (λ x. (m.namespace x ≡ ns) × (view ns s (m.name x) ≡ some x))
            (λ x. (m.namespace x ≡ ns) × (view ns s' (m.name x) ≡ some x))
            (λ x h. (h.0, same (m.name x) ∙ h.1)) xs each,
        distinct,
      )

  -- Whatever comes back, also an error: every stored object of the namespace is as it was, or it
  -- was not passed over, is now stored as marked and is among the reported resources.
  pub pass-IsMarked :
      (ns : String) (s : S) (n : String)
      → (view ns (pass m ns s).state n ≡ view ns s n)
        ⊎ IsMarked m is_not_found view L K ns s (pass m ns s) n
  pass-IsMarked ns s n = elim (Call-cases (m.api.list ns s)) [
    | inl (xs, s', e) ↦
        let same = (L.list_ok ns s xs s' e).0 n in
        rw (pass-listed m ns s s' xs e)
          (elim (mark_loop-IsMarked m is_not_found view L K ns xs s' (listed ns s s' xs e) n) [
            | inl q ↦ inl (q ∙ same)
            | inr r ↦ inr (record {
              before = r.before;
              after = r.after;
              found = sym same ∙ r.found;
              due = r.due;
              marked = r.marked;
              stored = r.stored;
              reported = r.reported;
            })
          ])
    | inr (e, s', p) ↦ rw (pass-unlisted m ns s s' e p) (inl (L.list_err ns s e s' p n))
  ]

  -- Every resource that is reported was an object of the namespace that was not passed over, and
  -- is now stored as marked.
  pub pass-IsTrue :
      (ns : String) (s : S)
      → All (IsTrue m is_not_found view L K ns s (pass m ns s).state) (pass m ns s).resources
  pass-IsTrue ns s = elim (Call-cases (m.api.list ns s)) [
    | inl (xs, s', e) ↦
        let out = mark_loop m ns xs s' in
        let same = (L.list_ok ns s xs s' e).0 in
        rw (pass-listed m ns s s' xs e) (
          All-map (IsTrue m is_not_found view L K ns s' out.state)
            (IsTrue m is_not_found view L K ns s out.state)
            (λ r h.
              IsTrue-from m is_not_found view L K ns s s' out.state r h
                (sym (same h.object) ∙ h.found))
            out.resources (mark_loop-IsTrue m is_not_found view L K ns xs s' (listed ns s s' xs e)))
    | inr (e, s', p) ↦ rw (pass-unlisted m ns s s' e p) tt
  ]

  -- With no error, where the list did not fail either, an object that is not passed over is stored
  -- as marked.
  pub pass-due :
      (ns : String) (s s' : S) (xs : List T) (n : String) (x : T)
      → m.api.list ns s ≡ (ok xs, s')
      → (pass m ns s).error ≡ none
      → view ns s n ≡ some x
      → m.skips x ≡ false
      → (y : T) × (m.mark ns x ≡ ok y) × (view ns (pass m ns s).state n ≡ some y)
  pass-due ns s s' xs n x e fine here due =
      let step = pass-listed m ns s s' xs e in
      let (named, member) = (L.list_ok ns s xs s' e).2 n x here in
      let (y, p, stored) =
        mark_loop-IsStored m is_not_found view L K ns xs s' x (listed ns s s' xs e)
          (rw step at fine) member due in
      rw step (y, p, subst (λ u. view ns (mark_loop m ns xs s').state u ≡ some y) named stored)

  -- An object that is passed over is as it was.
  pub pass-skipped :
      (ns : String) (s : S) (n : String) (x : T)
      → view ns s n ≡ some x
      → m.skips x ≡ true
      → view ns (pass m ns s).state n ≡ some x
  pass-skipped ns s n x here skipped = elim (pass-IsMarked ns s n) [
    | inl same ↦ same ∙ here
    | inr r ↦ absurd (ground (arith, here, skipped, r.found, r.due))
  ]

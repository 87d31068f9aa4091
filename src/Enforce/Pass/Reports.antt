-- ===== src/Enforce/Pass/Reports.antt =====
-- What the loop of a pass reports, over a lawful API.
use gpu_budget_operator.Base.{
  String, Bool, false, Option, some, List, [], ◌∷◌, ok, ◌≡◌, refl, inl, inr, arith, All, All-map,
  Bool-cases, Call-cases, Result-cases, string_dec,
}
use gpu_budget_operator.Objects.{EnforcedResource}
use gpu_budget_operator.Cluster.Lawful.{IsLawful}
use gpu_budget_operator.Enforce.Pass.{Marker, mark_loop}
use gpu_budget_operator.Enforce.Pass.Steps.{
  mark_loop-skipped, mark_loop-unmarked, mark_loop-sent, mark_loop-refused,
}
use gpu_budget_operator.Enforce.Pass.Loop.{
  IsMarking, IsReport, IsListed, updated, listed_after, head_marked,
}

module _ {S E T : Type 0} (m : Marker S E T) (is_not_found : E → Bool)
    (view : String → S → String → Option T)
    (L : IsLawful m.name m.namespace m.api is_not_found view) (K : IsMarking m) where
  -- The resource tells of an object that was not passed over and is now stored as marked.
  pub record IsTrue (ns : String) (s s' : S) (r : EnforcedResource) : Type 0 where
    pub object : String
    pub before : T
    pub after : T
    pub reports : IsReport m is_not_found view L K object r
    pub found : view ns s object ≡ some before
    pub due : m.skips before ≡ false
    pub marked : m.mark ns before ≡ ok after
    pub stored : view ns s' object ≡ some after

  pub IsTrue-from :
      (ns : String) (s s' t : S) (r : EnforcedResource) (h : IsTrue ns s' t r)
      → view ns s h.object ≡ some h.before
      → IsTrue ns s t r
  IsTrue-from ns s s' t r h e = record {
    object = h.object;
    before = h.before;
    after = h.after;
    reports = h.reports;
    found = e;
    due = h.due;
    marked = h.marked;
    stored = h.stored;
  }

  IsTrue-before :
      (ns : String) (x y : T) (s s' t : S) (z : T) (r : EnforcedResource)
      → m.namespace x ≡ ns
      → m.mark ns x ≡ ok y
      → m.api.update y s ≡ (ok z, s')
      → IsTrue ns s' t r
      → IsTrue ns s t r
  IsTrue-before ns x y s s' t z r here p q h =
      IsTrue-from ns s s' t r h (earlier (string_dec h.object (m.name x)))
    where
      earlier : Dec (h.object ≡ m.name x) → view ns s h.object ≡ some h.before
      earlier (yes e) = absurd (
          ground (
            arith,
            updated m is_not_found view L K ns x y s s' z h.object here p q,
            e,
            h.found,
            h.due,
            K.done ns x y p,
          ))
      earlier (no e) =
          ground
            (arith, updated m is_not_found view L K ns x y s s' z h.object here p q, e, h.found)

  pub mark_loop-IsTrue :
      (ns : String) (xs : List T) (s : S)
      → IsListed m is_not_found view L K ns s xs
      → let out = mark_loop m ns xs s in All (IsTrue ns s out.state) out.resources
  unfolding mark_loop
  mark_loop-IsTrue ns [] s h = tt
  mark_loop-IsTrue ns (x ∷ xs) s h = elim (Bool-cases (m.skips x)) [
    | inl skipped ↦
        rw (mark_loop-skipped m ns x xs s skipped) (mark_loop-IsTrue ns xs s (h.0.1, h.1.1))
    | inr due ↦ elim (Result-cases (m.mark ns x)) [
      | inr (e, p) ↦ rw (mark_loop-unmarked m ns x xs s e due p) tt
      | inl (y, p) ↦ elim (Call-cases (m.api.update y s)) [
        | inl (z, s', q) ↦
            let out = mark_loop m ns xs s' in
            rw (mark_loop-sent m ns x y xs s s' z due p q) (
              record {
                object = m.name x;
                before = x;
                after = y;
                reports = (m.now s', refl);
                found = h.0.0.1;
                due = due;
                marked = p;
                stored = head_marked m is_not_found view L K ns x y xs s s' z h p q;
              },
              All-map (IsTrue ns s' out.state) (IsTrue ns s out.state)
                  (λ r. IsTrue-before ns x y s s' out.state z r h.0.0.0 p q) out.resources
                  (mark_loop-IsTrue ns xs s'
                    (listed_after m is_not_found view L K ns x y xs s s' z h p q)),
            )
        | inr (e, s', q) ↦ rw (mark_loop-refused m ns x y xs s s' e due p q) tt
      ]
    ]
  ]

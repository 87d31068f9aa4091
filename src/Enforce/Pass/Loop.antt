-- ===== src/Enforce/Pass/Loop.antt =====
-- The loop of a pass, object by object, over a lawful API.
use gpu_budget_operator.Base.{
  ℕ, String, Bool, true, false, Option, none, some, List, [], ◌∷◌, ok, ◌≡◌, refl, sym, subst, ap,
  ◌∙◌, ◌⊎◌, inl, inr, arith, All, All-zip, Any, Bool-cases, Call-cases, Result-cases, ◌==◌,
  string_dec, if◌then◌else◌,
}
use gpu_budget_operator.Objects.{EnforcedResource}
use gpu_budget_operator.Cluster.Lawful.{IsLawful, NodupNames}
use gpu_budget_operator.Enforce.Report.{Outcome, also}
use gpu_budget_operator.Enforce.Pass.{Marker, mark_loop}
use gpu_budget_operator.Enforce.Pass.Steps.{
  mark_loop-skipped, mark_loop-unmarked, mark_loop-sent, mark_loop-refused,
}

-- Marking keeps an object's name and leaves it to be passed over.
pub record IsMarking {S E T : Type 0} (m : Marker S E T) : Type 0 where
  pub name : (ns : String) (x y : T) → m.mark ns x ≡ ok y → m.name y ≡ m.name x
  pub namespace : (ns : String) (x y : T) → m.mark ns x ≡ ok y → m.namespace y ≡ m.namespace x
  pub done : (ns : String) (x y : T) → m.mark ns x ≡ ok y → m.skips y ≡ true

module _ {S E T : Type 0} (m : Marker S E T) (is_not_found : E → Bool)
    (view : String → S → String → Option T)
    (L : IsLawful m.name m.namespace m.api is_not_found view) (K : IsMarking m) where
  -- The entry that tells of the object `n`.
  abbrev pub IsReport : String → EnforcedResource → Type 0
  IsReport n r = (t : ℕ) × (r ≡ m.report n t)

  -- The object `n` was not passed over, is now stored as marked, and is among the resources.
  pub record IsMarked (ns : String) (s : S) (out : Outcome E S) (n : String) : Type 0 where
    pub before : T
    pub after : T
    pub found : view ns s n ≡ some before
    pub due : m.skips before ≡ false
    pub marked : m.mark ns before ≡ ok after
    pub stored : view ns out.state n ≡ some after
    pub reported : Any (IsReport n) out.resources

  abbrev pub IsListed : String → S → List T → Type 0
  IsListed ns s xs =
      All (λ x. (m.namespace x ≡ ns) × (view ns s (m.name x) ≡ some x)) xs × NodupNames m.name xs

  -- The update of one object, seen from the name `n`.
  pub updated :
      (ns : String) (x y : T) (s s' : S) (z : T) (n : String)
      → m.namespace x ≡ ns
      → m.mark ns x ≡ ok y
      → m.api.update y s ≡ (ok z, s')
      → view ns s' n ≡ (if n == m.name x then some y else view ns s n)
  updated ns x y s s' z n here marked e =
      ground (
        arith,
        L.update_ok ns y s z s' (K.namespace ns x y marked ∙ here) e n,
        K.name ns x y marked,
      )

  -- Another object's update leaves the rest of the list as listed.
  pub listed_after :
      (ns : String) (x y : T) (xs : List T) (s s' : S) (z : T)
      → IsListed ns s (x ∷ xs)
      → m.mark ns x ≡ ok y
      → m.api.update y s ≡ (ok z, s')
      → IsListed ns s' xs
  listed_after ns x y xs s s' z (here, fresh) marked e = (
    All-zip
        (λ u listed other. (
          listed.0,
          ground (arith, updated ns x y s s' z (m.name u) here.0.0 marked e, listed.1, other),
        ))
        xs here.1 fresh.0,
    fresh.1,
  )

  also-IsMarked :
      (ns : String) (x y : T) (s s' : S) (z : T) (n : String) (rest : Outcome E S)
      → (m.namespace x ≡ ns) × (view ns s (m.name x) ≡ some x)
      → m.skips x ≡ false
      → m.mark ns x ≡ ok y
      → m.api.update y s ≡ (ok z, s')
      → (view ns rest.state n ≡ view ns s' n) ⊎ IsMarked ns s' rest n
      → (view ns rest.state n ≡ view ns s n)
        ⊎ IsMarked ns s (also (m.report (m.name x) (m.now s')) rest) n
  also-IsMarked ns x y s s' z n rest here due marked e known = go (string_dec n (m.name x)) known
    where
      step : view ns s' n ≡ (if n == m.name x then some y else view ns s n)
      step = updated ns x y s s' z n here.0 marked e

      go :
          Dec (n ≡ m.name x)
          → (view ns rest.state n ≡ view ns s' n) ⊎ IsMarked ns s' rest n
          → (view ns rest.state n ≡ view ns s n)
            ⊎ IsMarked ns s (also (m.report (m.name x) (m.now s')) rest) n
      go (yes p) (inl q) = inr (record {
        before = x;
        after = y;
        found = rw p here.1;
        due = due;
        marked = marked;
        stored = ground (arith, step, p, q);
        reported = inl (m.now s', ap (λ u. m.report u (m.now s')) (sym p));
      })
      go (yes p) (inr r) = absurd (ground (arith, step, p, r.found, r.due, K.done ns x y marked))
      go (no p) (inl q) = inl (ground (arith, step, p, q))
      go (no p) (inr r) = inr (record {
        before = r.before;
        after = r.after;
        found = ground (arith, step, p, r.found);
        due = r.due;
        marked = r.marked;
        stored = r.stored;
        reported = inr r.reported;
      })

  pub mark_loop-IsMarked :
      (ns : String) (xs : List T) (s : S)
      → IsListed ns s xs
      → (n : String)
      → let out = mark_loop m ns xs s in (view ns out.state n ≡ view ns s n) ⊎ IsMarked ns s out n
  unfolding mark_loop
  mark_loop-IsMarked ns [] s h n = inl refl
  mark_loop-IsMarked ns (x ∷ xs) s h n = elim (Bool-cases (m.skips x)) [
    | inl skipped ↦
        rw (mark_loop-skipped m ns x xs s skipped) (mark_loop-IsMarked ns xs s (h.0.1, h.1.1) n)
    | inr due ↦ elim (Result-cases (m.mark ns x)) [
      | inr (e, p) ↦ rw (mark_loop-unmarked m ns x xs s e due p) (inl refl)
      | inl (y, p) ↦ elim (Call-cases (m.api.update y s)) [
        | inl (z, s', q) ↦ rw (mark_loop-sent m ns x y xs s s' z due p q) (
            also-IsMarked ns x y s s' z n (mark_loop m ns xs s') h.0.0 due p q
              (mark_loop-IsMarked ns xs s' (listed_after ns x y xs s s' z h p q) n))
        | inr (e, s', q) ↦
            rw (mark_loop-refused m ns x y xs s s' e due p q) (inl (L.update_err ns y s e s' q n))
      ]
    ]
  ]

  -- A marked object stays so in the rest of the loop, since it is passed over.
  stays_marked :
      (ns : String) (x y : T) (xs : List T) (s : S) (n : String)
      → IsListed ns s xs
      → m.mark ns x ≡ ok y
      → view ns s n ≡ some y
      → view ns (mark_loop m ns xs s).state n ≡ some y
  stays_marked ns x y xs s n h p e = elim (mark_loop-IsMarked ns xs s h n) [
    | inl same ↦ same ∙ e
    | inr r ↦ absurd (ground (arith, e, r.found, r.due, K.done ns x y p))
  ]

  pub head_marked :
      (ns : String) (x y : T) (xs : List T) (s s' : S) (z : T)
      → IsListed ns s (x ∷ xs)
      → m.mark ns x ≡ ok y
      → m.api.update y s ≡ (ok z, s')
      → view ns (mark_loop m ns xs s').state (m.name x) ≡ some y
  head_marked ns x y xs s s' z h p q =
      stays_marked ns x y xs s' (m.name x) (listed_after ns x y xs s s' z h p q) p
        (ground (arith, updated ns x y s s' z (m.name x) h.0.0.0 p q))

  -- The object `x` is stored as marked.
  abbrev pub IsStored : String → S → T → Type 0
  IsStored ns s x = (y : T) × (m.mark ns x ≡ ok y) × (view ns s (m.name x) ≡ some y)

  -- With no error every object of the list that was not passed over is stored as marked.
  pub mark_loop-IsStored :
      (ns : String) (xs : List T) (s : S) (v : T)
      → IsListed ns s xs
      → (mark_loop m ns xs s).error ≡ none
      → Any (λ y. y ≡ v) xs
      → m.skips v ≡ false
      → IsStored ns (mark_loop m ns xs s).state v
  mark_loop-IsStored ns [] s v h fine member due = absurd member
  mark_loop-IsStored ns (x ∷ xs) s v h fine (inl same) late =
      let due : m.skips x ≡ false = rw same late in
      elim (Result-cases (m.mark ns x)) [
        | inr (e, p) ↦ absurd (ground (arith, fine, mark_loop-unmarked m ns x xs s e due p))
        | inl (y, p) ↦ elim (Call-cases (m.api.update y s)) [
          | inl (z, s', q) ↦ rw (mark_loop-sent m ns x y xs s s' z due p q) (
              subst (IsStored ns (mark_loop m ns xs s').state) same
                (y, p, head_marked ns x y xs s s' z h p q))
          | inr (e, s', q) ↦
              absurd (ground (arith, fine, mark_loop-refused m ns x y xs s s' e due p q))
        ]
      ]
  mark_loop-IsStored ns (x ∷ xs) s v h fine (inr member) late = elim (Bool-cases (m.skips x)) [
    | inl skipped ↦
        let step = mark_loop-skipped m ns x xs s skipped in
        rw step (mark_loop-IsStored ns xs s v (h.0.1, h.1.1) (rw step at fine) member late)
    | inr due ↦ elim (Result-cases (m.mark ns x)) [
      | inr (e, p) ↦ absurd (ground (arith, fine, mark_loop-unmarked m ns x xs s e due p))
      | inl (y, p) ↦ elim (Call-cases (m.api.update y s)) [
        | inl (z, s', q) ↦
            let step = mark_loop-sent m ns x y xs s s' z due p q in
            rw step (
              mark_loop-IsStored ns xs s' v (listed_after ns x y xs s s' z h p q) (rw step at fine)
                member late)
        | inr (e, s', q) ↦
            absurd (ground (arith, fine, mark_loop-refused m ns x y xs s s' e due p q))
      ]
    ]
  ]

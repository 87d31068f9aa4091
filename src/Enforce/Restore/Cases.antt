-- ===== src/Enforce/Restore/Cases.antt =====
-- The ways a restore of a stored object goes, over a lawful API.
use gpu_budget_operator.Base.{
  String, Option, none, some, Result, ok, err, ◌≡◌, refl, sym, ap, ◌∙◌, ◌⊎◌, inl, inr, arith,
  Call-cases, ◌==◌, if◌then◌else◌,
}
use mathlib.Core.Option.{some-injective}
use gpu_budget_operator.Cluster.Lawful.{IsLawful}
use gpu_budget_operator.Enforce.Report.{Error, client, sent}
use gpu_budget_operator.Enforce.Restore.{Restorer, restore_found, restore}
use gpu_budget_operator.Enforce.Restore.Whole.{InPlace, fetched, missing}

module _ {S E T : Type 0} (r : Restorer S E T) (name namespace : T → String)
    (view : String → S → String → Option T)
    (L : IsLawful name namespace r.api r.is_not_found view) where
  -- What is stored in the namespace is as it was.
  abbrev pub Kept : String → S → S → Type 0
  Kept ns s s' = (m : String) → view ns s' m ≡ view ns s m

  -- A call of the API failed; the object has no annotation; the annotation is refused; or what it
  -- keeps is stored.
  abbrev pub IsOneOf :
      String → String → S → Option (Result (Error E) T) → Option (Error E) × S → Type 0
  IsOneOf ns n s o back =
      ((f : E) × (back.0 ≡ some (client f)) × Kept ns s back.1)
      ⊎ (((o ≡ none) × (back.0 ≡ none) × Kept ns s back.1)
          ⊎ (((e : Error E) × (o ≡ some (err e)) × (back.0 ≡ some e) × Kept ns s back.1)
              ⊎ ((y : T) × (o ≡ some (ok y))
                  × (back.0 ≡ none)
                  × ((m : String) → view ns back.1 m ≡ (if m == n then some y else view ns s m)))))

  sent_cases :
      (ns n : String) (s s' : S) (y : T)
      → Kept ns s s'
      → namespace y ≡ ns
      → name y ≡ n
      → IsOneOf ns n s (some (ok y)) (sent (r.api.update y s'))
  sent_cases ns n s s' y same space named = elim (Call-cases (r.api.update y s')) [
    | inl (z, t, e) ↦ rw e (
        inr (
          inr (
            inr (
              y,
              refl,
              refl,
              λ m. ground (arith, L.update_ok ns y s' z t space e m, named, same m),
            ))))
    | inr (f, t, e) ↦ rw e (inl (f, refl, λ m. L.update_err ns y s' f t e m ∙ same m))
  ]

  found_cases :
      (ns n : String) (s s' : S) (o : Option (Result (Error E) T))
      → Kept ns s s'
      → ((y : T) → o ≡ some (ok y) → (namespace y ≡ ns) × (name y ≡ n))
      → IsOneOf ns n s o (restore_found r o s')
  unfolding restore_found
  found_cases ns n s s' none same h = inr (inl (refl, refl, same))
  found_cases ns n s s' (some (err e)) same h = inr (inr (inl (e, refl, refl, same)))
  found_cases ns n s s' (some (ok y)) same h = sent_cases ns n s s' y same (h y refl).0 (h y refl).1

  pub restore_cases :
      (ns n : String) (s : S) (x : T)
      → view ns s n ≡ some x
      → InPlace r name namespace view L ns x
      → IsOneOf ns n s (r.recover ns x) (restore r ns n s)
  restore_cases ns n s x here stays = elim (Call-cases (r.api.get ns n s)) [
    | inl (u, s', p) ↦
        let (there, space, named, same) = L.get_ok ns n s u s' p in
        let is_x : u ≡ x = some-injective _ _ (sym there ∙ here) in
        rw (fetched r name namespace view L ns n s s' u p, is_x)
          (found_cases ns n s s' (r.recover ns x) same (λ y q.
            let (a, b) = stays y q in
            (a ∙ ap namespace (sym is_x) ∙ space, b ∙ ap name (sym is_x) ∙ named)))
    | inr (f, s', p) ↦
        let (absent, same) = L.get_err ns n s f s' p in
        inl (
          f,
          ground (arith, missing r name namespace view L ns n s s' f p, absent, here),
          λ m. ap (λ b. view ns b.1 m) (missing r name namespace view L ns n s s' f p) ∙ same m,
        )
  ]

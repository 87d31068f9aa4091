-- ===== src/Enforce/Restore/Whole.antt =====
-- A restore over a lawful API: what it stores on each of its ways.
use gpu_budget_operator.Base.{
  String, Option, none, some, Result, ok, err, ◌≡◌, ◌≢◌, refl, sym, ap, ◌∙◌, arith, Call-cases, inl,
  inr, ◌==◌, if◌then◌else◌,
}
use mathlib.Core.Option.{some-injective}
use gpu_budget_operator.Cluster.Lawful.{IsLawful}
use gpu_budget_operator.Enforce.Report.{Error, client, sent}
use gpu_budget_operator.Enforce.Restore.{Restorer, restore_found, restore}

module _ {S E T : Type 0} (r : Restorer S E T) (name namespace : T → String)
    (view : String → S → String → Option T)
    (L : IsLawful name namespace r.api r.is_not_found view) where
  pub fetched :
      (ns n : String) (s s' : S) (x : T)
      → r.api.get ns n s ≡ (ok x, s')
      → restore r ns n s ≡ restore_found r (r.recover ns x) s'
  unfolding restore
  fetched ns n s s' x e = ground arith

  pub missing :
      (ns n : String) (s s' : S) (e : E)
      → r.api.get ns n s ≡ (err e, s')
      → restore r ns n s ≡ (if r.is_not_found e then none else some (client e), s')
  unfolding restore
  missing ns n s s' e p = ground arith

  -- What the last call leaves, by its outcome.
  sent_effect :
      (ns : String) (s : S) (y : T) (m : String)
      → namespace y ≡ ns
      → let done = sent (r.api.update y s) in
        view ns done.1 m ≡ (elim done.0 [
          | none ↦ if m == name y then some y else view ns s m
          | some e ↦ view ns s m
        ])
  sent_effect ns s y m p = elim (Call-cases (r.api.update y s)) [
    | inl (z, s', e) ↦ rw e (L.update_ok ns y s z s' p e m)
    | inr (e, s', h) ↦ rw h (L.update_err ns y s e s' h m)
  ]

  -- The recovered object stands where the object stood.
  abbrev pub InPlace : String → T → Type 0
  InPlace ns x =
      (y : T) → r.recover ns x ≡ some (ok y) → (namespace y ≡ namespace x) × (name y ≡ name x)

  -- A restore of one object changes no other.
  restore_found_elsewhere :
      (ns n : String) (s : S) (x : T) (o : Option (Result (Error E) T))
      → ((y : T) → o ≡ some (ok y) → (namespace y ≡ ns) × (name y ≢ n))
      → view ns (restore_found r o s).1 n ≡ view ns s n
  unfolding restore_found
  restore_found_elsewhere ns n s x none h = refl
  restore_found_elsewhere ns n s x (some (err f)) h = refl
  restore_found_elsewhere ns n s x (some (ok y)) h =
      let (in_namespace, apart) = h y refl in
      ground (arith, sent_effect ns s y n in_namespace, λ (p : name y ≡ n). apart p)

  pub restore_elsewhere :
      (ns m n : String) (s : S)
      → ((x : T) → InPlace ns x)
      → m ≢ n
      → view ns (restore r ns m s).1 n ≡ view ns s n
  restore_elsewhere ns m n s stays apart = elim (Call-cases (r.api.get ns m s)) [
    | inl (x, s', p) ↦
        let (here, in_namespace, named, same) = L.get_ok ns m s x s' p in
        rw (fetched ns m s s' x p) (
          restore_found_elsewhere ns n s' x (r.recover ns x) (λ y q.
            let (space, same_name) = stays x y q in
            (space ∙ in_namespace, λ e. apart (sym named ∙ sym same_name ∙ e)))
          ∙ same n)
    | inr (f, s', p) ↦ rw (missing ns m s s' f p) ((L.get_err ns m s f s' p).1 n)
  ]

  -- A restore of an object that is not there, or that has no annotation of the operator, stores
  -- nothing.
  pub restore_idle :
      (ns n : String) (s : S)
      → ((x : T) → view ns s n ≡ some x → r.recover ns x ≡ none)
      → (m : String) → view ns (restore r ns n s).1 m ≡ view ns s m
  unfolding restore_found
  restore_idle ns n s idle m = elim (Call-cases (r.api.get ns n s)) [
    | inl (x, s', p) ↦
        let (here, in_namespace, named, same) = L.get_ok ns n s x s' p in
        rw (fetched ns n s s' x p, idle x here) (same m)
    | inr (f, s', p) ↦ rw (missing ns n s s' f p) ((L.get_err ns n s f s' p).1 m)
  ]

  -- A restore without an error stores the recovered object, and nothing else.
  pub restore_done :
      (ns n : String) (s : S) (x y : T)
      → view ns s n ≡ some x
      → r.recover ns x ≡ some (ok y)
      → InPlace ns x
      → (restore r ns n s).0 ≡ none
      → (m : String) → view ns (restore r ns n s).1 m ≡ (if m == n then some y else view ns s m)
  unfolding restore_found
  restore_done ns n s x y here found stays fine m = elim (Call-cases (r.api.get ns n s)) [
    | inl (u, s', p) ↦
        let (there, in_namespace, named, same) = L.get_ok ns n s u s' p in
        let is_x : u ≡ x = some-injective _ _ (sym there ∙ here) in
        let step : restore r ns n s ≡ sent (r.api.update y s') =
          fetched ns n s s' u p
          ∙ ap (λ z. restore_found r (r.recover ns z) s') is_x
          ∙ ap (λ o. restore_found r o s') found in
        let placed = stays y found in
        let effect = sent_effect ns s' y m (placed.0 ∙ ap namespace (sym is_x) ∙ in_namespace) in
        let named_y = placed.1 ∙ ap name (sym is_x) ∙ named in
        rw step (ground (arith, effect, rw step at fine, named_y, same m))
    | inr (f, s', p) ↦
        absurd (ground (arith, fine, here, missing ns n s s' f p, (L.get_err ns n s f s' p).0))
  ]

  -- Where the annotation of a stored object cannot be recovered, the restore returns an error.
  pub restore_refused :
      (ns n : String) (s : S) (x : T) (e : Error E)
      → view ns s n ≡ some x
      → r.recover ns x ≡ some (err e)
      → (restore r ns n s).0 ≢ none
  unfolding restore_found
  restore_refused ns n s x e here broken fine = elim (Call-cases (r.api.get ns n s)) [
    | inl (u, s', p) ↦
        let (there, _, _, _) = L.get_ok ns n s u s' p in
        let is_x : u ≡ x = some-injective _ _ (sym there ∙ here) in
        let step : restore r ns n s ≡ (some e, s') =
          fetched ns n s s' u p
          ∙ ap (λ z. restore_found r (r.recover ns z) s') is_x
          ∙ ap (λ o. restore_found r o s') broken in
        absurd (ground (arith, fine, step))
    | inr (f, s', p) ↦
        absurd (ground (arith, fine, here, missing ns n s s' f p, (L.get_err ns n s f s' p).0))
  ]

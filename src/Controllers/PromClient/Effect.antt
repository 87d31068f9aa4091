-- ===== src/Controllers/PromClient/Effect.antt =====
-- What one step of a caller does to what is shared.
use gpu_budget_operator.Base.{
  Bool, true, false, none, some, Result, ok, err, ◌≡◌, refl, sym, subst, ◌∙◌, ◌⊎◌, inl, inr, arith,
  Bool-cases, Option-cases, Call-cases, ◌==◌,
}
use mathlib.Core.Option.{some-injective}
use gpu_budget_operator.Budget.{Floats}
use gpu_budget_operator.Cluster.{Cluster}
use gpu_budget_operator.Enforce.Report.{Error}
use gpu_budget_operator.Controllers.Host.{Host}
use gpu_budget_operator.Controllers.Status.{Settings}
use gpu_budget_operator.Controllers.PromClient.{
  starting, waiting, entered, missing, made, leaving, returned, Place, Memory, no_url, step,
}

module _ (c : Cluster) (fl : Floats) (h : Host c fl) (r : Settings fl.F) where
  -- Between `Lock` and `Unlock`.
  abbrev pub inside : Place c fl h r → Bool
  inside starting = false
  inside waiting = false
  inside entered = true
  inside missing = true
  inside (made p) = true
  inside (leaving result) = true
  inside (returned result) = false

  -- What a caller relies on where it stands.
  abbrev pub Fits : Memory c fl h r → Place c fl h r → Type 0
  Fits m starting = Unit
  Fits m waiting = Unit
  Fits m entered = m.locked ≡ true
  Fits m missing = (m.locked ≡ true) × (m.prom_client ≡ none)
  Fits m (made p) = (m.locked ≡ true) × (m.prom_client ≡ none)
  Fits m (leaving (ok p)) = (m.locked ≡ true) × (m.prom_client ≡ some p)
  Fits m (leaving (err e)) = m.locked ≡ true
  Fits m (returned (ok p)) = m.prom_client ≡ some p
  Fits m (returned (err e)) = Unit

  pub Fits-locked :
      (m : Memory c fl h r) (q : Place c fl h r) → Fits m q → inside q ≡ true → m.locked ≡ true
  Fits-locked m starting f e = absurd (cc)
  Fits-locked m waiting f e = absurd (cc)
  Fits-locked m entered f e = f
  Fits-locked m missing f e = f.0
  Fits-locked m (made p) f e = f.0
  Fits-locked m (leaving (ok p)) f e = f.0
  Fits-locked m (leaving (err x)) f e = f
  Fits-locked m (returned result) f e = absurd (cc)

  -- Another caller still fits: one inside sees nothing change, and a cached client stays.
  pub Fits_frame :
      (m m' : Memory c fl h r) (q : Place c fl h r)
      → (inside q ≡ true → (m'.locked ≡ m.locked) × (m'.prom_client ≡ m.prom_client))
      → ((p : h.Client) → m.prom_client ≡ some p → m'.prom_client ≡ some p)
      → Fits m q
      → Fits m' q
  Fits_frame m m' starting same kept f = tt
  Fits_frame m m' waiting same kept f = tt
  Fits_frame m m' entered same kept f = (same refl).0 ∙ f
  Fits_frame m m' missing same kept f = ((same refl).0 ∙ f.0, (same refl).1 ∙ f.1)
  Fits_frame m m' (made p) same kept f = ((same refl).0 ∙ f.0, (same refl).1 ∙ f.1)
  Fits_frame m m' (leaving (ok p)) same kept f = ((same refl).0 ∙ f.0, (same refl).1 ∙ f.1)
  Fits_frame m m' (leaving (err e)) same kept f = (same refl).0 ∙ f
  Fits_frame m m' (returned (ok p)) same kept f = kept p f
  Fits_frame m m' (returned (err e)) same kept f = tt

  pub record Effect (m : Memory c fl h r) (p : Place c fl h r) (m' : Memory c fl h r)
      (p' : Place c fl h r) : Type 0 where
    pub fits : Fits m' p'
    pub kept : (q : h.Client) → m.prom_client ≡ some q → m'.prom_client ≡ some q
    pub shared :
        ((m'.locked ≡ m.locked) × (m'.prom_client ≡ m.prom_client))
        ⊎ (m.locked ≡ false)
        ⊎ (inside p ≡ true)
    pub enters : inside p' ≡ true → (m.locked ≡ false) ⊎ (inside p ≡ true)
    pub held : m'.locked ≡ true → (inside p' ≡ true) ⊎ ((inside p ≡ false) × (m.locked ≡ true))

  left :
      (m : Memory c fl h r) (result : Result (Error c.Err) h.Client)
      → Fits m (leaving result)
      → Fits (record m { locked = false }) (returned result)
  left m (ok p) f = f.1
  left m (err e) f = tt

  -- The step is the one that was taken.
  taken :
      (m m' n : Memory c fl h r) (p p' q : Place c fl h r)
      → step c fl h r m p ≡ some (n, q)
      → step c fl h r m p ≡ some (m', p')
      → Effect m p n q
      → Effect m p m' p'
  taken m m' n p p' q a b is = subst (λ x. Effect m p x.0 x.1) (some-injective _ _ (sym a ∙ b)) is

  -- A step that changes neither the mutex nor the cache.
  quiet :
      (m n : Memory c fl h r) (p q : Place c fl h r)
      → Fits n q
      → (n.locked ≡ m.locked) × (n.prom_client ≡ m.prom_client)
      → inside p ≡ inside q
      → Effect m p n q
  quiet m n p q f same where_it_is = record {
    fits = f;
    kept = λ x e. same.1 ∙ e;
    shared = inl same;
    enters = λ e. inr (where_it_is ∙ e);
    held = λ e. elim (Bool-cases (inside q)) [
      | inl i ↦ inl i
      | inr i ↦ inr (where_it_is ∙ i, sym same.0 ∙ e)
    ];
  }

  starting-Effect :
      (m m' : Memory c fl h r) (p' : Place c fl h r)
      → step c fl h r m starting ≡ some (m', p')
      → Effect m starting m' p'
  unfolding step
  starting-Effect m m' p' e = elim (Bool-cases (r.prometheus_url == "")) [
    | inl u ↦
        taken m m' m starting p' (returned (err (no_url c fl h r))) (rw (u, step) refl) e
          (quiet m m starting (returned (err (no_url c fl h r))) tt (refl, refl) refl)
    | inr u ↦
        taken m m' m starting p' waiting (rw (u, step) refl) e
          (quiet m m starting waiting tt (refl, refl) refl)
  ]

  waiting-Effect :
      (m m' : Memory c fl h r) (p' : Place c fl h r)
      → step c fl h r m waiting ≡ some (m', p')
      → Effect m waiting m' p'
  unfolding step
  waiting-Effect m m' p' e = elim (Bool-cases m.locked) [
    | inl l ↦ absurd (ground (arith, e, l))
    | inr l ↦
        taken m m' (record m { locked = true }) waiting p' entered (rw (l, step) refl) e
          (record {
            fits = refl;
            kept = λ x q. q;
            shared = inr (inl l);
            enters = λ i. inl l;
            held = λ i. inl refl;
          })
  ]

  entered-Effect :
      (m m' : Memory c fl h r) (p' : Place c fl h r)
      → step c fl h r m entered ≡ some (m', p')
      → m.locked ≡ true
      → Effect m entered m' p'
  unfolding step
  entered-Effect m m' p' e f = elim (Option-cases m.prom_client) [
    | inl l ↦
        taken m m' m entered p' missing (ground (arith, l)) e
          (quiet m m entered missing (f, l) (refl, refl) refl)
    | inr (p, l) ↦
        taken m m' m entered p' (leaving (ok p)) (ground (arith, l)) e
          (quiet m m entered (leaving (ok p)) (f, l) (refl, refl) refl)
  ]

  missing-Effect :
      (m m' : Memory c fl h r) (p' : Place c fl h r)
      → step c fl h r m missing ≡ some (m', p')
      → Fits m missing
      → Effect m missing m' p'
  unfolding step
  missing-Effect m m' p' e f = elim (Call-cases (h.new_client r.prometheus_url m.outside)) [
    | inl (p, s, l) ↦
        taken m m' (record m { outside = s }) missing p' (made p) (ground (arith, l)) e
          (quiet m (record m { outside = s }) missing (made p) f (refl, refl) refl)
    | inr (x, s, l) ↦
        taken m m' (record m { outside = s }) missing p' (leaving (err x)) (ground (arith, l)) e
          (quiet m (record m { outside = s }) missing (leaving (err x)) f.0 (refl, refl) refl)
  ]

  pub step-Effect :
      (m m' : Memory c fl h r) (p p' : Place c fl h r)
      → step c fl h r m p ≡ some (m', p')
      → Fits m p
      → Effect m p m' p'
  unfolding step
  step-Effect m m' starting p' e f = starting-Effect m m' p' e
  step-Effect m m' waiting p' e f = waiting-Effect m m' p' e
  step-Effect m m' entered p' e f = entered-Effect m m' p' e f
  step-Effect m m' missing p' e f = missing-Effect m m' p' e f
  step-Effect m m' (made p) p' e f =
      taken m m' (record m { prom_client = some p }) (made p) p' (leaving (ok p)) refl e
        (record {
          fits = (f.0, refl);
          kept = λ q g. absurd (ground (arith, g, f.1));
          shared = inr (inr refl);
          enters = λ i. inr refl;
          held = λ i. inl refl;
        })
  step-Effect m m' (leaving result) p' e f =
      taken m m' (record m { locked = false }) (leaving result) p' (returned result) refl e
        (record {
          fits = left m result f;
          kept = λ q g. g;
          shared = inr (inr refl);
          enters = λ i. inr refl;
          held = λ i. absurd (cc);
        })
  step-Effect m m' (returned result) p' e f =
      taken m m' m (returned result) p' starting refl e
        (quiet m m (returned result) starting tt (refl, refl) refl)

-- ===== src/Controllers/PromClient/Shared.antt =====
-- What holds of the cached client however the reconciles interleave.
use gpu_budget_operator.Base.{
  ℕ, true, false, some, ok, ◌≡◌, refl, sym, subst, ◌∙◌, inl, inr, arith, eqb, Bool-cases,
}
use mathlib.Core.Option.{some-injective}
use gpu_budget_operator.Budget.{Floats}
use gpu_budget_operator.Cluster.{Cluster}
use gpu_budget_operator.Controllers.Host.{Host}
use gpu_budget_operator.Controllers.Status.{Settings}
use gpu_budget_operator.Controllers.PromClient.{
  starting, returned, Place, Memory, System, update, Step, pick, world, Later, here, next, initial,
}
use gpu_budget_operator.Controllers.PromClient.Effect.{
  inside, Fits, Fits-locked, Fits_frame, Effect, step-Effect,
}

module _ (c : Cluster) (fl : Floats) (h : Host c fl) (r : Settings fl.F) where
  -- Every caller fits, at most one is inside, and the mutex is held by one inside.
  pub record IsGuarded (m : Memory c fl h r) (place : ℕ → Place c fl h r) : Type 0 where
    pub fits : (i : ℕ) → Fits c fl h r m (place i)
    pub alone :
        (i j : ℕ) → inside c fl h r (place i) ≡ true → inside c fl h r (place j) ≡ true → i ≡ j
    pub owner : m.locked ≡ true → (i : ℕ) × (inside c fl h r (place i) ≡ true)

  eqb_same : (i j : ℕ) → eqb i j ≡ true → i ≡ j
  eqb_same i j e = ground arith

  pub moved :
      (place : ℕ → Place c fl h r) (i j : ℕ) (p : Place c fl h r)
      → eqb i j ≡ true
      → update c fl h r place i p j ≡ p
  moved place i j p e = rw e refl

  still :
      (place : ℕ → Place c fl h r) (i j : ℕ) (p : Place c fl h r)
      → eqb i j ≡ false
      → update c fl h r place i p j ≡ place j
  still place i j p e = rw e refl

  module _ (m m' : Memory c fl h r) (place : ℕ → Place c fl h r) (i : ℕ) (p : Place c fl h r)
      (g : IsGuarded m place) (e : Effect c fl h r m (place i) m' p) where
    -- A caller inside other than the one that moves: the mutex was held, so nothing shared changed.
    unchanged :
        (j : ℕ)
        → eqb i j ≡ false
        → inside c fl h r (place j) ≡ true
        → (m'.locked ≡ m.locked) × (m'.prom_client ≡ m.prom_client)
    unchanged j apart in_j = elim e.shared [
      | inl same ↦ same
      | inr (inl free) ↦
          absurd (ground (arith, free, Fits-locked c fl h r m (place j) (g.fits j) in_j))
      | inr (inr in_i) ↦ absurd (ground (arith, apart, g.alone i j in_i in_j))
    ]

    fits_after : (j : ℕ) → Fits c fl h r m' (update c fl h r place i p j)
    fits_after j = elim (Bool-cases (eqb i j)) [
      | inl is ↦ subst (Fits c fl h r m') (sym (moved place i j p is)) e.fits
      | inr apart ↦
          subst (Fits c fl h r m') (sym (still place i j p apart))
            (Fits_frame c fl h r m m' (place j) (unchanged j apart) e.kept (g.fits j))
    ]

    -- Where the mover is inside afterwards, no other caller is.
    no_other :
        (j : ℕ) → eqb i j ≡ false → inside c fl h r p ≡ true → inside c fl h r (place j) ≡ false
    no_other j apart in_p = elim (Bool-cases (inside c fl h r (place j))) [
      | inr out ↦ out
      | inl in_j ↦ elim (e.enters in_p) [
        | inl free ↦ absurd (ground (arith, free, Fits-locked c fl h r m (place j) (g.fits j) in_j))
        | inr in_i ↦ absurd (ground (arith, apart, g.alone i j in_i in_j))
      ]
    ]

    alone_after :
        (j k : ℕ)
        → inside c fl h r (update c fl h r place i p j) ≡ true
        → inside c fl h r (update c fl h r place i p k) ≡ true
        → j ≡ k
    alone_after j k in_j in_k = elim (Bool-cases (eqb i j)) [
      | inl a ↦ elim (Bool-cases (eqb i k)) [
        | inl b ↦ ground (arith, a, b)
        | inr b ↦ absurd (ground (arith, a, b, in_j, in_k, no_other k b))
      ]
      | inr a ↦ elim (Bool-cases (eqb i k)) [
        | inl b ↦ absurd (ground (arith, a, b, in_j, in_k, no_other j a))
        | inr b ↦ ground (arith, a, b, in_j, in_k, g.alone j k)
      ]
    ]

    owner_after :
        m'.locked ≡ true → (j : ℕ) × (inside c fl h r (update c fl h r place i p j) ≡ true)
    owner_after locked = elim (e.held locked) [
      | inl in_p ↦ (i, ground (arith, in_p))
      | inr (out, before) ↦
          let (j, in_j) = g.owner before in
          let apart : eqb i j ≡ false = ground (arith, out, in_j) in
          (j, ground (arith, apart, in_j))
    ]

    move-IsGuarded : IsGuarded m' (update c fl h r place i p)
    move-IsGuarded = record { fits = fits_after; alone = alone_after; owner = owner_after }

  Step-IsGuarded :
      (s u : System c fl h r)
      → Step c fl h r s u
      → IsGuarded s.memory s.place
      → IsGuarded u.memory u.place
  Step-IsGuarded s u (pick i m p e) g =
      move-IsGuarded s.memory m s.place i p g
        (step-Effect c fl h r s.memory m (s.place i) p e (g.fits i))
  Step-IsGuarded s u (world t) g = record {
    fits = λ i.
        Fits_frame c fl h r s.memory (record s.memory { outside = t }) (s.place i)
          (λ _. (refl, refl)) (λ q e. e) (g.fits i);
    alone = g.alone;
    owner = g.owner;
  }

  kept_once :
      (s u : System c fl h r) (p : h.Client)
      → Step c fl h r s u
      → IsGuarded s.memory s.place
      → s.memory.prom_client ≡ some p
      → u.memory.prom_client ≡ some p
  kept_once s u p (pick i m q e) g kept =
      (step-Effect c fl h r s.memory m (s.place i) q e (g.fits i)).kept p kept
  kept_once s u p (world t) g kept = kept

  pub Later-IsGuarded :
      {s u : System c fl h r}
      → IsGuarded s.memory s.place
      → Later c fl h r s u
      → IsGuarded u.memory u.place
  Later-IsGuarded g here = g
  Later-IsGuarded g (next l st) = Step-IsGuarded _ _ st (Later-IsGuarded g l)

  kept_later :
      {s u : System c fl h r} (p : h.Client)
      → IsGuarded s.memory s.place
      → Later c fl h r s u
      → s.memory.prom_client ≡ some p
      → u.memory.prom_client ≡ some p
  kept_later p g here kept = kept
  kept_later p g (next l st) kept = kept_once _ _ p st (Later-IsGuarded g l) (kept_later p g l kept)

  pub initial-IsGuarded : (t : c.State) → IsGuarded (initial c fl h r t).memory (λ _. starting)
  initial-IsGuarded t = record {
    fits = λ i. tt;
    alone = λ i j e f. absurd (cc);
    owner = λ e. absurd (cc);
  }

  -- However the reconciles interleave, and whatever changes outside: all that get a Prometheus
  -- client, at whatever time, get one and the same.
  pub prometheus_client_shared :
      (t : c.State) (s u : System c fl h r)
      → Later c fl h r (initial c fl h r t) s
      → Later c fl h r s u
      → (i j : ℕ) (p q : h.Client) → s.place i ≡ returned (ok p)
      → u.place j ≡ returned (ok q)
      → p ≡ q
  prometheus_client_shared t s u l k i j p q e f =
      let g = Later-IsGuarded (initial-IsGuarded t) l in
      let later = Later-IsGuarded g k in
      let before : s.memory.prom_client ≡ some p = subst (Fits c fl h r s.memory) e (g.fits i) in
      let after : u.memory.prom_client ≡ some q = subst (Fits c fl h r u.memory) f (later.fits j) in
      some-injective _ _ (sym (kept_later p g k before) ∙ after)

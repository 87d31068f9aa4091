-- ===== src/Tests/Store/Listed.antt =====
-- What the store in memory finds and lists.
use gpu_budget_operator.Base.{
  String, true, some, List, [], ◌∷◌, ◌≡◌, ◌≢◌, inl, inr, arith, All, All-map, All-zip, Any, ◌==◌,
  ==_refl, ==_sound, Bool-cases,
}
use gpu_budget_operator.Cluster.Lawful.{NodupNames}
use gpu_budget_operator.Tests.Store.{is_it, find, without, listed}

module _ {T : Type 0} (name namespace : T → String) where
  pub find-place :
      (ns n : String) (xs : List T) (x : T)
      → find name namespace ns n xs ≡ some x
      → (namespace x ≡ ns) × (name x ≡ n)
  unfolding find
  find-place ns n [] x h = absurd (cc)
  find-place ns n (y ∷ xs) x h = elim (Bool-cases (is_it name namespace ns n y)) [
    | inr e ↦ find-place ns n xs x (ground (arith, e, h))
    | inl e ↦
        let same : y ≡ x = ground (arith, e, h) in
        let here : (namespace y == ns) ≡ true = ground (arith, e) in
        let named : (n == name y) ≡ true = ground (arith, e) in
        (
          ground (arith, same, ==_sound (namespace y) ns here),
          ground (arith, same, ==_sound n (name y) named),
        )
  ]

  without-All :
      (P : T → Type 0) (n : String) (xs : List T) → All P xs → All P (without name namespace n xs)
  unfolding without
  without-All P n [] h = tt
  without-All P n (x ∷ xs) h = elim (Bool-cases (n == name x)) [
    | inl e ↦ rw e (without-All P n xs h.1)
    | inr e ↦ rw e (h.0, without-All P n xs h.1)
  ]

  without-differ : (n : String) (xs : List T) → All (λ y. name y ≢ n) (without name namespace n xs)
  unfolding without
  without-differ n [] = tt
  without-differ n (x ∷ xs) = elim (Bool-cases (n == name x)) [
    | inl e ↦ rw e (without-differ n xs)
    | inr e ↦ rw e (λ p. ground (arith, e, p, ==_refl n), without-differ n xs)
  ]

  without-NodupNames :
      (n : String) (xs : List T)
      → NodupNames name xs
      → NodupNames name (without name namespace n xs)
  unfolding without
  without-NodupNames n [] h = tt
  without-NodupNames n (x ∷ xs) h = elim (Bool-cases (n == name x)) [
    | inl e ↦ rw e (without-NodupNames n xs h.1)
    | inr e ↦ rw e (without-All _ n xs h.0, without-NodupNames n xs h.1)
  ]

  without-Any :
      (x : T) (n : String) (xs : List T)
      → name x ≢ n
      → Any (λ y. y ≡ x) xs
      → Any (λ y. y ≡ x) (without name namespace n xs)
  unfolding without
  without-Any x n [] d h = absurd h
  without-Any x n (y ∷ xs) d (inl h) = elim (Bool-cases (n == name y)) [
    | inl e ↦ absurd (ground (arith, d, h, ==_sound n (name y) e))
    | inr e ↦ rw e (inl h)
  ]
  without-Any x n (y ∷ xs) d (inr h) = elim (Bool-cases (n == name y)) [
    | inl e ↦ rw e (without-Any x n xs d h)
    | inr e ↦ rw e (inr (without-Any x n xs d h))
  ]

  pub listed-found :
      (ns : String) (xs : List T)
      → All
          (λ x. (namespace x ≡ ns) × (find name namespace ns (name x) xs ≡ some x))
          (listed name namespace ns xs)
  unfolding listed find
  listed-found ns [] = tt
  listed-found ns (x ∷ xs) = elim (Bool-cases (namespace x == ns)) [
    | inl e ↦ rw e (
      (==_sound _ _ e, ground (arith, e, ==_refl (name x))),
      All-zip (λ y d h. (h.0, ground (arith, d, h.1, ==_sound (name y) (name x)))) _
          (without-differ (name x) (listed name namespace ns xs))
          (without-All _ (name x) (listed name namespace ns xs) (listed-found ns xs)),
    )
    | inr e ↦ rw e (All-map _ _ (λ y h. (h.0, ground (arith, e, h.1))) _ (listed-found ns xs))
  ]

  pub listed-all :
      (ns : String) (xs : List T) (n : String) (x : T)
      → find name namespace ns n xs ≡ some x
      → (name x ≡ n) × Any (λ y. y ≡ x) (listed name namespace ns xs)
  unfolding listed find
  listed-all ns [] n x h = absurd (cc)
  listed-all ns (y ∷ xs) n x h = elim (Bool-cases (namespace y == ns)) [
    | inr e ↦ rw e (listed-all ns xs n x (ground (arith, e, h)))
    | inl e ↦ elim (Bool-cases (n == name y)) [
      | inl p ↦
          let same : y ≡ x = ground (arith, e, p, h) in
          rw e (ground (arith, same, ==_sound n (name y) p), inl same)
      | inr p ↦
          let (q, r) = listed-all ns xs n x (ground (arith, e, p, h)) in
          rw e (
            q,
            inr (
                without-Any x (name y) (listed name namespace ns xs)
                  (ground (arith, p, q, ==_refl n)) r),
          )
    ]
  ]

  pub listed-NodupNames :
      (ns : String) (xs : List T) → NodupNames name (listed name namespace ns xs)
  unfolding listed
  listed-NodupNames ns [] = tt
  listed-NodupNames ns (x ∷ xs) = elim (Bool-cases (namespace x == ns)) [
    | inl e ↦ rw e (
      without-differ (name x) (listed name namespace ns xs),
      without-NodupNames (name x) (listed name namespace ns xs) (listed-NodupNames ns xs),
    )
    | inr e ↦ rw e (listed-NodupNames ns xs)
  ]

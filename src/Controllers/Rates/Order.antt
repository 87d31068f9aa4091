-- ===== src/Controllers/Rates/Order.antt =====
-- `RateFor` over a map whose keys are upper-cased, in any order of the loop.
use text.Mathlib.TextEquality.{Char-path}
use Prim.Native.Char.{code}
use gpu_budget_operator.Base.{
  ℕ, ◌≤◌, String, Bool, true, false, some, ◌≡◌, refl, sym, ap, ◌∙◌, subst, inl, inr, arith, eqb,
  All, Bool-cases,
}
use mathlib.Core.Option.{some-injective}
use gpu_budget_operator.Base.Dict.{Dict, lookup}
use gpu_budget_operator.Base.Dict.Keys.{DistinctKeys, SameMap, lookup-Any, All-lookup}
use gpu_budget_operator.Budget.{Floats}
use gpu_budget_operator.Controllers.Rates.{length, has_prefix, rate_for}
use gpu_budget_operator.Controllers.Rates.Longest.{Prices, IsRate, rate_for-IsRate}

eqb_sound : (i j : ℕ) → eqb i j ≡ true → i ≡ j
eqb_sound i j e = ground (arith, e)

-- One text begins with at most one text of each length.
pub has_prefix_unique :
    (p q s : String) → has_prefix p s ≡ true → has_prefix q s ≡ true → length p ≡ length q → p ≡ q
unfolding has_prefix length
has_prefix_unique String.[] String.[] s e f l = refl
has_prefix_unique String.[] (String.◌∷◌ d q) s e f l = absurd (omega arith)
has_prefix_unique (String.◌∷◌ c p) String.[] s e f l = absurd (omega arith)
has_prefix_unique (String.◌∷◌ c p) (String.◌∷◌ d q) String.[] e f l = absurd (cc)
has_prefix_unique (String.◌∷◌ c p) (String.◌∷◌ d q) (String.◌∷◌ x s) e f l =
    let begins : eqb (code c) (code x) ≡ true = ground (arith, e) in
    let begins' : eqb (code d) (code x) ≡ true = ground (arith, f) in
    let same = Char-path c x (eqb_sound _ _ begins) ∙ sym (Char-path d x (eqb_sound _ _ begins')) in
    let rest = has_prefix_unique p q s (ground (arith, e)) (ground (arith, f)) (omega arith) in
    rw (same, rest) refl

eqb_refl : (i : ℕ) → eqb i i ≡ true
eqb_refl i = ground arith

pub has_prefix_refl : (s : String) → has_prefix s s ≡ true
unfolding has_prefix
has_prefix_refl String.[] = refl
has_prefix_refl (String.◌∷◌ c s) = rw (eqb_refl (code c), has_prefix_refl s) refl

has_prefix-length : (p s : String) → has_prefix p s ≡ true → length p ≤ length s
unfolding has_prefix length
has_prefix-length String.[] s e = omega arith
has_prefix-length (String.◌∷◌ c p) String.[] e = absurd (cc)
has_prefix-length (String.◌∷◌ c p) (String.◌∷◌ d s) e =
    let rest = has_prefix-length p s (ground (arith, e)) in omega (arith, rest)

antisym : {i j : ℕ} → i ≤ j → j ≤ i → i ≡ j
antisym l m = omega arith

-- A text begins with no longer text than itself.
pub has_prefix_whole : (p s : String) → has_prefix p s ≡ true → length s ≤ length p → p ≡ s
has_prefix_whole p s e l =
    has_prefix_unique p s s e (has_prefix_refl s) (antisym (has_prefix-length p s e) l)

module _ (fl : Floats) (to_upper : String → String) where
  -- The keys are upper-cased.
  abbrev pub UpperKeys : Dict fl.F → Type 0
  UpperKeys d = All (λ e. to_upper e.0 ≡ e.0) d

  abbrev IsRateOf : Dict fl.F → String → fl.F × Bool → Type 0
  IsRateOf = IsRate fl to_upper

  -- The entry of the rate that was found.
  pub found_entry :
      (d : Dict fl.F) (t : String) (a : fl.F × Bool)
      → DistinctKeys d
      → UpperKeys d
      → (r : IsRateOf d t a) (found : a.1 ≡ true)
      → (lookup (r.priced found).0 d ≡ some a.0)
        × Prices fl to_upper (to_upper t) ((r.priced found).0, a.0)
  found_entry d t a distinct upper r found =
      let (family, _, entry, _) = r.priced found in
      let (k, v, e, (prices, is, rate)) = lookup-Any _ d distinct entry in
      let key : k ≡ family = sym (All-lookup _ k v d e upper) ∙ is in
      (
        subst (λ x. lookup x d ≡ some a.0) key (e ∙ ap (λ x. some x) rate),
        subst (λ x. Prices fl to_upper (to_upper t) (x, a.0)) key
            (subst (λ x. Prices fl to_upper (to_upper t) (k, x)) rate prices),
      )

  module _ (d e : Dict fl.F) (t : String) (a b : fl.F × Bool) (same : SameMap d e)
      (distinct_d : DistinctKeys d) (distinct_e : DistinctKeys e) (upper_d : UpperKeys d)
      (upper_e : UpperKeys e) (r : IsRateOf d t a) (q : IsRateOf e t b) where
    -- The other list's family is not longer.
    shorter :
        (found : a.1 ≡ true) (found' : b.1 ≡ true)
        → length (q.priced found').0 ≤ length (r.priced found).0
    shorter found found' =
        let (here, prices) = found_entry e t b distinct_e upper_e q found' in
        let there = same (q.priced found').0 ∙ here in
        subst (λ x. length x ≤ length (r.priced found).0)
          (All-lookup _ (q.priced found').0 b.0 d there upper_d)
          (All-lookup _ (q.priced found').0 b.0 d there (r.priced found).3 prices)

    no_other : a.1 ≡ true → b.1 ≡ false → ⊥
    no_other found missing =
        let (here, prices) = found_entry d t a distinct_d upper_d r found in
        let there = sym (same (r.priced found).0) ∙ here in
        let empty = All-lookup _ (r.priced found).0 a.0 e there (q.unpriced missing).1 prices in
        let upper = All-lookup _ (r.priced found).0 a.0 e there upper_e in
        let long = (r.priced found).1 in absurd (omega (arith, long, ap length (sym upper) ∙ empty))

  -- What the answer says of the map leaves one answer.
  module _ (d e : Dict fl.F) (t : String) (a b : fl.F × Bool) (same : SameMap d e)
      (dd : DistinctKeys d) (de : DistinctKeys e) (ud : UpperKeys d) (ue : UpperKeys e)
      (r : IsRateOf d t a) (q : IsRateOf e t b) where
    families_agree :
        (found : a.1 ≡ true) (found' : b.1 ≡ true) → (r.priced found).0 ≡ (q.priced found').0
    families_agree found found' =
        let (here, prices) = found_entry d t a dd ud r found in
        let (here', prices') = found_entry e t b de ue q found' in
        let up = All-lookup _ (r.priced found).0 a.0 d here ud in
        let up' = All-lookup _ (q.priced found').0 b.0 e here' ue in
        has_prefix_unique _ _ (to_upper t)
          (subst (λ x. has_prefix x (to_upper t) ≡ true) up prices.1)
          (subst (λ x. has_prefix x (to_upper t) ≡ true) up' prices'.1)
          (antisym (shorter e d t b a (λ k. sym (same k)) de dd ue ud q r found' found)
            (shorter d e t a b same dd de ud ue r q found found'))

    rates_agree : a.1 ≡ true → b.1 ≡ true → a.0 ≡ b.0
    rates_agree found found' =
        let here = (found_entry d t a dd ud r found).0 in
        let here' = (found_entry e t b de ue q found').0 in
        some-injective _ _ (
          sym here
          ∙ same (r.priced found).0
          ∙ ap (λ k. lookup k e) (families_agree found found')
          ∙ here')

    IsRate_unique : a ≡ b
    IsRate_unique = elim (Bool-cases a.1) [
      | inl found ↦ elim (Bool-cases b.1) [
        | inr missing ↦ absurd (no_other d e t a b same dd de ud ue r q found missing)
        | inl found' ↦ ground (arith, found, found', rates_agree found found')
      ]
      | inr missing ↦ elim (Bool-cases b.1) [
        | inl found' ↦
            absurd (no_other e d t b a (λ k. sym (same k)) de dd ue ud q r found' missing)
        | inr missing' ↦
            ground (arith, missing, missing', (r.unpriced missing).0, (q.unpriced missing').0)
      ]
    ]

  -- The order in which the loop meets the rates does not matter: for two lists of the same map with
  -- each key once and upper-cased, every GPU type has the same rate, or none.
  pub rate_for_order :
      (d e : Dict fl.F) (gpu_type : String)
      → SameMap d e
      → DistinctKeys d
      → DistinctKeys e
      → UpperKeys d
      → UpperKeys e
      → rate_for fl to_upper d gpu_type ≡ rate_for fl to_upper e gpu_type
  rate_for_order d e gpu_type same dd de ud ue =
      IsRate_unique d e gpu_type _ _ same dd de ud ue (rate_for-IsRate fl to_upper d gpu_type)
        (rate_for-IsRate fl to_upper e gpu_type)

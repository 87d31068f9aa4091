-- ===== src/Base/Outcome.antt =====
-- Go's `(T, error)` results.
use mathlib.Core.Path.{◌≡◌, refl}
use mathlib.Core.Logic.{◌⊎◌, inl, inr}

pub data Result (E A : Type 0) : Type 0 where
  ok : A → Result E A
  err : E → Result E A

pub Result-cases :
    {E A : Type 0} (r : Result E A) → ((a : A) × (r ≡ ok a)) ⊎ ((e : E) × (r ≡ err e))
Result-cases (ok a) = inl (a, refl)
Result-cases (err e) = inr (e, refl)

-- The two ways in which a call that also moves the outside state can come back.
pub Call-cases :
    {E A S : Type 0} (p : Result E A × S)
    → ((a : A) × (s : S) × (p ≡ (ok a, s))) ⊎ ((e : E) × (s : S) × (p ≡ (err e, s)))
Call-cases (ok a, s) = inl (a, s, refl)
Call-cases (err e, s) = inr (e, s, refl)

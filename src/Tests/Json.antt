-- ===== src/Tests/Json.antt =====
-- A text form of the recorded originals that reads back, standing for `encoding/json`. It is read
-- from the right: the units and the signs of the two bounds, the letters of the component's name
-- each before an `x`, and an `E` that ends the entry.
use Prim.Native.Char.{Char, code}
use gpu_budget_operator.Base.{
  ℕ, zero, suc, String, Bool, true, false, Option, none, some, [], ◌∷◌, ◌≡◌, refl, ap, eqb,
  if◌then◌else◌,
}
use gpu_budget_operator.Base.Int.{ℤ, pos, negsuc}
use gpu_budget_operator.Base.Dict.{Dict}
use gpu_budget_operator.Cluster.{ComponentReplicaSpec}

record Machine : Type 0 where
  entries : Dict ComponentReplicaSpec
  key : String
  low : Option ℤ
  high : Option ℤ
  literal : Bool

abbrev fresh : Dict ComponentReplicaSpec → Machine
fresh d = record { entries = d; key = ""; low = none; high = none; literal = false }

abbrev more : Option ℤ → Option ℤ
more none = none
more (some (pos n)) = some (pos (suc n))
more (some (negsuc n)) = some (negsuc (suc n))

abbrev closed : Machine → Machine
closed m = fresh ((m.key, record { min_replicas = m.low; max_replicas = m.high }) ∷ m.entries)

step : Char → Machine → Machine
step c m =
    if m.literal
    then record m { key = String.◌∷◌ c m.key; literal = false }
    else if eqb (code c) 69
    then closed m
    else if eqb (code c) 120
    then record m { literal = true }
    else if eqb (code c) 112
    then record m { low = some (pos 0) }
    else if eqb (code c) 109
    then record m { low = some (negsuc 0) }
    else if eqb (code c) 115
    then record m { low = more m.low }
    else if eqb (code c) 80
    then record m { high = some (pos 0) }
    else if eqb (code c) 77
    then record m { high = some (negsuc 0) }
    else record m { high = more m.high }

run : String → Machine
run String.[] = fresh []
run (String.◌∷◌ c s) = step c (run s)

units : Char → ℕ → String → String
units c zero s = s
units c (suc n) s = String.◌∷◌ c (units c n s)

put_low : Option ℤ → String → String
unfolding units
put_low none s = s
put_low (some (pos n)) s = units "s" n (String.◌∷◌ "p" s)
put_low (some (negsuc n)) s = units "s" n (String.◌∷◌ "m" s)

put_high : Option ℤ → String → String
unfolding units
put_high none s = s
put_high (some (pos n)) s = units "S" n (String.◌∷◌ "P" s)
put_high (some (negsuc n)) s = units "S" n (String.◌∷◌ "M" s)

put_key : String → String → String
put_key String.[] s = s
put_key (String.◌∷◌ c k) s = String.◌∷◌ c (String.◌∷◌ "x" (put_key k s))

unfoldable pub print : Dict ComponentReplicaSpec → String
unfolding put_key put_low put_high units
print [] = ""
print ((k, spec) ∷ d) =
    String.◌∷◌ "E" (put_key k (put_low spec.min_replicas (put_high spec.max_replicas (print d))))

unfoldable pub parse : String → Option (Dict ComponentReplicaSpec)
unfolding run step
parse s = some (run s).entries

abbrev at : Dict ComponentReplicaSpec → String → Option ℤ → Option ℤ → Machine
at d key low high = record { entries = d; key = key; low = low; high = high; literal = false }

module _ (d : Dict ComponentReplicaSpec) where
  run-low_pos :
      (n : ℕ) (s : String) (high : Option ℤ)
      → run s ≡ at d "" none high
      → run (units "s" n (String.◌∷◌ "p" s)) ≡ at d "" (some (pos n)) high
  unfolding run units step
  run-low_pos zero s high h = rw h refl
  run-low_pos (suc n) s high h = rw (run-low_pos n s high h) refl

  run-low_negsuc :
      (n : ℕ) (s : String) (high : Option ℤ)
      → run s ≡ at d "" none high
      → run (units "s" n (String.◌∷◌ "m" s)) ≡ at d "" (some (negsuc n)) high
  unfolding run units step
  run-low_negsuc zero s high h = rw h refl
  run-low_negsuc (suc n) s high h = rw (run-low_negsuc n s high h) refl

  run-put_low :
      (low high : Option ℤ) (s : String)
      → run s ≡ at d "" none high
      → run (put_low low s) ≡ at d "" low high
  unfolding put_low
  run-put_low none high s h = h
  run-put_low (some (pos n)) high s h = run-low_pos n s high h
  run-put_low (some (negsuc n)) high s h = run-low_negsuc n s high h

  run-high_pos :
      (n : ℕ) (s : String)
      → run s ≡ fresh d
      → run (units "S" n (String.◌∷◌ "P" s)) ≡ at d "" none (some (pos n))
  unfolding run units step
  run-high_pos zero s h = rw h refl
  run-high_pos (suc n) s h = rw (run-high_pos n s h) refl

  run-high_negsuc :
      (n : ℕ) (s : String)
      → run s ≡ fresh d
      → run (units "S" n (String.◌∷◌ "M" s)) ≡ at d "" none (some (negsuc n))
  unfolding run units step
  run-high_negsuc zero s h = rw h refl
  run-high_negsuc (suc n) s h = rw (run-high_negsuc n s h) refl

  run-put_high :
      (high : Option ℤ) (s : String) → run s ≡ fresh d → run (put_high high s) ≡ at d "" none high
  unfolding put_high
  run-put_high none s h = h
  run-put_high (some (pos n)) s h = run-high_pos n s h
  run-put_high (some (negsuc n)) s h = run-high_negsuc n s h

  run-put_key :
      (key : String) (low high : Option ℤ) (s : String)
      → run s ≡ at d "" low high
      → run (put_key key s) ≡ at d key low high
  unfolding put_key run step
  run-put_key String.[] low high s h = h
  run-put_key (String.◌∷◌ c k) low high s h = rw (run-put_key k low high s h) refl

run-print : (d : Dict ComponentReplicaSpec) → run (print d) ≡ fresh d
unfolding print run step
run-print [] = refl
run-print ((k, spec) ∷ d) =
    rw
      (run-put_key d k spec.min_replicas spec.max_replicas _ (
        run-put_low d spec.min_replicas spec.max_replicas _
          (run-put_high d spec.max_replicas _ (run-print d))))
      refl

pub parse-print : (d : Dict ComponentReplicaSpec) → parse (print d) ≡ some d
unfolding parse
parse-print d = ap (λ m. some m.entries) (run-print d)

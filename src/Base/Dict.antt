-- ===== src/Base/Dict.antt =====
-- A Go map with text keys, as an association list. `none` of an `Option (Dict V)` is the nil map.
pub mod Keys
use mathlib.Core.Path.{◌≡◌, refl}
use mathlib.Core.Logic.{◌≢◌}
use mathlib.Core.Option.{Option, none, some}
use mathlib.Core.List.{List, [], ◌∷◌}
use native.Mathlib.Omega.{arith}
use Prim.Native.String.{String}
use gpu_budget_operator.Base.Tests.{if◌then◌else◌}
use gpu_budget_operator.Base.Text.{◌==◌}

abbrev pub Dict : Type 0 → Type 0
Dict V = List (String × V)

module _ {V : Type 0} where
  unfoldable pub lookup : String → Dict V → Option V
  lookup k [] = none
  lookup k ((j, v) ∷ d) = if k == j then some v else lookup k d

  -- `d[k] = v`
  unfoldable pub insert : String → V → Dict V → Dict V
  insert k v [] = (k, v) ∷ []
  insert k v ((j, w) ∷ d) = if k == j then (k, v) ∷ d else (j, w) ∷ insert k v d

  -- `delete(d, k)`. Every entry of the key goes; a Go map has at most one.
  unfoldable pub erase : String → Dict V → Dict V
  erase k [] = []
  erase k ((j, w) ∷ d) = let rest = erase k d in if k == j then rest else (j, w) ∷ rest

  -- What an index expression reads; a nil map has no keys.
  unfoldable pub read : String → Option (Dict V) → Option V
  unfolding lookup
  read k none = none
  read k (some d) = lookup k d

  -- The guard `if m == nil { m = map[string]string{} }`.
  unfoldable pub make : Option (Dict V) → Dict V
  make none = []
  make (some d) = d

  -- `delete` on a map that may be nil.
  unfoldable pub remove : String → Option (Dict V) → Option (Dict V)
  unfolding erase
  remove k none = none
  remove k (some d) = some (erase k d)

  pub lookup-insert :
      (j k : String) (v : V) (d : Dict V)
      → lookup j (insert k v d) ≡ (if j == k then some v else lookup j d)
  unfolding insert lookup
  lookup-insert j k v [] = ground arith
  lookup-insert j k v (_ ∷ d) = ground (arith, lookup-insert j k v d)

  pub lookup-erase :
      (j k : String) (d : Dict V) → lookup j (erase k d) ≡ (if j == k then none else lookup j d)
  unfolding erase lookup
  lookup-erase j k [] = ground arith
  lookup-erase j k (_ ∷ d) = ground (arith, lookup-erase j k d)

  pub lookup-insert_self : (k : String) (v : V) (d : Dict V) → lookup k (insert k v d) ≡ some v
  lookup-insert_self k v d = ground (arith, lookup-insert k k v d)

  pub read-make : (j : String) (m : Option (Dict V)) → lookup j (make m) ≡ read j m
  unfolding read make
  read-make j none = refl
  read-make j (some d) = refl

  -- Setting a key and deleting it again: the key is gone, and the other keys read as before.
  pub read-remove :
      (j k : String) (m : Option (Dict V))
      → read j (remove k m) ≡ (if j == k then none else read j m)
  unfolding read remove
  read-remove j k none = ground arith
  read-remove j k (some d) = lookup-erase j k d

  pub read-remove_self :
      (k : String) (v : V) (m : Option (Dict V))
      → read k (remove k (some (insert k v (make m)))) ≡ none
  unfolding read remove
  read-remove_self k v m = ground (arith, lookup-erase k k (insert k v (make m)))

  pub read-remove_other :
      (j k : String) (v : V) (m : Option (Dict V))
      → j ≢ k
      → read j (remove k (some (insert k v (make m)))) ≡ read j m
  unfolding read remove
  read-remove_other j k v m h =
      ground
        (arith, lookup-erase j k (insert k v (make m)), lookup-insert j k v (make m), read-make j m)

  pub remove-some : (k : String) (d : Dict V) → some (erase k (make (some d))) ≡ remove k (some d)
  unfolding remove make
  remove-some k d = refl

  pub read-insert_self : (k : String) (v : V) (d : Dict V) → read k (some (insert k v d)) ≡ some v
  unfolding read
  read-insert_self k v d = lookup-insert_self k v d

-- ===== src/Base/Text.antt =====
-- Equality of texts as a test. A proof that leaves `string_dec` shut splits on it and has the
-- equation or its negation; a test unfolds it.
use Prim.Native.String.{String}
use mathlib.Core.Path.{◌≡◌}
use mathlib.Core.Logic.{◌≢◌, ite, dite}
use mathlib.Core.Bool.{Bool, true, false, Bool-discrete}
use native.Mathlib.Omega.{arith}
use text.Mathlib.Text
use text.Mathlib.TextEquality.{eq_iff}

unfoldable pub string_dec : Discrete String
string_dec s t =
    dite (Bool-discrete (Text.◌==◌ s t) true) (λ same. yes ((eq_iff s t).0 same))
      (λ differ. no (λ p. differ ((eq_iff s t).1 p)))

infix 50 ◌==◌
abbrev pub ◌==◌ : String → String → Bool
a == b = ite (string_dec a b) true false

pub ==_refl : (a : String) → (a == a) ≡ true
==_refl a = ground arith

pub ==_sound : (a b : String) → (a == b) ≡ true → a ≡ b
==_sound a b h = ground arith

pub ==_apart : (a b : String) → (a == b) ≡ false → a ≢ b
==_apart a b h p = ground (arith, h, p, ==_refl b)

pub ==_other : (a b : String) → a ≢ b → (a == b) ≡ false
==_other a b h = ground (arith, h, ==_sound a b)

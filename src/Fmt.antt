-- ===== src/Fmt.antt =====
-- What enforce/enforce.go uses of Go's fmt package: `fmt.Sprintf("%d", n)` of an int32, and
-- `fmt.Sscanf(raw, "%d", &n)` into an int32 with its blanks, its sign, its digits and its range.
-- What follows the digits is ignored, as Sscanf does.
pub mod Scan
use Prim.Native.Char.{Char, code}
use gpu_budget_operator.Base.{
  ℕ, zero, suc, ◌+◌, ◌-◌, ◌*◌, ◌/◌, ◌%◌, ◌^◌, String, ◌<>◌, Bool, true, false, ◌&&◌, ◌||◌, Option,
  none, some, ltb, leb, eqb, if◌then◌else◌,
}
use gpu_budget_operator.Base.Int.{ℤ, pos, negsuc}

digit_char : ℕ → Char
digit_char zero = "0"
digit_char (suc zero) = "1"
digit_char (suc (suc zero)) = "2"
digit_char (suc (suc (suc zero))) = "3"
digit_char (suc (suc (suc (suc zero)))) = "4"
digit_char (suc (suc (suc (suc (suc zero))))) = "5"
digit_char (suc (suc (suc (suc (suc (suc zero)))))) = "6"
digit_char (suc (suc (suc (suc (suc (suc (suc zero))))))) = "7"
digit_char (suc (suc (suc (suc (suc (suc (suc (suc zero)))))))) = "8"
digit_char _ = "9"

-- One digit a round; fuel above the number is enough.
digits : ℕ → ℕ → String → String
digits zero n out = out
digits (suc fuel) n out =
    let more = String.◌∷◌ (digit_char (n % 10)) out in
    let rest = digits fuel (n / 10) more in if eqb (n / 10) 0 then more else rest

-- `fmt.Sprintf("%d", v)`
unfoldable pub sprintf_d : ℤ → String
unfolding digits digit_char
sprintf_d (pos n) = digits (suc n) n ""
sprintf_d (negsuc n) = String.◌∷◌ "-" (digits (suc (suc n)) (suc n) "")

is_digit : Char → Bool
is_digit c = leb 48 (code c) && leb (code c) 57

-- `unicode.IsSpace`
unfoldable pub is_space : Char → Bool
is_space c =
    let n = code c in
    (leb 9 n && leb n 13)
    || eqb n 32
    || eqb n 0x85
    || eqb n 0xa0
    || eqb n 0x1680
    || (leb 0x2000 n && leb n 0x200a)
    || eqb n 0x2028
    || eqb n 0x2029
    || eqb n 0x202f
    || eqb n 0x205f
    || eqb n 0x3000

-- `none` is the error "unexpected newline".
skip_space : String → Option String
skip_space String.[] = some ""
skip_space (String.◌∷◌ c s) =
    if eqb (code c) 10 then none else if is_space c then skip_space s else some (String.◌∷◌ c s)

scan_digits : String → ℕ → ℕ
scan_digits String.[] n = n
scan_digits (String.◌∷◌ c s) n = if is_digit c then scan_digits s (n * 10 + (code c - 48)) else n

-- `none` is "unexpected EOF" or "expected integer".
scan_number : String → Option ℕ
scan_number String.[] = none
scan_number (String.◌∷◌ c s) = if is_digit c then some (scan_digits (String.◌∷◌ c s) 0) else none

-- Out of the range of int32 the scan fails with "integer overflow".
positive_int32 : Option ℕ → Option ℤ
positive_int32 none = none
positive_int32 (some n) = if ltb n (2 ^ 31) then some (pos n) else none

negative_int32 : Option ℕ → Option ℤ
negative_int32 none = none
negative_int32 (some zero) = some (pos 0)
negative_int32 (some (suc n)) = if ltb n (2 ^ 31) then some (negsuc n) else none

scan_sign : String → Option ℤ
scan_sign String.[] = none
scan_sign (String.◌∷◌ c s) =
    if eqb (code c) 45
    then negative_int32 (scan_number s)
    else if eqb (code c) 43
    then positive_int32 (scan_number s)
    else positive_int32 (scan_number (String.◌∷◌ c s))

-- `fmt.Sscanf(raw, "%d", &n)`; `none` is any error.
unfoldable pub sscanf_d : String → Option ℤ
unfolding skip_space is_space scan_sign scan_number scan_digits is_digit positive_int32
    negative_int32
sscanf_d s = elim (skip_space s) [ none ↦ none | some t ↦ scan_sign t ]

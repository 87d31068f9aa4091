-- ===== src/Fmt/Scan.antt =====
-- `Sscanf` on what `Sprintf` printed.
use gpu_budget_operator.Base.{
  ap, ◌∙◌, ℕ, zero, suc, ◌+◌, ◌/◌, ◌%◌, ◌^◌, ◌<◌, String, ◌≡◌, refl, some, arith, inl, inr,
  Bool-cases, eqb,
}
use gpu_budget_operator.Base.Int.{ℤ, pos, negsuc}
use gpu_budget_operator.Fmt.{
  digit_char, digits, sprintf_d, is_digit, is_space, skip_space, scan_digits, scan_number,
  scan_sign, positive_int32, negative_int32, sscanf_d,
}
use Prim.Native.Char.{code}

code-digit_char : (d : ℕ) → d < 10 → code (digit_char d) ≡ 48 + d
unfolding digit_char
code-digit_char zero h = refl
code-digit_char (suc zero) h = refl
code-digit_char (suc (suc zero)) h = refl
code-digit_char (suc (suc (suc zero))) h = refl
code-digit_char (suc (suc (suc (suc zero)))) h = refl
code-digit_char (suc (suc (suc (suc (suc zero))))) h = refl
code-digit_char (suc (suc (suc (suc (suc (suc zero)))))) h = refl
code-digit_char (suc (suc (suc (suc (suc (suc (suc zero))))))) h = refl
code-digit_char (suc (suc (suc (suc (suc (suc (suc (suc zero)))))))) h = refl
code-digit_char (suc (suc (suc (suc (suc (suc (suc (suc (suc zero))))))))) h = refl
code-digit_char (suc (suc (suc (suc (suc (suc (suc (suc (suc (suc n)))))))))) h =
    absurd (omega arith)

-- The range of Go's int32.
abbrev pub IsInt32 : ℤ → Type 0
IsInt32 (pos n) = n < 2 ^ 31
IsInt32 (negsuc n) = n < 2 ^ 31

scan_digits-cons :
    (n : ℕ) (out : String)
    → scan_digits (String.◌∷◌ (digit_char (n % 10)) out) (n / 10) ≡ scan_digits out n
unfolding scan_digits is_digit
scan_digits-cons n out = ground (arith, code-digit_char (n % 10) (omega arith))

scan_digits-digits :
    (fuel n : ℕ) (out : String) → n < fuel → scan_digits (digits fuel n out) 0 ≡ scan_digits out n
unfolding digits
scan_digits-digits zero n out h = elim h [ ]
scan_digits-digits (suc fuel) n out h = ground (
  arith,
  scan_digits-cons n out,
  scan_digits-digits fuel (n / 10) (String.◌∷◌ (digit_char (n % 10)) out),
)

-- What the digits of a number begin with.
data StartsWithDigit : String → Type 0 where
  starts : (d : ℕ) (s : String) → d < 10 → StartsWithDigit (String.◌∷◌ (digit_char d) s)

digits-StartsWithDigit :
    (fuel n : ℕ) (out : String) → n < fuel → StartsWithDigit (digits fuel n out)
unfolding digits
digits-StartsWithDigit zero n out h = elim h [ ]
digits-StartsWithDigit (suc fuel) n out h = elim (Bool-cases (eqb (n / 10) 0)) [
  | inl done ↦ rw done (starts (n % 10) out (omega arith))
  | inr more ↦
      rw more
        (digits-StartsWithDigit fuel (n / 10) (String.◌∷◌ (digit_char (n % 10)) out) (ground arith))
]

-- Neither a blank nor a sign: the digits are read at once.
skip_space-digit : (s : String) → StartsWithDigit s → skip_space s ≡ some s
unfolding skip_space is_space
skip_space-digit _ (starts d s h) = ground (arith, code-digit_char d h)

scan_sign-digit :
    (s : String) → StartsWithDigit s → scan_sign s ≡ positive_int32 (some (scan_digits s 0))
unfolding scan_sign scan_number is_digit
scan_sign-digit _ (starts d s h) = ground (arith, code-digit_char d h)

scan_number-digit : (s : String) → StartsWithDigit s → scan_number s ≡ some (scan_digits s 0)
unfolding scan_number is_digit
scan_number-digit _ (starts d s h) = ground (arith, code-digit_char d h)

scan_digits-decimal : (n : ℕ) → scan_digits (digits (suc n) n "") 0 ≡ n
unfolding scan_digits
scan_digits-decimal n = scan_digits-digits (suc n) n "" (omega arith)

positive_int32-lt : (n : ℕ) → n < 2 ^ 31 → positive_int32 (some n) ≡ some (pos n)
unfolding positive_int32
positive_int32-lt n h = ground arith

negative_int32-lt : (n : ℕ) → n < 2 ^ 31 → negative_int32 (some (suc n)) ≡ some (negsuc n)
unfolding negative_int32
negative_int32-lt n h = ground arith

sscanf_d-digit :
    (s : String) → StartsWithDigit s → sscanf_d s ≡ positive_int32 (some (scan_digits s 0))
unfolding sscanf_d
sscanf_d-digit s h = rw (skip_space-digit s h, sscanf_d) (scan_sign-digit s h)

sscanf_d-minus :
    (s : String)
    → StartsWithDigit s
    → sscanf_d (String.◌∷◌ "-" s) ≡ negative_int32 (some (scan_digits s 0))
unfolding sscanf_d
sscanf_d-minus s h = rw (scan_number-digit s h)

-- An int32 that `Sprintf("%d")` printed is the one that `Sscanf("%d")` reads.
pub sscanf_d-sprintf_d : (v : ℤ) → IsInt32 v → sscanf_d (sprintf_d v) ≡ some v
unfolding sprintf_d
sscanf_d-sprintf_d (pos n) h =
    let first = digits-StartsWithDigit (suc n) n "" (omega arith) in
    sscanf_d-digit _ first
    ∙ ap (λ m. positive_int32 (some m)) (scan_digits-decimal n)
    ∙ positive_int32-lt n h
sscanf_d-sprintf_d (negsuc n) h =
    let first = digits-StartsWithDigit (suc (suc n)) (suc n) "" (omega arith) in
    sscanf_d-minus _ first
    ∙ ap (λ m. negative_int32 (some m)) (scan_digits-decimal (suc n))
    ∙ negative_int32-lt n h

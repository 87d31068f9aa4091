-- ===== src/Metrics/Replaced.antt =====
-- Where `strings.ReplaceAll` finds nothing, and where it finds its text.
use Prim.Native.Char.{Char, code}
use text.Mathlib.TextLemmas.{nil-append, cons-append}
use gpu_budget_operator.Base.{
  ℕ, suc, ◌-◌, String, ◌<>◌, Bool, true, false, not, ◌&&◌, ◌||◌, ◌≡◌, refl, sym, ap, ◌∙◌, inl, inr,
  arith, eqb, if◌then◌else◌, Bool-cases,
}
use gpu_budget_operator.Controllers.Rates.{length, has_prefix}
use gpu_budget_operator.Metrics.{replace_from}

-- The code of `_`.
abbrev pub underscore : ℕ
underscore = 95

-- No two underscores meet and the last character is none; `before` tells whether one goes before.
abbrev pub apart : Bool → String → Bool
apart before String.[] = not before
apart before (String.◌∷◌ c s) =
    let rest = apart (eqb (code c) underscore) s in
    if before && eqb (code c) underscore then false else rest

-- A text that is not empty, neither begins nor ends with an underscore and has no two in a row.
abbrev pub is_plain : String → Bool
is_plain s = apart true s

-- The first character, if there is one, is none of `_`, `N` and `R`.
abbrev pub is_letter : Char → Bool
is_letter c = eqb (code c) underscore || (eqb (code c) 78 || eqb (code c) 82)

abbrev pub is_opening : String → Bool
is_opening String.[] = true
is_opening (String.◌∷◌ c s) = not (is_letter c)

-- Whether `old` may begin what `t` begins, if an opening text follows `t`.
abbrev pub may_begin : String → String → Bool
may_begin String.[] t = true
may_begin (String.◌∷◌ o old) String.[] = not (is_letter o)
may_begin (String.◌∷◌ o old) (String.◌∷◌ c t) =
    let rest = may_begin old t in if eqb (code o) (code c) then rest else false

-- `old` begins nowhere in `t`, if an opening text follows.
abbrev pub is_clear : String → String → Bool
is_clear old String.[] = true
is_clear old (String.◌∷◌ c t) =
    let rest = is_clear old t in if may_begin old (String.◌∷◌ c t) then false else rest

passed :
    (old new : String) (c : Char) (s : String)
    → has_prefix old (String.◌∷◌ c s) ≡ false
    → replace_from old new 0 (String.◌∷◌ c s) ≡ String.◌∷◌ c (replace_from old new 0 s)
unfolding replace_from
passed old new c s e = rw (e, replace_from) refl

met :
    (old new : String) (c : Char) (s : String)
    → has_prefix old (String.◌∷◌ c s) ≡ true
    → replace_from old new 0 (String.◌∷◌ c s) ≡ new <> replace_from old new (length old - 1) s
unfolding replace_from
met old new c s e = rw (e, replace_from) refl

has_prefix-may_begin :
    (old t rest : String)
    → is_opening rest ≡ true
    → may_begin old t ≡ false
    → has_prefix old (t <> rest) ≡ false
unfolding has_prefix
has_prefix-may_begin String.[] t rest o e = absurd (ground (arith, e))
has_prefix-may_begin (String.◌∷◌ a old) String.[] String.[] o e = refl
has_prefix-may_begin (String.◌∷◌ a old) String.[] (String.◌∷◌ d rest) o e =
    rw nil-append (ground (arith, o, e))
has_prefix-may_begin (String.◌∷◌ a old) (String.◌∷◌ c t) rest o e =
    rw cons-append (ground (arith, e, has_prefix-may_begin old t rest o))

-- A text in which `old` does not begin stays.
pub replace_clear :
    (old new t rest : String)
    → is_opening rest ≡ true
    → is_clear old t ≡ true
    → replace_from old new 0 (t <> rest) ≡ t <> replace_from old new 0 rest
replace_clear old new String.[] rest o e =
    ap (replace_from old new 0) (nil-append rest) ∙ sym (nil-append (replace_from old new 0 rest))
replace_clear old new (String.◌∷◌ c t) rest o e =
    elim (Bool-cases (may_begin old (String.◌∷◌ c t))) [
      | inl begins ↦ absurd (ground (arith, e, begins))
      | inr clear ↦
          let none_here =
            sym (ap (has_prefix old) (cons-append c t rest))
            ∙ has_prefix-may_begin old (String.◌∷◌ c t) rest o clear in
          ap (replace_from old new 0) (cons-append c t rest)
          ∙ passed old new c (t <> rest) none_here
          ∙ ap (λ x. String.◌∷◌ c x) (replace_clear old new t rest o (ground (arith, e, clear)))
          ∙ sym (cons-append c t (replace_from old new 0 rest))
    ]

-- An `old` that begins with two underscores begins nowhere in a plain text.
two_begin :
    (u w : Char) (old s rest : String) (c : Char)
    → eqb (code u) underscore ≡ true
    → eqb (code w) underscore ≡ true
    → apart (eqb (code c) underscore) s ≡ true
    → has_prefix (String.◌∷◌ u (String.◌∷◌ w old)) (String.◌∷◌ c (s <> rest)) ≡ false
unfolding has_prefix
two_begin u w old String.[] rest c e f h = ground (arith, e, h)
two_begin u w old (String.◌∷◌ d s) rest c e f h = rw cons-append (ground (arith, e, f, h))

replace_apart :
    (u w : Char) (old new : String) (before : Bool) (t rest : String)
    → eqb (code u) underscore ≡ true
    → eqb (code w) underscore ≡ true
    → apart before t ≡ true
    → replace_from (String.◌∷◌ u (String.◌∷◌ w old)) new 0 (t <> rest)
      ≡ t <> replace_from (String.◌∷◌ u (String.◌∷◌ w old)) new 0 rest
replace_apart u w old new before String.[] rest e f h =
    let both = String.◌∷◌ u (String.◌∷◌ w old) in
    ap (replace_from both new 0) (nil-append rest) ∙ sym (nil-append (replace_from both new 0 rest))
replace_apart u w old new before (String.◌∷◌ c t) rest e f h =
    let both = String.◌∷◌ u (String.◌∷◌ w old) in
    let later : apart (eqb (code c) underscore) t ≡ true = ground (arith, h) in
    ap (replace_from both new 0) (cons-append c t rest)
    ∙ passed both new c (t <> rest) (two_begin u w old t rest c e f later)
    ∙ ap (λ x. String.◌∷◌ c x)
        (replace_apart u w old new (eqb (code c) underscore) t rest e f later)
    ∙ sym (cons-append c t (replace_from both new 0 rest))

skip_over :
    (old new t rest : String)
    → replace_from old new (length t) (t <> rest) ≡ replace_from old new 0 rest
unfolding length replace_from
skip_over old new String.[] rest = ap (replace_from old new 0) (nil-append rest)
skip_over old new (String.◌∷◌ c t) rest =
    ap (replace_from old new (suc (length t))) (cons-append c t rest) ∙ skip_over old new t rest

has_prefix-append : (t rest : String) → has_prefix t (t <> rest) ≡ true
unfolding has_prefix
has_prefix-append String.[] rest = refl
has_prefix-append (String.◌∷◌ c t) rest = rw cons-append (ground (arith, has_prefix-append t rest))

-- The text itself is replaced.
pub replace_self :
    (c : Char) (old new rest : String)
    → replace_from (String.◌∷◌ c old) new 0 (String.◌∷◌ c old <> rest)
      ≡ new <> replace_from (String.◌∷◌ c old) new 0 rest
unfolding length
replace_self c old new rest =
    let whole = String.◌∷◌ c old in
    let less : length whole - 1 ≡ length old = omega arith in
    ap (replace_from whole new 0) (cons-append c old rest)
    ∙ met whole new c (old <> rest)
        (sym (ap (has_prefix whole) (cons-append c old rest)) ∙ has_prefix-append whole rest)
    ∙ ap (λ n. new <> replace_from whole new n (old <> rest)) less
    ∙ ap (λ x. new <> x) (skip_over whole new old rest)

-- A plain text stays.
pub replace_plain :
    (u w : Char) (old new t rest : String)
    → eqb (code u) underscore ≡ true
    → eqb (code w) underscore ≡ true
    → is_plain t ≡ true
    → replace_from (String.◌∷◌ u (String.◌∷◌ w old)) new 0 (t <> rest)
      ≡ t <> replace_from (String.◌∷◌ u (String.◌∷◌ w old)) new 0 rest
replace_plain u w old new t rest e f h = replace_apart u w old new true t rest e f h

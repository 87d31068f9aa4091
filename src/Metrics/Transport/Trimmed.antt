-- ===== src/Metrics/Transport/Trimmed.antt =====
-- What trimming a token leaves.
use Prim.Native.Char.{Char}
use text.Mathlib.TextLemmas.{nil-append, cons-append}
use gpu_budget_operator.Base.{
  String, ◌<>◌, true, false, ◌≡◌, sym, ap, ◌∙◌, subst, inl, inr, arith, Bool-cases,
}
use gpu_budget_operator.Fmt.{is_space}
use gpu_budget_operator.Metrics.Transport.{trim_left, before_trimmed, trim_right, trim_space}

-- Every character is a space.
abbrev pub IsBlank : String → Type 0
IsBlank String.[] = Unit
IsBlank (String.◌∷◌ c s) = (is_space c ≡ true) × IsBlank s

abbrev pub StartsFull : String → Type 0
StartsFull String.[] = Unit
StartsFull (String.◌∷◌ c s) = is_space c ≡ false

abbrev pub EndsFull : String → Type 0
EndsFull String.[] = Unit
EndsFull (String.◌∷◌ c String.[]) = is_space c ≡ false
EndsFull (String.◌∷◌ c (String.◌∷◌ d s)) = EndsFull (String.◌∷◌ d s)

-- The text without the spaces at its ends.
pub record IsTrimmed (s t : String) : Type 0 where
  pub left : String
  pub right : String
  pub is : s ≡ left <> (t <> right)
  pub left_blank : IsBlank left
  pub right_blank : IsBlank right
  pub starts : StartsFull t
  pub ends : EndsFull t

IsLeft : String → String → Type 0
IsLeft s t = (l : String) × (s ≡ l <> t) × IsBlank l × StartsFull t

left_space : (c : Char) (s : String) → is_space c ≡ true → trim_left (String.◌∷◌ c s) ≡ trim_left s
unfolding trim_left
left_space c s e = ground (arith, e)

left_full :
    (c : Char) (s : String) → is_space c ≡ false → trim_left (String.◌∷◌ c s) ≡ String.◌∷◌ c s
unfolding trim_left
left_full c s e = ground (arith, e)

left_lem : (s : String) → IsLeft s (trim_left s)
unfolding trim_left IsLeft
left_lem String.[] = ("", sym (nil-append ""), tt, tt)
left_lem (String.◌∷◌ c s) = elim (Bool-cases (is_space c)) [
  | inr e ↦ subst (IsLeft (String.◌∷◌ c s)) (sym (left_full c s e)) ("", sym (nil-append _), tt, e)
  | inl e ↦
      let (l, is, blank, full) = left_lem s in
      subst (IsLeft (String.◌∷◌ c s)) (sym (left_space c s e))
        (String.◌∷◌ c l, ap (λ x. String.◌∷◌ c x) is ∙ sym (cons-append c l _), (e, blank), full)
]

IsRight : String → String → Type 0
IsRight s t = (r : String) × (s ≡ t <> r) × IsBlank r × EndsFull t

last_space : (c : Char) → is_space c ≡ true → before_trimmed c "" ≡ ""
unfolding before_trimmed
last_space c e = ground (arith, e)

last_full : (c : Char) → is_space c ≡ false → before_trimmed c "" ≡ String.◌∷◌ c ""
unfolding before_trimmed
last_full c e = ground (arith, e)

before_lem : (c : Char) (s t : String) → IsRight s t → IsRight (String.◌∷◌ c s) (before_trimmed c t)
unfolding before_trimmed IsRight
before_lem c s (String.◌∷◌ d t) (r, is, blank, full) =
    (r, ap (λ x. String.◌∷◌ c x) is ∙ sym (cons-append c (String.◌∷◌ d t) r), blank, full)
before_lem c s String.[] (r, is, blank, full) =
    let whole : s ≡ r = is ∙ nil-append r in
    let more = ap (λ x. String.◌∷◌ c x) whole in
    elim (Bool-cases (is_space c)) [
      | inl e ↦
          subst (IsRight (String.◌∷◌ c s)) (sym (last_space c e))
            (String.◌∷◌ c r, more ∙ sym (nil-append _), (e, blank), tt)
      | inr e ↦ subst (IsRight (String.◌∷◌ c s)) (sym (last_full c e)) (
        r,
        more ∙ ap (λ x. String.◌∷◌ c x) (sym (nil-append r)) ∙ sym (cons-append c "" r),
        blank,
        e,
      )
    ]

right_lem : (s : String) → IsRight s (trim_right s)
unfolding trim_right IsRight
right_lem String.[] = ("", sym (nil-append ""), tt, tt)
right_lem (String.◌∷◌ c s) = before_lem c s (trim_right s) (right_lem s)

before_starts : (c : Char) (t : String) → is_space c ≡ false → StartsFull (before_trimmed c t)
unfolding before_trimmed
before_starts c String.[] e = subst StartsFull (sym (last_full c e)) e
before_starts c (String.◌∷◌ d t) e = e

trim_right-StartsFull : (s : String) → StartsFull s → StartsFull (trim_right s)
unfolding trim_right
trim_right-StartsFull String.[] h = tt
trim_right-StartsFull (String.◌∷◌ c s) h = before_starts c (trim_right s) h

pub trim_space-IsTrimmed : (s : String) → IsTrimmed s (trim_space s)
unfolding trim_space IsLeft IsRight
trim_space-IsTrimmed s =
    let (l, is, blank, full) = left_lem s in
    let (r, is', blank', full') = right_lem (trim_left s) in
    record {
      left = l;
      right = r;
      is = is ∙ ap (λ x. l <> x) is';
      left_blank = blank;
      right_blank = blank';
      starts = trim_right-StartsFull (trim_left s) full;
      ends = full';
    }

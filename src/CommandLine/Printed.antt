-- ===== src/CommandLine/Printed.antt =====
-- The texts that `String` joins, as values of `--gpu-rate`.
use gpu_budget_operator.Base.{
  String, Option, none, some, List, [], ◌∷◌, ◌++◌, ok, ◌≡◌, ◌≢◌, refl, sym, ap, ◌∙◌, subst, inl,
  inr, arith, All, ◌==◌, ==_sound, Bool-cases,
}
use mathlib.Core.List.{append-nil, append_assoc}
use gpu_budget_operator.Base.Dict.{Dict, insert, make}
use gpu_budget_operator.Base.Dict.Keys.{DistinctKeys, IsFresh}
use gpu_budget_operator.CommandLine.{with_rate, set_cut, set, set_all, rate_text, rate_texts}
use gpu_budget_operator.CommandLine.Rates.{HasNoEquals, cut_first}

insert_new :
    {V : Type 0} (k : String) (v : V) (d : Dict V) → IsFresh k d → insert k v d ≡ d ++ ((k, v) ∷ [])
unfolding insert
insert_new k v [] h = refl
insert_new k v ((j, w) ∷ d) h = ground (arith, h.0, insert_new k v d h.1)

All_middle :
    {A : Type 0} (P : A → Type 0) (xs : List A) (y : A) (ys : List A) → All P (xs ++ (y ∷ ys)) → P y
All_middle P [] y ys h = h.0
All_middle P (x ∷ xs) y ys h = All_middle P xs y ys h.1

-- The key of an entry is not among those before it.
IsFresh-before :
    {V : Type 0} (k : String) (v : V) (xs d : Dict V)
    → DistinctKeys (xs ++ ((k, v) ∷ d))
    → IsFresh k xs
IsFresh-before k v [] d h = tt
IsFresh-before k v ((j, w) ∷ xs) d h =
    (λ p. All_middle (λ e. e.0 ≢ j) xs (k, v) d h.0 (sym p), IsFresh-before k v xs d h.1)

module _ {F : Type 0} (to_upper : String → String) (parse_float : String → Option F)
    (print_float : F → String) where
  -- An entry that the flag can hold: a family as it is stored, and a rate that is printed in full.
  abbrev pub IsPrintable : String × F → Type 0
  IsPrintable (family, rate) =
      HasNoEquals family
      × (family ≢ "")
      × (to_upper family ≡ family)
      × (parse_float (print_float rate) ≡ some rate)

  set-rate_text :
      (rates : Option (Dict F)) (family : String) (rate : F)
      → IsPrintable (family, rate)
      → set to_upper parse_float print_float rates
          (rate_text to_upper parse_float print_float (family, rate))
        ≡ ok (some (insert family rate (make rates)))
  unfolding set set_cut with_rate
  set-rate_text rates family rate (plain, named, upper, parses) =
      rw (cut_first family (print_float rate) plain) (elim (Bool-cases (family == "")) [
        | inl p ↦ absurd (named (==_sound family "" p))
        | inr p ↦ ground (arith, p, parses, upper)
      ])

  parse_step :
      (rates after : Option (Dict F)) (e : String × F) (d : Dict F)
      → set to_upper parse_float print_float rates (rate_text to_upper parse_float print_float e)
        ≡ ok after
      → set_all to_upper parse_float print_float rates
          (rate_texts to_upper parse_float print_float (e ∷ d))
        ≡ set_all to_upper parse_float print_float after
            (rate_texts to_upper parse_float print_float d)
  unfolding set_all rate_texts
  parse_step rates after e d p = ground (arith, p)

  parse_all :
      (xs d : Dict F)
      → DistinctKeys (xs ++ d)
      → All IsPrintable d
      → set_all to_upper parse_float print_float
          (some xs)
          (rate_texts to_upper parse_float print_float d)
        ≡ ok (some (xs ++ d))
  unfolding set_all rate_texts make
  parse_all xs [] distinct h = ap (λ ys. ok (some ys)) (sym (append-nil xs))
  parse_all xs ((k, v) ∷ d) distinct h =
      let new = insert_new k v xs (IsFresh-before k v xs d distinct) in
      let move = append_assoc xs ((k, v) ∷ []) d in
      parse_step (some xs) (some (xs ++ ((k, v) ∷ []))) (k, v) d
        (set-rate_text (some xs) k v h.0 ∙ ap (λ ys. ok (some ys)) new)
      ∙ (parse_all (xs ++ ((k, v) ∷ [])) d (subst DistinctKeys (sym move) distinct) h.1
          ∙ ap (λ ys. ok (some ys)) move)

  -- The rates that the flag prints, given as values of the flag again, are the same rates: for a
  -- map with each family once, as it is stored and without an equals sign, and rates that parse back
  -- from their text.
  pub set_all-rate_texts :
      (e : String × F) (d : Dict F)
      → DistinctKeys (e ∷ d)
      → All IsPrintable (e ∷ d)
      → set_all to_upper parse_float print_float none
          (rate_texts to_upper parse_float print_float (e ∷ d))
        ≡ ok (some (e ∷ d))
  unfolding set_all rate_texts make insert
  set_all-rate_texts (k, v) d distinct h =
      parse_step none (some ((k, v) ∷ [])) (k, v) d (set-rate_text none k v h.0)
      ∙ parse_all ((k, v) ∷ []) d distinct h.1

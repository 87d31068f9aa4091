-- ===== src/Metrics/Rendered.antt =====
-- Query templates as texts with placeholders, and what `BuildGPUHoursQuery` makes of them.
use text.Mathlib.TextLemmas.{cons-append}
use gpu_budget_operator.Base.{
  ℕ, String, ◌<>◌, true, List, [], ◌∷◌, ◌≡◌, refl, ap, ◌∙◌, ◌==◌, if◌then◌else◌,
}
use gpu_budget_operator.Metrics.{
  namespace_placeholder, range_placeholder, range_hours_placeholder, default_template, replace_from,
  replace_all, clamped, build_gpu_hours_query,
}
use gpu_budget_operator.Metrics.Replaced.{
  is_plain, is_opening, replace_clear, replace_plain, replace_self,
}

pub data Hole : Type 0 where
  namespace range range_hours : Hole

abbrev pub placeholder : Hole → String
placeholder namespace = namespace_placeholder
placeholder range = range_placeholder
placeholder range_hours = range_hours_placeholder

pub data Part : Type 0 where
  words : String → Part
  hole : Hole → Part

abbrev pub part_text : Part → String
part_text (words t) = t
part_text (hole k) = placeholder k

-- The template that the parts are written as, and what it stands for.
abbrev pub written : List Part → String
written [] = ""
written (p ∷ ps) = part_text p <> written ps

abbrev pub rendered : (Hole → String) → List Part → String
rendered value [] = ""
rendered value (words t ∷ ps) = t <> rendered value ps
rendered value (hole k ∷ ps) = value k <> rendered value ps

-- What follows a placeholder does not go on with an underscore, an `N` or an `R`.
abbrev pub Opens : List Part → Type 0
Opens [] = Unit
Opens (words t ∷ ps) = is_opening t ≡ true
Opens (hole k ∷ ps) = ⊥

-- The texts are plain, and no placeholder runs into what follows it.
abbrev pub IsTemplate : List Part → Type 0
IsTemplate [] = Unit
IsTemplate (words t ∷ ps) = (is_plain t ≡ true) × IsTemplate ps
IsTemplate (hole k ∷ ps) = Opens ps × IsTemplate ps

-- The parts with one placeholder filled.
abbrev fill_one : Hole → String → Hole → Part
fill_one namespace v namespace = words v
fill_one range v range = words v
fill_one range_hours v range_hours = words v
fill_one _ v k = hole k

abbrev fill : Hole → String → List Part → List Part
fill h v [] = []
fill h v (words t ∷ ps) = words t ∷ fill h v ps
fill h v (hole k ∷ ps) = fill_one h v k ∷ fill h v ps

opening_text :
    (t rest : String) → is_plain t ≡ true → is_opening t ≡ true → is_opening (t <> rest) ≡ true
opening_text String.[] rest p o = absurd (cc)
opening_text (String.◌∷◌ c t) rest p o = rw cons-append o

Opens-written : (ps : List Part) → IsTemplate ps → Opens ps → is_opening (written ps) ≡ true
Opens-written [] h o = refl
Opens-written (words t ∷ ps) h o = opening_text t (written ps) h.0 o
Opens-written (hole k ∷ ps) h o = absurd o

-- A pass fills its placeholder and leaves another one.
hole_step :
    (h : Hole) (v : String) (k : Hole) (rest : String)
    → is_opening rest ≡ true
    → replace_from (placeholder h) v 0 (placeholder k <> rest)
      ≡ part_text (fill_one h v k) <> replace_from (placeholder h) v 0 rest
hole_step namespace v namespace rest o = replace_self "_" "_NAMESPACE__" v rest
hole_step namespace v range rest o = replace_clear "__NAMESPACE__" v "__RANGE__" rest o refl
hole_step namespace v range_hours rest o =
    replace_clear "__NAMESPACE__" v "__RANGE_HOURS__" rest o refl
hole_step range v namespace rest o = replace_clear "__RANGE__" v "__NAMESPACE__" rest o refl
hole_step range v range rest o = replace_self "_" "_RANGE__" v rest
hole_step range v range_hours rest o = replace_clear "__RANGE__" v "__RANGE_HOURS__" rest o refl
hole_step range_hours v namespace rest o =
    replace_clear "__RANGE_HOURS__" v "__NAMESPACE__" rest o refl
hole_step range_hours v range rest o = replace_clear "__RANGE_HOURS__" v "__RANGE__" rest o refl
hole_step range_hours v range_hours rest o = replace_self "_" "_RANGE_HOURS__" v rest

words_step :
    (h : Hole) (v t rest : String)
    → is_plain t ≡ true
    → replace_from (placeholder h) v 0 (t <> rest) ≡ t <> replace_from (placeholder h) v 0 rest
words_step namespace v t rest p = replace_plain "_" "_" "NAMESPACE__" v t rest refl refl p
words_step range v t rest p = replace_plain "_" "_" "RANGE__" v t rest refl refl p
words_step range_hours v t rest p = replace_plain "_" "_" "RANGE_HOURS__" v t rest refl refl p

pass :
    (h : Hole) (v : String) (ps : List Part)
    → IsTemplate ps
    → replace_all (written ps) (placeholder h) v ≡ written (fill h v ps)
unfolding replace_all replace_from
pass h v [] is = refl
pass h v (words t ∷ ps) is =
    words_step h v t (written ps) is.0 ∙ ap (λ x. t <> x) (pass h v ps is.1)
pass h v (hole k ∷ ps) is =
    hole_step h v k (written ps) (Opens-written ps is.1 is.0)
    ∙ ap (λ x. part_text (fill_one h v k) <> x) (pass h v ps is.1)

Opens-fill : (h : Hole) (v : String) (ps : List Part) → Opens ps → Opens (fill h v ps)
Opens-fill h v [] o = tt
Opens-fill h v (words t ∷ ps) o = o
Opens-fill h v (hole k ∷ ps) o = absurd o

IsTemplate-fill :
    (h : Hole) (v : String) (ps : List Part)
    → is_plain v ≡ true
    → IsTemplate ps
    → IsTemplate (fill h v ps)
IsTemplate-fill h v [] p is = tt
IsTemplate-fill h v (words t ∷ ps) p is = (is.0, IsTemplate-fill h v ps p is.1)
IsTemplate-fill namespace v (hole namespace ∷ ps) p is = (p, IsTemplate-fill namespace v ps p is.1)
IsTemplate-fill namespace v (hole range ∷ ps) p is =
    (Opens-fill namespace v ps is.0, IsTemplate-fill namespace v ps p is.1)
IsTemplate-fill namespace v (hole range_hours ∷ ps) p is =
    (Opens-fill namespace v ps is.0, IsTemplate-fill namespace v ps p is.1)
IsTemplate-fill range v (hole namespace ∷ ps) p is =
    (Opens-fill range v ps is.0, IsTemplate-fill range v ps p is.1)
IsTemplate-fill range v (hole range ∷ ps) p is = (p, IsTemplate-fill range v ps p is.1)
IsTemplate-fill range v (hole range_hours ∷ ps) p is =
    (Opens-fill range v ps is.0, IsTemplate-fill range v ps p is.1)
IsTemplate-fill range_hours v (hole namespace ∷ ps) p is =
    (Opens-fill range_hours v ps is.0, IsTemplate-fill range_hours v ps p is.1)
IsTemplate-fill range_hours v (hole range ∷ ps) p is =
    (Opens-fill range_hours v ps is.0, IsTemplate-fill range_hours v ps p is.1)
IsTemplate-fill range_hours v (hole range_hours ∷ ps) p is =
    (p, IsTemplate-fill range_hours v ps p is.1)

module _ (print_duration print_hours : ℕ → String) (name : String) (elapsed : ℕ) where
  -- What the placeholders stand for: the namespace, and the elapsed time, at least a minute, as a
  -- duration and in hours.
  abbrev pub meaning : Hole → String
  meaning namespace = name
  meaning range = print_duration (clamped print_duration print_hours elapsed)
  meaning range_hours = print_hours (clamped print_duration print_hours elapsed)

  abbrev all_filled : List Part → List Part
  all_filled ps =
      fill range_hours (meaning range_hours)
        (fill range (meaning range) (fill namespace (meaning namespace) ps))

  all_filled-rendered : (ps : List Part) → written (all_filled ps) ≡ rendered meaning ps
  all_filled-rendered [] = refl
  all_filled-rendered (words t ∷ ps) = ap (λ x. t <> x) (all_filled-rendered ps)
  all_filled-rendered (hole namespace ∷ ps) = ap (λ x. name <> x) (all_filled-rendered ps)
  all_filled-rendered (hole range ∷ ps) = ap (λ x. meaning range <> x) (all_filled-rendered ps)
  all_filled-rendered (hole range_hours ∷ ps) =
      ap (λ x. meaning range_hours <> x) (all_filled-rendered ps)

  -- A query is its template, or the default one where none is given, with each placeholder replaced
  -- by what it stands for and the rest as it is. The template is asked to be written of texts and
  -- placeholders that do not run into one another, and the namespace and the duration to be texts
  -- that are not empty, neither begin nor end with an underscore and have no two in a row.
  pub build_gpu_hours_query-rendered :
      (given : String) (ps : List Part)
      → IsTemplate ps
      → (if given == "" then default_template else given) ≡ written ps
      → is_plain (meaning namespace) ≡ true
      → is_plain (meaning range) ≡ true
      → build_gpu_hours_query print_duration print_hours given name elapsed ≡ rendered meaning ps
  unfolding build_gpu_hours_query
  build_gpu_hours_query-rendered given ps is chosen p q =
      let first = IsTemplate-fill namespace (meaning namespace) ps p is in
      let second =
        IsTemplate-fill range (meaning range) (fill namespace (meaning namespace) ps) q first in
      ap
        (λ x.
          replace_all
            (replace_all (replace_all x namespace_placeholder (meaning namespace)) range_placeholder
              (meaning range))
            range_hours_placeholder (meaning range_hours))
        chosen
      ∙ ap
          (λ x.
            replace_all (replace_all x range_placeholder (meaning range)) range_hours_placeholder
              (meaning range_hours))
          (pass namespace (meaning namespace) ps is)
      ∙ ap (λ x. replace_all x range_hours_placeholder (meaning range_hours))
          (pass range (meaning range) (fill namespace (meaning namespace) ps) first)
      ∙ pass range_hours (meaning range_hours)
          (fill range (meaning range) (fill namespace (meaning namespace) ps)) second
      ∙ all_filled-rendered ps

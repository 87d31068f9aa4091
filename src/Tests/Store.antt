-- ===== src/Tests/Store.antt =====
-- A store in memory that behaves as the API is documented to, and its laws. The newest version of
-- an object stands first.
pub mod Listed
pub mod Laws
use gpu_budget_operator.Base.{
  String, Bool, true, false, Option, none, some, List, [], ◌∷◌, Result, ok, err, ◌≡◌, ◌≢◌, refl,
  inl, inr, arith, All, All-map, All-zip, Any, ◌==◌, ==_refl, ==_sound, if◌then◌else◌, Bool-cases,
  Option-cases,
}
use gpu_budget_operator.Cluster.{Api}
use gpu_budget_operator.Enforce.Namespace.Frame.{LeavesAlone}
use gpu_budget_operator.Cluster.Lawful.{NodupNames, IsLawful}

-- The errors of the store.
pub data Refusal : Type 0 where
  missing no_such_kind : Refusal

abbrev pub is_missing : Refusal → Bool
is_missing missing = true
is_missing no_such_kind = false

abbrev pub is_no_such_kind : Refusal → Bool
is_no_such_kind missing = false
is_no_such_kind no_such_kind = true

module _ {T : Type 0} (name namespace : T → String) where
  abbrev pub is_it : String → String → T → Bool
  is_it ns n x = if namespace x == ns then n == name x else false

  unfoldable pub find : String → String → List T → Option T
  find ns n [] = none
  find ns n (x ∷ xs) = if is_it ns n x then some x else find ns n xs

  unfoldable pub drop_all : String → String → List T → List T
  drop_all ns n [] = []
  drop_all ns n (x ∷ xs) = let rest = drop_all ns n xs in if is_it ns n x then rest else x ∷ rest

  unfoldable pub without : String → List T → List T
  without n [] = []
  without n (x ∷ xs) = let rest = without n xs in if n == name x then rest else x ∷ rest

  -- The newest version of each object of the namespace.
  unfoldable pub listed : String → List T → List T
  unfolding without
  listed ns [] = []
  listed ns (x ∷ xs) =
      let rest = listed ns xs in if namespace x == ns then x ∷ without (name x) rest else rest

  -- The store as part of a larger state.
  module _ {S : Type 0} (get_all : S → List T) (put_all : List T → S → S) where
    unfoldable pub send : Option T → T → S → Result Refusal T × S
    send none x s = (err missing, s)
    send (some old) x s = (ok x, put_all (x ∷ get_all s) s)

    unfoldable pub drop : Option T → T → S → Result Refusal (Unit {0}) × S
    drop none x s = (err missing, s)
    drop (some old) x s = (ok tt, put_all (drop_all (namespace x) (name x) (get_all s)) s)

    unfoldable pub answer : Option T → S → Result Refusal T × S
    answer none s = (err missing, s)
    answer (some x) s = (ok x, s)

    abbrev pub stored : String → S → String → Option T
    stored ns s n = find ns n (get_all s)

    abbrev pub store : Api S Refusal T
    store = record {
      list = λ ns s. (ok (listed ns (get_all s)), s);
      get = λ ns n s. answer (find ns n (get_all s)) s;
      update = λ x s. send (find (namespace x) (name x) (get_all s)) x s;
      delete = λ x s. drop (find (namespace x) (name x) (get_all s)) x s;
    }

-- ===== src/Cluster/Lawful.antt =====
-- What the theorems assume of an `Api`: the documented behaviour of a store that nobody else
-- writes to meanwhile. A successful list returns the namespace's objects, each once; a get returns
-- the object of that name, and "not found" only where there is none; a successful update stores
-- what was sent, and a failed call stores nothing. Any call may fail.
use gpu_budget_operator.Base.{
  String, Bool, true, Option, none, some, List, [], ◌∷◌, ok, err, ◌≡◌, ◌≢◌, All, Any, ◌==◌,
  if◌then◌else◌,
}
use gpu_budget_operator.Cluster.{Api}

-- No two objects of the list have one name.
abbrev pub NodupNames : {T : Type 0} → (T → String) → List T → Type 0
NodupNames name [] = Unit
NodupNames name (x ∷ xs) = All (λ y. name y ≢ name x) xs × NodupNames name xs

module _ {S E T : Type 0} (name namespace : T → String) (api : Api S E T)
    (is_not_found : E → Bool) where
  -- `view ns s n` is the stored object `ns/n`.
  pub record IsLawful (view : String → S → String → Option T) : Type 0 where
    pub list_ok :
        (ns : String) (s : S) (xs : List T) (s' : S)
        → api.list ns s ≡ (ok xs, s')
        → ((n : String) → view ns s' n ≡ view ns s n)
          × All (λ x. (namespace x ≡ ns) × (view ns s (name x) ≡ some x)) xs
          × ((n : String) (x : T) → view ns s n ≡ some x → (name x ≡ n) × Any (λ y. y ≡ x) xs)
          × NodupNames name xs
    pub list_err :
        (ns : String) (s : S) (e : E) (s' : S)
        → api.list ns s ≡ (err e, s')
        → (n : String) → view ns s' n ≡ view ns s n
    pub update_ok :
        (ns : String) (x : T) (s : S) (x' : T) (s' : S)
        → namespace x ≡ ns
        → api.update x s ≡ (ok x', s')
        → (n : String) → view ns s' n ≡ (if n == name x then some x else view ns s n)
    pub update_err :
        (ns : String) (x : T) (s : S) (e : E) (s' : S)
        → api.update x s ≡ (err e, s')
        → (n : String) → view ns s' n ≡ view ns s n
    pub get_ok :
        (ns n : String) (s : S) (x : T) (s' : S)
        → api.get ns n s ≡ (ok x, s')
        → (view ns s n ≡ some x)
          × (namespace x ≡ ns)
          × (name x ≡ n)
          × ((m : String) → view ns s' m ≡ view ns s m)
    pub get_err :
        (ns n : String) (s : S) (e : E) (s' : S)
        → api.get ns n s ≡ (err e, s')
        → ((is_not_found e ≡ true → view ns s n ≡ none))
          × ((m : String) → view ns s' m ≡ view ns s m)

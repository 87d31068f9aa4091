-- ===== src/Cluster/Deletion.antt =====
-- What the theorems assume of the deletion of a Pod, which Kubernetes carries out gracefully: a
-- successful `Delete` removes the Pod, or sets its deletion timestamp and lets it stand until its
-- containers have stopped; it touches no other Pod, and a failed one stores nothing. "Not found" comes
-- back only where there is no such Pod.
use gpu_budget_operator.Base.{String, true, Option, none, some, ok, err, ◌≡◌, ◌≢◌, ◌⊎◌, ℕ}
use gpu_budget_operator.Objects.{Pod}
use gpu_budget_operator.Cluster.{Cluster}

module _ (c : Cluster) where
  -- The Pod is gone, or it is the same Pod with a deletion timestamp.
  abbrev pub IsEnding : Pod c.Quantity → Option (Pod c.Quantity) → Type 0
  IsEnding p after =
      (after ≡ none) ⊎ ((t : ℕ) × (after ≡ some (record p { deletion_timestamp = some t })))

  pub record IsGraceful (view : String → c.State → String → Option (Pod c.Quantity)) : Type 0 where
    pub delete_ok :
        (ns : String) (p : Pod c.Quantity) (s s' : c.State)
        → p.meta.namespace ≡ ns
        → c.pods.delete p s ≡ (ok tt, s')
        → ((q : Pod c.Quantity)
            → view ns s p.meta.name ≡ some q
            → IsEnding q (view ns s' p.meta.name))
          × ((n : String) → n ≢ p.meta.name → view ns s' n ≡ view ns s n)
    pub delete_err :
        (ns : String) (p : Pod c.Quantity) (s : c.State) (e : c.Err) (s' : c.State)
        → p.meta.namespace ≡ ns
        → c.pods.delete p s ≡ (err e, s')
        → (c.is_not_found e ≡ true → view ns s p.meta.name ≡ none)
          × ((n : String) → view ns s' n ≡ view ns s n)

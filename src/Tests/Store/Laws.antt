-- ===== src/Tests/Store/Laws.antt =====
-- The laws that the calls of the store in memory keep.
use gpu_budget_operator.Base.{
  String, Option, some, List, ◌∷◌, ok, err, ◌≡◌, refl, inl, inr, arith, ◌==◌, ==_refl,
  if◌then◌else◌, Option-cases,
}
use gpu_budget_operator.Cluster.{Api}
use gpu_budget_operator.Enforce.Namespace.Frame.{LeavesAlone}
use gpu_budget_operator.Cluster.Lawful.{IsLawful}
use gpu_budget_operator.Tests.Store.{
  Refusal, is_missing, find, listed, send, drop, answer, stored, store,
}
use gpu_budget_operator.Tests.Store.Listed.{find-place, listed-found, listed-all, listed-NodupNames}

module _ {T : Type 0} (name namespace : T → String) where
  module _ {S : Type 0} (get_all : S → List T) (put_all : List T → S → S) where
    abbrev calls : Api S Refusal T
    calls = store name namespace get_all put_all

    abbrev view : String → S → String → Option T
    view = stored name namespace get_all put_all

    pub store-get_state : (ns n : String) (s : S) → (calls.get ns n s).1 ≡ s
    unfolding answer
    store-get_state ns n s = elim (Option-cases (find name namespace ns n (get_all s))) [
      | inl e ↦ rw e refl
      | inr (x, e) ↦ rw e refl
    ]

    -- Whatever a write of this part leaves alone, the calls leave alone.
    pub store-LeavesAlone :
        {V : Type 0} (look : S → V)
        → ((xs : List T) (s : S) → look (put_all xs s) ≡ look s)
        → LeavesAlone calls look
    unfolding send drop answer
    store-LeavesAlone look h = record {
      list = λ ns s. refl;
      get = λ ns n s. elim (Option-cases (find name namespace ns n (get_all s))) [
        | inl e ↦ rw e refl
        | inr (x, e) ↦ rw e refl
      ];
      update = λ x s. elim (Option-cases (find name namespace (namespace x) (name x) (get_all s))) [
        | inl e ↦ rw e refl
        | inr (y, e) ↦ rw e (h _ s)
      ];
      delete = λ x s. elim (Option-cases (find name namespace (namespace x) (name x) (get_all s))) [
        | inl e ↦ rw e refl
        | inr (y, e) ↦ rw e (h _ s)
      ];
    }

    module _ (get-put : (xs : List T) (s : S) → get_all (put_all xs s) ≡ xs) where
      store-list :
          (ns : String) (s : S) (xs : List T) (s' : S)
          → calls.list ns s ≡ (ok xs, s')
          → (xs ≡ listed name namespace ns (get_all s)) × (s' ≡ s)
      store-list ns s xs s' e = (ground (arith, e), ground (arith, e))

      store-update_ok :
          (ns : String) (x : T) (s : S) (x' : T) (s' : S)
          → namespace x ≡ ns
          → calls.update x s ≡ (ok x', s')
          → (n : String) → view ns s' n ≡ (if n == name x then some x else view ns s n)
      unfolding send find
      store-update_ok ns x s x' s' h e n =
          ground (arith, get-put (x ∷ get_all s) s, h, e, ==_refl ns)

      store-update_err :
          (ns : String) (x : T) (s : S) (e : Refusal) (s' : S)
          → calls.update x s ≡ (err e, s')
          → (n : String) → view ns s' n ≡ view ns s n
      unfolding send
      store-update_err ns x s e s' h n = ground (arith, h)

      pub store-IsLawful : IsLawful name namespace calls is_missing view
      unfolding answer
      store-IsLawful = record {
        list_ok = λ ns s xs s' e.
            let (p, q) = store-list ns s xs s' e in
            rw (p, q)
              (
                λ n. refl,
                listed-found name namespace ns (get_all s),
                listed-all name namespace ns (get_all s),
                listed-NodupNames name namespace ns (get_all s),
              );
        list_err = λ ns s e s' h n. ground (arith, h);
        update_ok = store-update_ok;
        update_err = store-update_err;
        get_ok = λ ns n s x s' h.
            let found : view ns s n ≡ some x = ground (arith, h) in
            let (p, q) = find-place name namespace ns n (get_all s) x found in
            (found, p, q, λ m. ground (arith, h));
        get_err = λ ns n s e s' h. (λ p. ground (arith, h, p), λ m. ground (arith, h));
      }

-- ===== src/Enforce/Namespace/Entries.antt =====
-- A list of entries restored one after the other, as seen at one object: the loop of
-- `RestoreNamespace` over any restore of single entries.
use gpu_budget_operator.Base.{
  String, ◌<>◌, Option, none, some, List, [], ◌∷◌, Result, ◌≡◌, ◌≢◌, refl, sym, ap, ◌∙◌, ◌⊎◌, inl,
  inr, ok, err, arith, Any, Option-cases, string_dec,
}
use gpu_budget_operator.Objects.{EnforcedResource}
use gpu_budget_operator.Cluster.{Cluster}
use gpu_budget_operator.Cluster.Lawful.{IsLawful}
use gpu_budget_operator.Enforce.Report.{Error, wrapped}
use gpu_budget_operator.Enforce.Restore.{Restorer, restore}
use gpu_budget_operator.Enforce.Restore.Whole.{
  InPlace, restore_idle, restore_done, restore_refused, restore_elsewhere,
}
use gpu_budget_operator.Enforce.Namespace.{keep, restoring, restore_resource, restore_namespace}

-- The entry names the object `n` of the kind.
abbrev pub IsEntry : String → String → EnforcedResource → Type 0
IsEntry kind n r = (r.kind ≡ kind) × (r.name ≡ n)

-- The error tells that the restore of `kind/n` failed.
abbrev pub IsAbout : {E : Type 0} → String → String → Error E → Type 0
IsAbout {E} kind n e = (cause : Error E) × (e ≡ wrapped ("restoring " <> kind <> "/" <> n) cause)

module _ (c : Cluster) {T : Type 0} (r : Restorer c.State c.Err T) (name namespace : T → String)
    (view : String → c.State → String → Option T)
    (L : IsLawful name namespace r.api r.is_not_found view)
    (stays : (ns : String) (x : T) → InPlace r name namespace view L ns x) (kind ns n : String)
    -- Entries of the kind are restored by the restorer, and others do not touch its objects.
    (here : (e : EnforcedResource) (s : c.State)
      → e.kind ≡ kind
      → restore_resource c ns e s ≡ restore r ns e.name s)
    (elsewhere : (e : EnforcedResource) (s : c.State)
      → e.kind ≢ kind
      → view ns (restore_resource c ns e s).1 n ≡ view ns s n) where
  -- An entry of another object leaves the object alone.
  entry_apart :
      (e : EnforcedResource) (s : c.State)
      → (e.kind ≡ kind → e.name ≢ n)
      → view ns (restore_resource c ns e s).1 n ≡ view ns s n
  entry_apart e s apart = elim (string_dec e.kind kind) [
    | no p ↦ elsewhere e s p
    | yes p ↦
        rw (here e s p)
          (restore_elsewhere r name namespace view L ns e.name n s (stays ns) (apart p))
  ]

  -- An object that has no annotation stays, whichever entries are restored.
  entry_idle :
      (e : EnforcedResource) (s : c.State) (y : T)
      → view ns s n ≡ some y
      → r.recover ns y ≡ none
      → view ns (restore_resource c ns e s).1 n ≡ some y
  entry_idle e s y found clear = elim (string_dec e.kind kind) [
    | no p ↦ elsewhere e s p ∙ found
    | yes p ↦ elim (string_dec e.name n) [
      | no q ↦ entry_apart e s (λ _. q) ∙ found
      | yes q ↦ rw (here e s p) (
          restore_idle r name namespace view L ns e.name s
            (λ x h. ground (arith, h, q, found, clear)) n
          ∙ found)
    ]
  ]

  restore_namespace_idle :
      (es : List EnforcedResource) (s : c.State) (y : T)
      → view ns s n ≡ some y
      → r.recover ns y ≡ none
      → view ns (restore_namespace c ns es s).1 n ≡ some y
  unfolding restore_namespace
  restore_namespace_idle [] s y found clear = found
  restore_namespace_idle (e ∷ es) s y found clear =
      restore_namespace_idle es (restore_resource c ns e s).1 y (entry_idle e s y found clear) clear

  -- The object's own entry: it is restored, or its restore returns an error and stores nothing.
  entry_here :
      (e : EnforcedResource) (s : c.State) (x y : T)
      → IsEntry kind n e
      → view ns s n ≡ some x
      → r.recover ns x ≡ some (ok y)
      → (view ns (restore_resource c ns e s).1 n ≡ some y)
        ⊎ ((f : Error c.Err) × ((restore_resource c ns e s).0 ≡ some f))
  entry_here e s x y (p, q) found recovered =
      let step : restore_resource c ns e s ≡ restore r ns n s =
        here e s p ∙ ap (λ m. restore r ns m s) q in
      elim (Option-cases (restore r ns n s).0) [
        | inl fine ↦ inl (
            rw step (
              ground (
                arith,
                restore_done r name namespace view L ns n s x y found recovered (stays ns x) fine n,
              )))
        | inr (f, failed) ↦ inr (f, ap (λ t. t.0) step ∙ failed)
      ]

  Any-keep :
      (e : EnforcedResource) (o : Option (Error c.Err)) (errors : List (Error c.Err))
      → Any (IsAbout kind n) errors
      → Any (IsAbout kind n) (keep (restoring c e o) errors)
  Any-keep e none errors h = h
  Any-keep e (some f) errors h = inr h

  IsAbout-here :
      (e : EnforcedResource) (f : Error c.Err) (o : Option (Error c.Err))
      (errors : List (Error c.Err))
      → IsEntry kind n e
      → o ≡ some f
      → Any (IsAbout kind n) (keep (restoring c e o) errors)
  IsAbout-here e f o errors (p, q) h = rw h (inl (f, rw (p, q) refl))

  IsEntry-cases : (e : EnforcedResource) → IsEntry kind n e ⊎ (¬ IsEntry kind n e)
  IsEntry-cases e = elim (string_dec e.kind kind) [
    | no p ↦ inr (λ h. p h.0)
    | yes p ↦ elim (string_dec e.name n) [ no q ↦ inr (λ h. q h.1) | yes q ↦ inl (p, q) ]
  ]

  later :
      (e : EnforcedResource) (es : List EnforcedResource)
      → Any (IsEntry kind n) (e ∷ es)
      → ¬ IsEntry kind n e
      → Any (IsEntry kind n) es
  later e es (inl h) other = absurd (other h)
  later e es (inr h) other = h

  -- After the list: the object was restored, or an error tells that its restore failed.
  pub restore_namespace_attempts :
      (es : List EnforcedResource) (s : c.State) (x y : T)
      → Any (IsEntry kind n) es
      → view ns s n ≡ some x
      → r.recover ns x ≡ some (ok y)
      → r.recover ns y ≡ none
      → (view ns (restore_namespace c ns es s).1 n ≡ some y)
        ⊎ Any (IsAbout kind n) (restore_namespace c ns es s).0
  unfolding restore_namespace
  restore_namespace_attempts [] s x y h found recovered clear = absurd h
  restore_namespace_attempts (e ∷ es) s x y h found recovered clear = elim (IsEntry-cases e) [
    | inl ours ↦ elim (entry_here e s x y ours found recovered) [
      | inl done ↦ inl (restore_namespace_idle es (restore_resource c ns e s).1 y done clear)
      | inr (f, failed) ↦ inr (IsAbout-here e f _ _ ours failed)
    ]
    | inr other ↦
        let same = entry_apart e s (λ p q. other (p, q)) in
        let rest =
          restore_namespace_attempts es (restore_resource c ns e s).1 x y (later e es h other)
            (same ∙ found) recovered clear in
        elim rest [
          | inl done ↦ inl done
          | inr q ↦ inr (Any-keep e (restore_resource c ns e s).0 _ q)
        ]
  ]

  -- An entry that cannot be restored, since its object's annotation or its fields do not serve.
  restore_namespace_fails :
      (es : List EnforcedResource) (s : c.State) (x : T) (f : Error c.Err)
      → Any (IsEntry kind n) es
      → view ns s n ≡ some x
      → r.recover ns x ≡ some (err f)
      → Any (IsAbout kind n) (restore_namespace c ns es s).0
  unfolding restore_namespace
  restore_namespace_fails [] s x f h found broken = absurd h
  restore_namespace_fails (e ∷ es) s x f h found broken = elim (IsEntry-cases e) [
    | inr other ↦
        let same = entry_apart e s (λ p q. other (p, q)) in
        Any-keep e (restore_resource c ns e s).0 _ (
          restore_namespace_fails es (restore_resource c ns e s).1 x f (later e es h other)
            (same ∙ found) broken)
    | inl ours ↦
        let step : restore_resource c ns e s ≡ restore r ns n s =
          here e s ours.0 ∙ ap (λ m. restore r ns m s) ours.1 in
        elim (Option-cases (restore_resource c ns e s).0) [
          | inr (o, failed) ↦ IsAbout-here e o _ _ ours failed
          | inl fine ↦ absurd (
              restore_refused r name namespace view L ns n s x f found broken
                (ap (λ t. t.0) (sym step) ∙ fine))
        ]
  ]

  -- The same, where what the restore sends is not known to exist: it is what is stored afterwards,
  -- or an error tells that the restore of the object failed.
  pub restore_namespace_tries :
      (es : List EnforcedResource) (s : c.State) (x : T) (q : Result (Error c.Err) T)
      → Any (IsEntry kind n) es
      → view ns s n ≡ some x
      → r.recover ns x ≡ some q
      → ((y : T) → q ≡ ok y → r.recover ns y ≡ none)
      → ((y : T) × (q ≡ ok y) × (view ns (restore_namespace c ns es s).1 n ≡ some y))
        ⊎ Any (IsAbout kind n) (restore_namespace c ns es s).0
  restore_namespace_tries es s x (err f) h found recovered clear =
      inr (restore_namespace_fails es s x f h found recovered)
  restore_namespace_tries es s x (ok y) h found recovered clear =
      elim (restore_namespace_attempts es s x y h found recovered (clear y refl)) [
        | inl done ↦ inl (y, refl, done)
        | inr failed ↦ inr failed
      ]

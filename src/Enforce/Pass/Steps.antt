-- ===== src/Enforce/Pass/Steps.antt =====
-- The ways a pass and a round of its loop go, as equations.
use gpu_budget_operator.Base.{String, true, false, some, List, ◌∷◌, ok, err, ◌≡◌, arith}
use gpu_budget_operator.Enforce.Report.{Error, also, nothing}
use gpu_budget_operator.Enforce.Pass.{Marker, mark_loop, pass}

module _ {S E T : Type 0} (m : Marker S E T) where
  -- The four ways a round of the loop goes.
  pub mark_loop-skipped :
      (ns : String) (x : T) (xs : List T) (s : S)
      → m.skips x ≡ true
      → mark_loop m ns (x ∷ xs) s ≡ mark_loop m ns xs s
  unfolding mark_loop
  mark_loop-skipped ns x xs s h = rw (h, mark_loop)

  pub mark_loop-unmarked :
      (ns : String) (x : T) (xs : List T) (s : S) (e : Error E)
      → m.skips x ≡ false
      → m.mark ns x ≡ err e
      → mark_loop m ns (x ∷ xs) s ≡ nothing (some e) s
  unfolding mark_loop
  mark_loop-unmarked ns x xs s e h p = ground arith

  pub mark_loop-sent :
      (ns : String) (x y : T) (xs : List T) (s s' : S) (z : T)
      → m.skips x ≡ false
      → m.mark ns x ≡ ok y
      → m.api.update y s ≡ (ok z, s')
      → mark_loop m ns (x ∷ xs) s ≡ also (m.report (m.name x) (m.now s')) (mark_loop m ns xs s')
  unfolding mark_loop
  mark_loop-sent ns x y xs s s' z h p e = ground arith

  pub mark_loop-refused :
      (ns : String) (x y : T) (xs : List T) (s s' : S) (e : E)
      → m.skips x ≡ false
      → m.mark ns x ≡ ok y
      → m.api.update y s ≡ (err e, s')
      → mark_loop m ns (x ∷ xs) s ≡ nothing (some (m.update_failed ns x e)) s'
  unfolding mark_loop
  mark_loop-refused ns x y xs s s' e h p q = ground arith

  pub pass-listed :
      (ns : String) (s s' : S) (xs : List T)
      → m.api.list ns s ≡ (ok xs, s')
      → pass m ns s ≡ mark_loop m ns xs s'
  unfolding pass
  pass-listed ns s s' xs e = ground arith

  pub pass-unlisted :
      (ns : String) (s s' : S) (e : E)
      → m.api.list ns s ≡ (err e, s')
      → pass m ns s ≡ nothing (m.list_failed ns e) s'
  unfolding pass
  pass-unlisted ns s s' e p = ground arith

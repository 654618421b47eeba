-- ===== src/Daemon/PageOps/Wait/Deadline.antt =====
-- When the polling of `wait` returns.
use vibesurfer.Text.{Text}
use vibesurfer.Prelude.{
  ℕ, zero, suc, ◌+◌, ◌≤◌, Bool, true, false, Option, ◌≡◌, refl, arith, if◌then◌else◌, ltb,
  Bool-cases, inl, inr, List, ◌∷◌,
}
use vibesurfer.Protocol.Tree.Nodes.{Forest}
use vibesurfer.Protocol.Envelope.Token.{StateToken}
use vibesurfer.Daemon.Fallible.{pure, ◌>>=◌, Outcome-cases}
use vibesurfer.Daemon.Engine.{PageHandle, EngineCall, snapshots}
use vibesurfer.Daemon.PageState.{PageState, compute, apply_snapshot, same_token}
use vibesurfer.Daemon.World.{World, Env, D, on_store, on_engine, find_page, with_page}
use vibesurfer.Daemon.Lifecycle.Pages.{engine_snapshot, save_token}
use vibesurfer.Daemon.PageOps.Wait.{
  slow_snapshot, rounds_of, poll, poll_rounds, next_round, advance_baseline, sleep, wait_change,
}
use vibesurfer.Daemon.Fallible.Keeps.{Keeps, Leads, bind-Leads, then-Leads, bind-Keeps}

module _ (Q : ℕ → Type 0) where
  -- What is said of the clock.
  abbrev OnClock : World → Type 0
  OnClock w = Q w.instant

  with_page-OnClock :
      {A : Type 0} (sid pid : Text) (f : PageState → A × PageState)
      → Keeps OnClock (with_page sid pid f)
  unfolding with_page
  with_page-OnClock sid pid f w h = elim (Outcome-cases (find_page sid pid w.sessions)) [
    | inl (p, e) ↦ rw (with_page, e) h
    | inr (why, e) ↦ rw (with_page, e) h
  ]

  save_token-OnClock :
      (env : Env) (pid : Text) (token : StateToken) → Keeps OnClock (save_token env pid token)
  unfolding save_token on_store
  save_token-OnClock env pid token w h = h

  snapshot-OnClock : (env : Env) (h : PageHandle) → Keeps OnClock (engine_snapshot env h)
  unfolding engine_snapshot on_engine
  snapshot-OnClock env h w early = early

  advance-OnClock :
      (env : Env) (sid pid : Text) (tree : Forest)
      → Keeps OnClock (advance_baseline env sid pid tree)
  unfolding advance_baseline
  advance-OnClock env sid pid tree =
      bind-Keeps OnClock (with_page sid pid (λ p. apply_snapshot env.token_of p tree)) _
        (with_page-OnClock sid pid (λ p. apply_snapshot env.token_of p tree))
        (λ seen.
          bind-Keeps OnClock (save_token env pid seen.0) _ (save_token-OnClock env pid seen.0)
            (λ saved w h. h))

module _ (deadline slow : ℕ) where
  abbrev InTime : World → Type 0
  InTime w = w.instant ≤ deadline

  abbrev Late : World → Type 0
  Late w = w.instant ≤ deadline + slow

  next_round-Late :
      (env : Env) (budget : ℕ) (again : D StateToken)
      → Leads InTime Late again
      → Keeps Late (next_round env deadline budget again)
  unfolding sleep
  next_round-Late env budget again k w h = elim (Bool-cases (ltb deadline (w.instant + poll))) [
    | inl e ↦ rw e h
    | inr e ↦ rw e (k (record w { instant = w.instant + poll }) (ground arith))
  ]

  if-Late :
      (b : Bool) (m n : D StateToken)
      → Keeps Late m
      → Keeps Late n
      → Keeps Late (if b then m else n)
  if-Late true m n k l = k
  if-Late false m n k l = l

  slow_snapshot-Leads :
      (env : Env) (h : PageHandle)
      → ((calls : List EngineCall) → env.engine.takes calls ≤ slow)
      → Leads InTime Late (slow_snapshot env h)
  unfolding slow_snapshot engine_snapshot on_engine
  slow_snapshot-Leads env h quick w early = omega (arith, early, quick (snapshots h ∷ w.calls))

  rounds-Leads :
      (env : Env) (fuel : ℕ) (sid pid url : Text) (h : PageHandle) (baseline : Option StateToken)
      (budget : ℕ)
      → ((calls : List EngineCall) → env.engine.takes calls ≤ slow)
      → Leads InTime Late (poll_rounds env fuel sid pid url h baseline deadline budget)
  unfolding poll_rounds
  rounds-Leads env zero sid pid url h baseline budget quick = λ w early. omega (arith, early)
  rounds-Leads env (suc fuel) sid pid url h baseline budget quick =
      let again = poll_rounds env fuel sid pid url h baseline deadline budget in
      let advance : Forest → D StateToken =
        λ tree. (do seen ← advance_baseline env sid pid tree; pure seen.0) in
      then-Leads InTime Late (slow_snapshot env h) _ (slow_snapshot-Leads env h quick) (λ tree.
        if-Late (same_token baseline (compute env.token_of tree url pid))
          (next_round env deadline budget again) (advance tree)
          (next_round-Late env budget again
            (rounds-Leads env fuel sid pid url h baseline budget quick))
          (bind-Keeps Late (advance_baseline env sid pid tree) _
            (advance-OnClock (λ at. at ≤ deadline + slow) env sid pid tree) (λ seen w late. late)))

-- If the engine takes at most `slow` for a snapshot, then the polling of `wait` for another token
-- returns, with the token or with an error, at most its budget and `slow` after it began, however
-- many snapshots it takes and whatever they show: the deadline is looked at after a snapshot, so the
-- last one may run over it, and nothing else does. The time of the store's statements is not counted.
pub wait_change-in_time :
    (env : Env) (sid pid : Text) (h : PageHandle) (budget slow : ℕ) (w : World)
    → ((calls : List EngineCall) → env.engine.takes calls ≤ slow)
    → (wait_change env sid pid h budget w).1.instant ≤ w.instant + budget + slow
wait_change-in_time env sid pid h budget slow w quick =
    bind-Leads (λ v. v.instant ≡ w.instant) (λ v. v.instant ≤ w.instant + budget + slow)
      (λ v. (find_page sid pid v.sessions, v))
      (λ p v.
        poll_rounds env (rounds_of env budget) sid pid p.url h p.last_token (v.instant + budget)
          budget v)
      (λ v same. same) (λ v same. omega (arith, same))
      (λ p v same. omega (
        arith,
        same,
        rounds-Leads (v.instant + budget) slow env (rounds_of env budget) sid pid p.url h
            p.last_token budget quick v (omega arith),
      ))
      w refl

-- ===== src/Daemon/PageOps/Wait/Rounds.antt =====
-- The polling loop of `wait`.
use vibesurfer.Text.{Text}
use vibesurfer.Prelude.{
  ℕ, zero, suc, ◌+◌, ◌*◌, ◌<◌, ◌≤◌, Bool, true, false, Option, ◌≡◌, refl, arith, if◌then◌else◌, ltb,
  Bool-cases, inl, inr,
}
use vibesurfer.Protocol.Envelope.Token.{StateToken}
use vibesurfer.Daemon.Fallible.{Outcome, ok, err, M, pure, ◌>>=◌, go_on}
use vibesurfer.Daemon.Engine.{PageHandle}
use vibesurfer.Daemon.PageState.{compute, same_token}
use vibesurfer.Daemon.World.{World, Env, D, on_engine}
use vibesurfer.Daemon.Lifecycle.Pages.{engine_snapshot}
use vibesurfer.Daemon.PageOps.Wait.{
  slow_snapshot, poll, poll_rounds, next_round, advance_baseline, rounds_of, sleep,
}

module _ {S E A B : Type 0} where
  go_on-cong :
      (x : Outcome E A × S) (f g : A → M S E B)
      → ((a : A) → f a x.1 ≡ g a x.1)
      → go_on x f ≡ go_on x g
  go_on-cong (ok a, s) f g h = h a
  go_on-cong (err e, s) f g h = refl

next_round-cong :
    (env : Env) (deadline budget : ℕ) (again other : D StateToken) (w : World)
    → (w.instant + poll ≤ deadline
        → again (record w { instant = w.instant + poll })
          ≡ other (record w { instant = w.instant + poll }))
    → next_round env deadline budget again w ≡ next_round env deadline budget other w
unfolding sleep
next_round-cong env deadline budget again other w same =
    elim (Bool-cases (ltb deadline (w.instant + poll))) [
      | inl e ↦ rw e refl
      | inr e ↦ rw e (same (ground arith))
    ]

if-cong :
    (b : Bool) (m n o : D StateToken) (w : World)
    → m w ≡ n w
    → (if b then m else o) w ≡ (if b then n else o) w
if-cong true m n o w h = h
if-cong false m n o w h = refl

-- A round that has time for another needs less fuel for the rest.
more_rounds :
    (env : Env) (fuel more : ℕ) (sid pid url : Text) (h : PageHandle) (baseline : Option StateToken)
    (deadline budget : ℕ) (w : World)
    → w.instant ≤ deadline
    → deadline < w.instant + fuel * poll
    → fuel ≤ more
    → poll_rounds env more sid pid url h baseline deadline budget w
      ≡ poll_rounds env fuel sid pid url h baseline deadline budget w
unfolding poll_rounds slow_snapshot engine_snapshot on_engine
more_rounds env zero more sid pid url h baseline deadline budget w early enough le =
    absurd (omega arith)
more_rounds env (suc fuel) zero sid pid url h baseline deadline budget w early enough le =
    absurd (omega arith)
more_rounds env (suc fuel) (suc more) sid pid url h baseline deadline budget w early enough le =
    let snapped = slow_snapshot env h w in
    let again = poll_rounds env more sid pid url h baseline deadline budget in
    let other = poll_rounds env fuel sid pid url h baseline deadline budget in
    go_on-cong snapped
      (λ tree.
        if same_token baseline (compute env.token_of tree url pid)
        then next_round env deadline budget again
        else (do seen ← advance_baseline env sid pid tree; pure seen.0))
      (λ tree.
        if same_token baseline (compute env.token_of tree url pid)
        then next_round env deadline budget other
        else (do seen ← advance_baseline env sid pid tree; pure seen.0))
      (λ tree.
        if-cong (same_token baseline (compute env.token_of tree url pid))
          (next_round env deadline budget again) (next_round env deadline budget other)
          (do seen ← advance_baseline env sid pid tree; pure seen.0) snapped.1
          (next_round-cong env deadline budget again other snapped.1 (λ late.
            more_rounds env fuel more sid pid url h baseline deadline budget
              (record snapped.1 { instant = snapped.1.instant + poll }) late (omega arith)
              (omega arith))))

-- The rounds that `wait` runs are as many as the deadline allows: with fuel for more of them, the
-- loop ends in the same state with the same answer, so it never ends for want of fuel.
pub poll_rounds-enough :
    (env : Env) (fuel : ℕ) (sid pid url : Text) (h : PageHandle) (baseline : Option StateToken)
    (budget : ℕ) (w : World)
    → rounds_of env budget ≤ fuel
    → poll_rounds env fuel sid pid url h baseline (w.instant + budget) budget w
      ≡ poll_rounds env (rounds_of env budget) sid pid url h baseline (w.instant + budget) budget w
poll_rounds-enough env fuel sid pid url h baseline budget w le =
    more_rounds env (rounds_of env budget) fuel sid pid url h baseline (w.instant + budget) budget w
      (omega arith) (omega arith) le

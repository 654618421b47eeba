-- ===== src/Daemon/Invariant/Waits.antt =====
-- `wait` keeps the invariant, however many rounds it takes.
use vibesurfer.Prelude.{
  ℕ, zero, suc, ◌+◌, Bool, true, false, Option, some, if◌then◌else◌, ltb, Bool-cases, inl, inr, ◌∷◌,
}
use vibesurfer.Text.{Text}
use vibesurfer.Protocol.Tree.Nodes.{Forest}
use vibesurfer.Protocol.Envelope.Token.{StateToken}
use vibesurfer.Daemon.Fallible.{pure, ◌>>=◌}
use vibesurfer.Daemon.Engine.{PageHandle, WaitCondition, snapshots}
use vibesurfer.Daemon.PageState.{compute, same_token}
use vibesurfer.Daemon.World.{Env, D, on_engine, find_page, engine_handle_for}
use vibesurfer.Daemon.Lifecycle.Pages.{engine_snapshot, save_token}
use vibesurfer.Daemon.Fallible.Keeps.{Keeps, bind-Keeps}
use vibesurfer.Daemon.Invariant.{IsValid}
use vibesurfer.Daemon.Invariant.Pieces.{audit_call-Keeps, KeepsIt, after, after_note}
use vibesurfer.Daemon.Invariant.Pages.{engine_handle_for-Keeps, save_token-Keeps}
use vibesurfer.Daemon.PageOps.Wait.{
  slow_snapshot, wait, wait_body, poll_rounds, next_round, advance_baseline, engine_wait, sleep,
  wait_for, wait_change, rounds_of, is_token_change, poll,
}
use vibesurfer.Daemon.Invariant.Views.{engine_snapshot-Keeps, snapshot_page, snapshot_page-Keeps}

advance_baseline-Keeps :
    (env : Env) (sid pid : Text) (tree : Forest) → Keeps IsValid (advance_baseline env sid pid tree)
unfolding advance_baseline
advance_baseline-Keeps env sid pid tree =
    bind-Keeps IsValid (snapshot_page env sid pid tree) _ (snapshot_page-Keeps env sid pid tree)
      (λ seen.
        bind-Keeps IsValid (save_token env pid seen.0) _ (save_token-Keeps env pid seen.0)
          (λ saved w valid. valid))

next_round-Keeps :
    (env : Env) (deadline budget : ℕ) (again : D StateToken)
    → Keeps IsValid again
    → Keeps IsValid (next_round env deadline budget again)
unfolding sleep
next_round-Keeps env deadline budget again k w h =
    elim (Bool-cases (ltb deadline (w.instant + poll))) [
      | inl e ↦ rw e h
      | inr e ↦ rw e (k (record w { instant = w.instant + poll }) h)
    ]

advance_token : Env → Text → Text → Forest → D StateToken
advance_token env sid pid tree = do seen ← advance_baseline env sid pid tree; pure seen.0

advance_token-Keeps :
    (env : Env) (sid pid : Text) (tree : Forest) → Keeps IsValid (advance_token env sid pid tree)
unfolding advance_token
advance_token-Keeps env sid pid tree =
    bind-Keeps IsValid (advance_baseline env sid pid tree) _
      (advance_baseline-Keeps env sid pid tree) (λ seen w valid. valid)

if-Keeps :
    {A : Type 0} (b : Bool) (m n : D A)
    → Keeps IsValid m
    → Keeps IsValid n
    → Keeps IsValid (if b then m else n)
if-Keeps true m n k l = k
if-Keeps false m n k l = l

slow_snapshot-Keeps : (env : Env) (h : PageHandle) → Keeps IsValid (slow_snapshot env h)
unfolding slow_snapshot
slow_snapshot-Keeps env h w valid =
    engine_snapshot-Keeps env h
      (record w { instant = w.instant + env.engine.takes (snapshots h ∷ w.calls) }) valid

poll_rounds-Keeps :
    (env : Env) (fuel : ℕ) (sid pid url : Text) (h : PageHandle) (baseline : Option StateToken)
    (deadline budget : ℕ)
    → Keeps IsValid (poll_rounds env fuel sid pid url h baseline deadline budget)
unfolding poll_rounds advance_token
poll_rounds-Keeps env zero sid pid url h baseline deadline budget = λ w valid. valid
poll_rounds-Keeps env (suc fuel) sid pid url h baseline deadline budget =
    let again = poll_rounds env fuel sid pid url h baseline deadline budget in
    bind-Keeps IsValid (slow_snapshot env h) _ (slow_snapshot-Keeps env h) (λ tree.
      if-Keeps (same_token baseline (compute env.token_of tree url pid))
        (next_round env deadline budget again) (advance_token env sid pid tree)
        (next_round-Keeps env deadline budget again
          (poll_rounds-Keeps env fuel sid pid url h baseline deadline budget))
        (advance_token-Keeps env sid pid tree))

wait_for-Keeps :
    (env : Env) (sid pid : Text) (h : PageHandle) (cond : WaitCondition) (budget : ℕ)
    → Keeps IsValid (wait_for env sid pid h cond budget)
unfolding engine_wait on_engine advance_token
wait_for-Keeps env sid pid h cond budget =
    bind-Keeps IsValid (engine_wait env h cond budget) _ (λ w valid. valid)
      (λ waited.
        bind-Keeps IsValid (engine_snapshot env h) _ (engine_snapshot-Keeps env h)
          (λ tree. advance_token-Keeps env sid pid tree))

wait_change-Keeps :
    (env : Env) (sid pid : Text) (h : PageHandle) (budget : ℕ)
    → Keeps IsValid (wait_change env sid pid h budget)
wait_change-Keeps env sid pid h budget =
    bind-Keeps IsValid (λ w. (find_page sid pid w.sessions, w)) _ (λ w valid. valid)
      (λ p w.
        poll_rounds-Keeps env (rounds_of env budget) sid pid p.url h p.last_token
          (w.instant + budget) budget w)

wait_body-Keeps :
    (env : Env) (sid pid : Text) (cond : WaitCondition) (budget : ℕ)
    → KeepsIt (wait_body env sid pid cond budget)
unfolding wait_body
wait_body-Keeps env sid pid cond budget =
    after _ (engine_handle_for env sid pid) (engine_handle_for-Keeps env sid pid) (λ h.
      after _
        (if is_token_change cond
          then wait_change env sid pid h budget
          else wait_for env sid pid h cond budget)
        (if-Keeps (is_token_change cond) (wait_change env sid pid h budget)
          (wait_for env sid pid h cond budget) (wait_change-Keeps env sid pid h budget)
          (wait_for-Keeps env sid pid h cond budget))
        (λ token.
          after_note _ (λ c. record c { after_token = some token }) (λ done s valid. valid)))

pub wait-Keeps :
    (env : Env) (sid pid : Text) (cond : WaitCondition) (budget : ℕ)
    → Keeps IsValid (wait env sid pid cond budget)
unfolding wait
wait-Keeps env sid pid cond budget =
    audit_call-Keeps _ (wait_body env sid pid cond budget) (wait_body-Keeps env sid pid cond budget)

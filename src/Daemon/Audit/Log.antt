-- ===== src/Daemon/Audit/Log.antt =====
-- The rows that the primitives leave in the log.
use vibesurfer.Prelude.{◌+◌, ◌-◌, [], ◌∷◌, ◌++◌, none, ◌≡◌, refl, length, ℕ, Option, drop}
use vibesurfer.Text.{Text}
use vibesurfer.Daemon.Audit.{ok}
use vibesurfer.Daemon.Error.{DaemonError}
use vibesurfer.Daemon.Fallible.{Outcome}
use vibesurfer.Daemon.Store.{ActionInsert}
use vibesurfer.Daemon.Store.Laws.{record_action_ok, first_fate}
use vibesurfer.Daemon.World.{World, on_store}
use vibesurfer.Daemon.Audit.{
  AuditCtx, Running, Body, audit_row, audit_from_ctx, error_of, audit_call,
}

-- What a body does before its row is written.
abbrev pub body_end : {A : Type 0} → AuditCtx → Body A → World → Running
body_end ctx body w = (body (record { world = w; ctx = ctx })).1

abbrev pub body_result : {A : Type 0} → AuditCtx → Body A → World → Outcome DaemonError A
body_result ctx body w = (body (record { world = w; ctx = ctx })).0

abbrev pub row_of : {A : Type 0} → AuditCtx → Body A → World → ActionInsert
row_of ctx body w =
    let s = body_end ctx body w in
    audit_row s.ctx (s.world.instant - w.instant) s.world.epoch (error_of (body_result ctx body w))

-- The state after a row is added.
abbrev pub logged : ActionInsert → World → World
logged insert w = record w {
  store = record w.store {
    actions = w.store.actions ++ record { id = length w.store.actions + 1; insert = insert } ∷ [];
    faults = drop 1 w.store.faults;
  };
}

pub audit_from_ctx_ok :
    (c : AuditCtx) (latency : ℕ) (code : Option Text) (w : World)
    → first_fate w.store.faults ≡ none
    → audit_from_ctx c latency code w
      ≡ (ok (length w.store.actions + 1), logged (audit_row c latency w.epoch code) w)
unfolding audit_from_ctx on_store
audit_from_ctx_ok c latency code w h =
    rw (record_action_ok (audit_row c latency w.epoch code) w.store h)

pub audit_call_ends :
    {A : Type 0} (ctx : AuditCtx) (body : Body A) (w : World) (r : Outcome DaemonError A)
    (s : Running)
    → body (record { world = w; ctx = ctx }) ≡ (r, s)
    → first_fate s.world.store.faults ≡ none
    → audit_call ctx body w ≡ (
      r,
      logged (audit_row s.ctx (s.world.instant - w.instant) s.world.epoch (error_of r)) s.world,
    )
unfolding audit_call
audit_call_ends ctx body w r s ends h =
    rw (ends, audit_from_ctx_ok s.ctx (s.world.instant - w.instant) (error_of r) s.world h)

-- If the store takes the row of the call, the call returns what its body returned, be it a value or
-- an error, and it adds exactly one row to the log, whose error code is the wire code of the error,
-- or none; the sessions and the engine are as the body left them.
pub audit_call-row :
    {A : Type 0} (ctx : AuditCtx) (body : Body A) (w : World)
    → first_fate (body_end ctx body w).world.store.faults ≡ none
    → let s = (body_end ctx body w).world in
      let (r, after) = audit_call ctx body w in
      (r ≡ body_result ctx body w)
      × (after.store.actions
          ≡ s.store.actions
            ++ record { id = length s.store.actions + 1; insert = row_of ctx body w } ∷ [])
      × ((row_of ctx body w).error_code ≡ error_of (body_result ctx body w))
      × (after.sessions ≡ s.sessions)
      × (after.calls ≡ s.calls)
unfolding audit_row
audit_call-row ctx body w h =
    rw (audit_call_ends ctx body w (body_result ctx body w) (body_end ctx body w) refl h)
      (refl, refl, refl, refl, refl)

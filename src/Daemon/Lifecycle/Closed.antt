-- ===== src/Daemon/Lifecycle/Closed.antt =====
-- A session that is closed.
use vibesurfer.Text.{Text, codes, text_eq}
use vibesurfer.Prelude.{ℕ, ◌-◌, false, List, [], ◌∷◌, none, some, ◌≡◌, refl, Bool-cases, inl, inr}
use vibesurfer.Table.{get, remove, get-remove, get-remove_other}
use vibesurfer.Daemon.Lifecycle.{
  session_close, close_in_store, session_close_response, hash_of, take_session, handles_of,
  close_handles, close_rows, close_body,
}
use vibesurfer.Daemon.Error.{DaemonError}
use vibesurfer.Daemon.Fallible.{Outcome, ok, err, pure, ◌>>=◌, ◌>>◌}
use vibesurfer.Daemon.Engine.{PageHandle, EngineCall, closes}
use vibesurfer.Daemon.Store.{Page, is_none}
use vibesurfer.Daemon.Store.Sessions.{close_session}
use vibesurfer.Daemon.Store.Pages.{close_page, list_pages}
use vibesurfer.Daemon.World.{
  World, Env, SessionState, Sessions, on_store, on_engine, on_store_now, find_session, set_sessions,
}
use vibesurfer.Daemon.Audit.{
  AuditCtx, new_ctx, with_args, Body, lift, audit_call, audit_from_ctx, unless_lost, error_of,
}
use vibesurfer.Daemon.Fallible.Keeps.{Keeps, bind-Keeps}
use vibesurfer.Daemon.Audit.Log.{body_end, body_result}

-- The calls after the engine was told to close these pages, one after the other.
abbrev pub closings : List PageHandle → List EngineCall → List EngineCall
closings [] calls = calls
closings (h ∷ hs) calls = closings hs (closes h ∷ calls)

-- The sessions and the calls are these.
abbrev pub Are : Sessions → List EngineCall → World → Type 0
Are ss calls w = (w.sessions ≡ ss) × (w.calls ≡ calls)

pub unless_lost-world :
    {A : Type 0} (r : Outcome DaemonError A) (x : Outcome DaemonError ℕ × World)
    → (unless_lost r x).1 ≡ x.1
unless_lost-world r (ok id, w) = refl
unless_lost-world r (err e, w) = refl

-- The row of the log changes neither, even if it cannot be written.
pub audit_call-Are :
    {A : Type 0} (ctx : AuditCtx) (body : Body A) (w : World) {ss : Sessions}
    {calls : List EngineCall}
    → Are ss calls (body_end ctx body w).world
    → Are ss calls (audit_call ctx body w).1
unfolding audit_call audit_from_ctx on_store
audit_call-Are ctx body w h =
    let s = body_end ctx body w in
    rw
      (unless_lost-world (body_result ctx body w) (
        audit_from_ctx s.ctx (s.world.instant - w.instant) (error_of (body_result ctx body w))
          s.world))
      h

close_rows-Are :
    (ss : Sessions) (calls : List EngineCall) (rows : List Page)
    → Keeps (Are ss calls) (close_rows rows)
unfolding close_rows on_store
close_rows-Are ss calls [] w h = h
close_rows-Are ss calls (row ∷ rows) w h = elim (Bool-cases (is_none row.closed_at)) [
  | inl e ↦ rw e (close_rows-Are ss calls rows (on_store (close_page w.epoch row.id) w).1 h)
  | inr e ↦ rw e (close_rows-Are ss calls rows w h)
]

pub close_handles-calls :
    (env : Env) (hs : List PageHandle) (w : World)
    → close_handles env hs w ≡ (ok tt, record w { calls = closings hs w.calls })
unfolding close_handles on_engine
close_handles-calls env [] w = refl
close_handles-calls env (h ∷ hs) w =
    close_handles-calls env hs (record w { calls = closes h ∷ w.calls })

pub take_session-known :
    (sid : Text) (w : World) (s : SessionState)
    → get w.sessions sid ≡ some s
    → take_session sid w ≡ (ok (handles_of s.pages), set_sessions (remove sid w.sessions) w)
unfolding take_session find_session
take_session-known sid w s there = rw (take_session, there)

close_in_store-Are :
    (env : Env) (sid : Text) (ss : Sessions) (calls : List EngineCall)
    → Keeps (Are ss calls) (close_in_store env sid)
unfolding close_in_store on_store
close_in_store-Are env sid ss calls =
    let P = Are ss calls in
    bind-Keeps P (on_store_now env (λ now. close_session now sid))
      (λ row. on_store_now env (λ now. list_pages sid) >>= λ pages.
        close_rows pages >> pure session_close_response)
      (λ w h. h)
      (λ row.
        bind-Keeps P (on_store_now env (λ now. list_pages sid))
          (λ pages. close_rows pages >> pure session_close_response) (λ w h. h)
          (λ pages.
            bind-Keeps P (close_rows pages) (λ done. pure session_close_response)
              (close_rows-Are ss calls pages) (λ done w h. h)))

close_body-Are :
    (env : Env) (sid : Text) (w : World) (s : SessionState)
    → get w.sessions sid ≡ some s
    → Are (remove sid w.sessions) (closings (handles_of s.pages) w.calls) (close_body env sid w).1
unfolding close_body
close_body-Are env sid w s there =
    let ss = remove sid w.sessions in
    let calls = closings (handles_of s.pages) w.calls in
    rw
      (
        take_session-known sid w s there,
        close_handles-calls env (handles_of s.pages) (set_sessions ss w),
      )
      (close_in_store-Are env sid ss calls (record w { sessions = ss; calls = calls }) (refl, refl))

-- Closing a session that the daemon knows takes it out of the sessions and closes the engine page of
-- each of its pages that has one, once and in the order of the table, and makes no other call of the
-- engine; every other session is as it was. This holds whatever the store and the engine answer.
pub session_close-removes :
    (env : Env) (sid other : Text) (w : World) (s : SessionState)
    → get w.sessions sid ≡ some s
    → text_eq sid other ≡ false
    → let after = (session_close env sid w).1 in
      (get after.sessions sid ≡ none)
      × (get after.sessions other ≡ get w.sessions other)
      × (after.calls ≡ closings (handles_of s.pages) w.calls)
unfolding session_close lift
session_close-removes env sid other w s there differs =
    let ends =
      audit_call-Are
        (with_args [] (hash_of env (codes "vs_session_close") [])
          (new_ctx (codes "vs_session_close") sid))
        (lift (close_body env sid)) w (close_body-Are env sid w s there) in
    rw (ends.0, ends.1)
      (get-remove w.sessions sid, get-remove_other w.sessions sid other differs, refl)

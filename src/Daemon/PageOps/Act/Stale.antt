-- ===== src/Daemon/PageOps/Act/Stale.antt =====
-- An `act` whose token is not that of the page.
use vibesurfer.Prelude.{◌+◌, ◌-◌, false, [], ◌∷◌, ◌++◌, none, some, ◌≡◌, refl, length}
use vibesurfer.Text.{codes, text_eq}
use vibesurfer.Protocol.Codes.{error_str, stale_token}
use vibesurfer.Daemon.Error.{stale, wire_code}
use vibesurfer.Daemon.Fallible.{err}
use vibesurfer.Daemon.Engine.{PageHandle}
use vibesurfer.Daemon.PageState.{PageState}
use vibesurfer.Daemon.Store.{ActionInsert}
use vibesurfer.Daemon.Store.Laws.{first_fate}
use vibesurfer.Daemon.World.{World, Env, token_or_zero}
use vibesurfer.Daemon.World.Laws.{
  Located, touched, after_touch, touch-Located, mutate_lock_for-eq, current_token-eq,
  engine_handle_for-live,
}
use vibesurfer.Daemon.Audit.{Running, audit_row, lift}
use vibesurfer.Daemon.Audit.Log.{audit_call_ends}
use vibesurfer.Daemon.PageOps.Act.{ActCall, act_body, act_ctx, act}

-- The state after the three steps that an `act` on a live page begins with.
abbrev pub after_lookups : ActCall → World → World
after_lookups call w =
    after_touch call.session_id call.page_id (after_touch call.session_id call.page_id w)

-- The page there.
abbrev pub twice_touched : World → PageState → PageState
twice_touched w p = touched w.instant (touched w.instant p)

pub after_lookups-Located :
    (call : ActCall) (w : World) (p : PageState)
    → Located w.sessions call.session_id call.page_id p
    → Located (after_lookups call w).sessions call.session_id call.page_id (twice_touched w p)
after_lookups-Located call w p here =
    touch-Located (after_touch call.session_id call.page_id w) call.session_id call.page_id
      (touched w.instant p) (touch-Located w call.session_id call.page_id p here)

act_body-stale :
    (env : Env) (call : ActCall) (s : Running) (p : PageState) (h : PageHandle)
    → Located s.world.sessions call.session_id call.page_id p
    → p.engine_handle ≡ some h
    → text_eq (token_or_zero p.last_token) call.before_token ≡ false
    → act_body env call s ≡ (
      err (stale (token_or_zero p.last_token) (codes "mutate")),
      record s { world = after_lookups call s.world },
    )
unfolding act_body lift
act_body-stale env call s p h here live differs = rw (
  mutate_lock_for-eq s.world call.session_id call.page_id p here,
  engine_handle_for-live env s.world call.session_id call.page_id p h here live,
  current_token-eq (after_touch call.session_id call.page_id s.world) call.session_id call.page_id
      (touched s.world.instant p) (touch-Located s.world call.session_id call.page_id p here),
  differs,
)

-- If the page has an engine page and its token is not the one that the call gives, and the store
-- takes the row, then `act` fails with the page's token; the engine is not called, the page is as it
-- was but for the time of its last touch, and the log has one row more, with the code STALE_TOKEN.
pub act-stale :
    (env : Env) (call : ActCall) (w : World) (p : PageState) (h : PageHandle)
    → Located w.sessions call.session_id call.page_id p
    → p.engine_handle ≡ some h
    → text_eq (token_or_zero p.last_token) call.before_token ≡ false
    → first_fate w.store.faults ≡ none
    → let (r, after) = act env call w in
      (r ≡ err (stale (token_or_zero p.last_token) (codes "mutate")))
      × (after.calls ≡ w.calls)
      × Located after.sessions call.session_id call.page_id (touched w.instant p)
      × ((insert : ActionInsert) × (after.store.actions
            ≡ w.store.actions ++ record { id = length w.store.actions + 1; insert = insert } ∷ [])
          × (insert.error_code ≡ some (error_str stale_token)))
unfolding act audit_row wire_code
act-stale env call w p h here live differs fault =
    let why = stale (token_or_zero p.last_token) (codes "mutate") in
    let end : Running = record { world = after_lookups call w; ctx = act_ctx env call } in
    rw
      (audit_call_ends (act_ctx env call) (act_body env call) w (err why) end
        (act_body-stale env call (record { world = w; ctx = act_ctx env call }) p h here live
          differs)
        fault)
      (
        refl,
        refl,
        after_lookups-Located call w p here,
        (
          audit_row (act_ctx env call) (w.instant - w.instant) w.epoch
              (some (error_str stale_token)),
          refl,
          refl,
        ),
      )

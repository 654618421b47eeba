-- ===== src/Daemon/Lifecycle/Pages.antt =====
-- `open`, `navigate` and `close` of crates/vs-daemon/src/daemon/lifecycle.rs.
use vibesurfer.Prelude.{[], ◌∷◌, ◌++◌, Option, none, some}
use vibesurfer.Text.{Text, codes}
use vibesurfer.Protocol.Tree.Nodes.{Forest}
use vibesurfer.Protocol.Envelope.Token.{StateToken, display}
use vibesurfer.Daemon.Fallible.{pure, ignore, ◌>>=◌, ◌>>◌}
use vibesurfer.Daemon.Engine.{PageHandle, navigates, snapshots}
use vibesurfer.Daemon.PageState.{new, compute}
use vibesurfer.Daemon.Store.Pages.{create_page, close_page, update_page_token, update_page_url}
use vibesurfer.Daemon.World.{
  Env, D, on_engine, on_store_now, with_page, require_session, engine_handle_for, engine_open,
  engine_close, draw_id,
}
use vibesurfer.Daemon.Audit.{
  new_ctx, with_args, with_page_id, Body, lift, note, note_after, audit_call,
}
use vibesurfer.Daemon.Lifecycle.{
  OpenResponse, CloseResponse, close_response, insert_page, take_page, fresh_page, rebase, hash_of,
}

module _ (env : Env) where
  unfoldable pub engine_snapshot : PageHandle → D Forest
  engine_snapshot h w = on_engine (snapshots h) (env.engine.on_snapshot w.calls h) w

  unfoldable pub engine_navigate : PageHandle → Text → D (Unit {0})
  engine_navigate h url w = on_engine (navigates h url) (env.engine.on_navigate w.calls h url) w

  unfoldable pub save_token : Text → StateToken → D (Unit {0})
  save_token pid token =
      on_store_now env (λ now. update_page_token now pid (display token) (codes "engine") none)

  unfoldable pub open_body : Text → Text → Body OpenResponse
  open_body sid url = do
    lift (require_session sid)
    h ← lift (engine_open env url)
    drawn ← lift (draw_id env)
    let pid = codes "p_" ++ drawn
    note (λ c. record c { page_id = some pid })
    row ← lift (on_store_now env (λ now. create_page now pid sid url))
    tree ← lift (engine_snapshot h)
    let token = compute env.token_of tree url pid
    note_after token
    lift (save_token pid token)
    lift (λ w. insert_page sid pid (fresh_page (new pid url h w.instant) tree token) w)
    pure (record { page_id = pid; token = token; warnings = [] })

  unfoldable pub open_page : Text → Text → D OpenResponse
  open_page sid url =
      audit_call
        (with_args url (hash_of env (codes "vs_open") (url ∷ [])) (new_ctx (codes "vs_open") sid))
        (open_body sid url)

  unfoldable pub navigate_body : Text → Text → Text → Body OpenResponse
  navigate_body sid pid url = do
    h ← lift (engine_handle_for env sid pid)
    lift (engine_navigate h url)
    tree ← lift (engine_snapshot h)
    let token = compute env.token_of tree url pid
    note_after token
    lift (with_page sid pid (λ p. (tt, rebase url p tree token)))
    lift (on_store_now env (λ now. update_page_url now pid url))
    lift (save_token pid token)
    pure (record { page_id = pid; token = token; warnings = [] })

  unfoldable pub navigate : Text → Text → Text → D OpenResponse
  navigate sid pid url =
      audit_call
        (with_args url (hash_of env (codes "vs_goto") (url ∷ []))
          (with_page_id pid (new_ctx (codes "vs_goto") sid)))
        (navigate_body sid pid url)

  abbrev pub close_handle : Option PageHandle → D (Unit {0})
  close_handle none = pure tt
  close_handle (some h) = ignore (engine_close env h)

  unfoldable pub close_page_body : Text → Text → D CloseResponse
  close_page_body sid pid = do
    handle ← take_page sid pid
    close_handle handle
    ignore (on_store_now env (λ now. close_page now pid))
    pure close_response

  unfoldable pub close : Text → Text → D CloseResponse
  close sid pid =
      audit_call
        (with_args [] (hash_of env (codes "vs_close") [])
          (with_page_id pid (new_ctx (codes "vs_close") sid)))
        (lift (close_page_body sid pid))

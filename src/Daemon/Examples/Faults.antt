-- ===== src/Daemon/Examples/Faults.antt =====
-- What the daemon does that its documents do not say.
use vibesurfer.Prelude.{[], ◌∷◌, some, ◌≡◌, refl}
use vibesurfer.Text.{Text, codes, text_eq}
use vibesurfer.Table.{get}
use vibesurfer.Daemon.Audit.{audit_from_ctx, lift, note, audit_call}
use vibesurfer.Daemon.Engine.{opens}
use vibesurfer.Daemon.Store.{statement}
use vibesurfer.Daemon.Store.Pages.{create_page}
use vibesurfer.Daemon.Store.Actions.{record_action}
use vibesurfer.Daemon.World.{World, on_store, on_engine, require_session, draw_id}
use vibesurfer.Daemon.Lifecycle.Pages.{open_page, open_body}
use vibesurfer.Daemon.PromptForm.{fill_call}
use vibesurfer.Daemon.Pending.{PendingEntry}
use vibesurfer.Daemon.Examples.{env, world, old_token}

abbrev full_disk : World
full_disk = record world { store = record world.store { faults = some (codes "disk full") ∷ [] } }

-- The row of a page cannot be written: the engine page that was opened is not closed, and no page of
-- the session holds its handle.
leaked_page :
    let after = (open_page env (codes "s") (codes "u") full_disk).1 in
    (after.calls ≡ opens (codes "u") ∷ []) × (after.sessions ≡ world.sessions)
unfolding open_page open_body lift require_session on_engine draw_id note on_store create_page
    statement get text_eq audit_call audit_from_ctx record_action
leaked_page = (refl, refl)

-- Two fields of a form that are filled after the same token have the same key in the log.
fills_alike :
    (entry other : PendingEntry) (value password : Text)
    → (fill_call env (codes "s") entry value old_token).args_hash
      ≡ (fill_call env (codes "s") other password old_token).args_hash
unfolding fill_call
fills_alike entry other value password = refl

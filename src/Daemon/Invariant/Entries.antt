-- ===== src/Daemon/Invariant/Entries.antt =====
-- The entries of sessions and pages that have their rows.
use vibesurfer.Text.{Text, text_eq, codes}
use vibesurfer.Table.{put-IsTable, All-get, All-put, get, put}
use vibesurfer.Prelude.{true, [], ◌≡◌, refl, any, inl, inr, some, all, Option-cases}
use vibesurfer.Daemon.Lifecycle.{
  session_open, session_open_as, session_open_body, SessionOpenResponse, hash_of, take_session,
  take_page, close_handles, close_rows, fresh_page, rebase, close_in_store, close_body,
  session_close, handles_of, session_close_response, SessionCloseResponse, OpenResponse,
  close_response,
}
use vibesurfer.Daemon.Invariant.Pieces.{write-Valid}
use vibesurfer.Daemon.Fallible.{◌>>◌, Outcome, ok, err, pure, ◌>>=◌, go_on}
use vibesurfer.Daemon.Audit.{AuditCtx, note, Running, Body, lift, note_after}
use vibesurfer.Daemon.Fallible.Keeps.{Leads, Keeps, bind-Leads}
use vibesurfer.Daemon.World.{World, Env, new_session, on_store, on_engine, find_session}
use vibesurfer.Daemon.Store.Sessions.{closes_session}
use vibesurfer.Daemon.Store.Pages.{update_page_token, has_page}
use vibesurfer.Protocol.Tree.Nodes.{Forest}
use vibesurfer.Protocol.Envelope.Token.{StateToken, display}
use vibesurfer.Daemon.Error.{DaemonError}
use vibesurfer.Daemon.Engine.{PageHandle}
use vibesurfer.Daemon.PageState.{PageState, new, compute}
use vibesurfer.Daemon.Lifecycle.Pages.{engine_snapshot, save_token}
use vibesurfer.Daemon.Invariant.{IsPage, IsSession, IsValid}
use vibesurfer.Daemon.Invariant.Grow.{Grows-refl, update_page-Growing}
use vibesurfer.Daemon.Invariant.Pages.{save_token-Keeps}
use vibesurfer.Daemon.Lifecycle

insert_session-Valid :
    (sid : Text) (w : World)
    → IsValid w
    → any (closes_session sid) w.store.sessions ≡ true
    → IsValid (Lifecycle.insert_session sid w).1
unfolding Lifecycle.insert_session new_session
insert_session-Valid sid w (table, all) row = (
  (put-IsTable w.sessions sid (new_session w.instant) table.0, table.1),
  All-put (IsSession w.store) w.sessions sid (new_session w.instant) all (row, tt, tt),
)

-- The last step of `session_open`.
pub opened-Valid :
    (sid answer : Text) (s : Running)
    → IsValid s.world
    → any (closes_session sid) s.world.store.sessions ≡ true
    → IsValid (Lifecycle.insert_session sid s.world).1
opened-Valid sid answer s valid row = insert_session-Valid sid s.world valid row

-- The page is put under its own id.
insert_page-Valid :
    (sid pid : Text) (p : PageState) (w : World)
    → p.id ≡ pid
    → IsValid w
    → has_page pid w.store.pages ≡ true
    → IsValid (Lifecycle.insert_page sid pid p w).1
unfolding Lifecycle.insert_page find_session
insert_page-Valid sid pid p w own valid row = elim (Option-cases (get w.sessions sid)) [
  | inl e ↦ rw (Lifecycle.insert_page, e) valid
  | inr (s, e) ↦
      let known = All-get (IsSession w.store) w.sessions sid valid.1 e in
      rw (Lifecycle.insert_page, e)
        (write-Valid w.store w.sessions sid (record s { pages = put pid p s.pages }) valid
          (
            known.0,
            put-IsTable s.pages pid p known.1,
            All-put (IsPage w.store) s.pages pid p known.2 (own, row),
          ))
]

-- The row of a page is there, and stays.
abbrev Owed : Text → Running → Type 0
Owed pid s = IsValid s.world × (has_page pid s.world.store.pages ≡ true)

save_token-Owed :
    (env : Env) (pid : Text) (token : StateToken)
    → Keeps (Owed pid) (lift (save_token env pid token))
unfolding save_token update_page_token lift on_store
save_token-Owed env pid token s (valid, row) = (
  save_token-Keeps env pid token s.world valid,
  (update_page-Growing (λ r. text_eq r.id pid)
        (λ r. record r {
          last_token = some (display token);
          last_dom_hash = some (codes "engine");
          last_seen_at = s.world.epoch;
          title = r.title;
        })
        pid (λ r. refl) s.world.store s.world.store (Grows-refl s.world.store)).keeps_pages
      pid row,
)

inserted-Valid :
    (sid pid : Text) (s : Running) (p : PageState)
    → p.id ≡ pid
    → Owed pid s
    → IsValid (Lifecycle.insert_page sid pid p s.world).1
inserted-Valid sid pid s p own owed = insert_page-Valid sid pid p s.world own owed.0 owed.1

-- The answer is returned or the error passed on; the state is that of the last step.
finished-Valid :
    {A : Type 0} (answer : A) (x : Outcome DaemonError (Unit {0}) × World) (s : Running)
    → IsValid x.1
    → IsValid (go_on (x.0, record s { world = x.1 }) (λ done. pure answer)).1.world
finished-Valid answer (ok done, w) s h = h
finished-Valid answer (err e, w) s h = h

-- The last step of `open`.
unfoldable pub last_of_open : Env → Text → Text → Text → PageHandle → Forest → Body OpenResponse
last_of_open env sid pid url h tree = do
  let token = compute env.token_of tree url pid
  lift (λ w. Lifecycle.insert_page sid pid (fresh_page (new pid url h w.instant) tree token) w)
  pure (record { page_id = pid; token = token; warnings = [] })

last_of_open-Leads :
    (env : Env) (sid pid url : Text) (h : PageHandle) (tree : Forest)
    → Leads (Owed pid) (λ s. IsValid s.world) (last_of_open env sid pid url h tree)
unfolding last_of_open lift fresh_page new
last_of_open-Leads env sid pid url h tree s owed =
    let token = compute env.token_of tree url pid in
    let page = fresh_page (new pid url h s.world.instant) tree token in
    finished-Valid {A = OpenResponse} (record { page_id = pid; token = token; warnings = [] })
      (Lifecycle.insert_page sid pid page s.world) s (inserted-Valid sid pid s page refl owed)

-- The rest of `open` once the page has its row.
unfoldable pub rest_of_open : Env → Text → Text → Text → PageHandle → Body OpenResponse
rest_of_open env sid pid url h = do
  tree ← lift (engine_snapshot env h)
  let token = compute env.token_of tree url pid
  note_after token
  lift (save_token env pid token)
  last_of_open env sid pid url h tree

snapshot-Owed :
    (env : Env) (pid : Text) (h : PageHandle) → Keeps (Owed pid) (lift (engine_snapshot env h))
unfolding lift engine_snapshot on_engine
snapshot-Owed env pid h s owed = owed

note-Owed : (pid : Text) (g : AuditCtx → AuditCtx) → Keeps (Owed pid) (note g)
unfolding note
note-Owed pid g s owed = owed

pub rest_of_open-Leads :
    (env : Env) (sid pid url : Text) (h : PageHandle)
    → Leads (Owed pid) (λ s. IsValid s.world) (rest_of_open env sid pid url h)
unfolding rest_of_open
rest_of_open-Leads env sid pid url h =
    let R : Running → Type 0 = λ s. IsValid s.world in
    bind-Leads (Owed pid) R (lift (engine_snapshot env h))
      (λ tree.
        note_after (compute env.token_of tree url pid)
        >> (lift (save_token env pid (compute env.token_of tree url pid))
            >> last_of_open env sid pid url h tree))
      (snapshot-Owed env pid h) (λ s owed. owed.0)
      (λ tree.
        let token = compute env.token_of tree url pid in
        bind-Leads (Owed pid) R (note_after token)
          (λ done. lift (save_token env pid token) >> last_of_open env sid pid url h tree)
          (note-Owed pid (λ c. record c { after_token = some token })) (λ s owed. owed.0)
          (λ done.
            bind-Leads (Owed pid) R (lift (save_token env pid token))
              (λ saved. last_of_open env sid pid url h tree) (save_token-Owed env pid token)
              (λ s owed. owed.0) (λ saved. last_of_open-Leads env sid pid url h tree)))

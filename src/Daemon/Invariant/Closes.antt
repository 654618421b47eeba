-- ===== src/Daemon/Invariant/Closes.antt =====
-- `close`, `session_close`, the sweep and the reaper keep the invariant: an entry leaves the memory
-- before its row is closed.
use vibesurfer.Text.{Text, text_eq}
use vibesurfer.Table.{filterb-IsTable, All-get, All-filterb, get-remove, get, remove}
use vibesurfer.Prelude.{
  ℕ, true, not, ◌&&◌, List, [], ◌∷◌, Option, none, some, ◌≡◌, refl, all, map, if◌then◌else◌,
  Bool-cases, inl, inr,
}
use vibesurfer.Daemon.Fallible.Keeps.{Leads, Keeps, bind-Keeps, Then, bind-Leads, bind-after}
use vibesurfer.Daemon.Lifecycle.Sweep.{close_each, session_close_sweep, sweep_targets}
use vibesurfer.Daemon.Reaper.{
  ReapConfig, plan, session_view, plan_is_empty, put_to_sleep, reap_pages, reap_once, close_taken,
}
use vibesurfer.Daemon.Fallible.{pure, ignore, ◌>>=◌, ◌>>◌, Outcome-cases}
use vibesurfer.Daemon.Engine.{PageHandle}
use vibesurfer.Daemon.Store.{Session, Page, is_none, Store}
use vibesurfer.Daemon.Store.Sessions.{close_session}
use vibesurfer.Daemon.Store.Pages.{close_page, list_pages}
use vibesurfer.Daemon.World.{World, Env, D, Sessions, on_store, on_engine, find_session, find_page}
use vibesurfer.Daemon.Audit.{lift}
use vibesurfer.Daemon.Lifecycle.Pages.{close_page_body, close, close_handle}
use vibesurfer.Daemon.Lifecycle.{
  take_session, take_page, close_handles, close_rows, close_in_store, close_body, session_close,
  session_close_response, close_response,
}
use vibesurfer.Daemon.Invariant.{IsPage, IsSession, AreValid, IsValid}
use vibesurfer.Daemon.Invariant.Grow.{update_page-Growing, reads-Growing}
use vibesurfer.Daemon.Invariant.Pieces.{write-Valid, on_store-Keeps, lift-Keeps, audit_call-Keeps}
use vibesurfer.Daemon.Invariant.Pages.{find_page-Located, set_page-Valid}
use vibesurfer.Daemon.Invariant.Closing.{close_session-Valid}
use vibesurfer.Daemon.Lifecycle.Closed.{close_handles-calls}

remove-Valid :
    (rows : Store) (ss : Sessions) (sid : Text) → AreValid rows ss → AreValid rows (remove sid ss)
unfolding remove
remove-Valid rows ss sid (table, all) = (
  (filterb-IsTable (λ e. not (text_eq e.0 sid)) ss table.0, table.1),
  All-filterb (IsSession rows) (λ e. not (text_eq e.0 sid)) ss all,
)

-- The session is in no table any more.
abbrev Gone : Text → World → Type 0
Gone sid w = IsValid w × (get w.sessions sid ≡ none)

take_session-Keeps : (sid : Text) → Keeps IsValid (take_session sid)
unfolding take_session
take_session-Keeps sid w h = elim (Outcome-cases (find_session sid w.sessions)) [
  | inl (s, e) ↦ rw (take_session, e) (remove-Valid w.store w.sessions sid h)
  | inr (why, e) ↦ rw (take_session, e) h
]

take_session-Then :
    (sid : Text) (w : World) → Then (λ v. get v.sessions sid ≡ none) (take_session sid w)
unfolding take_session
take_session-Then sid w = elim (Outcome-cases (find_session sid w.sessions)) [
  | inl (s, e) ↦ rw (take_session, e) (get-remove w.sessions sid)
  | inr (why, e) ↦ rw (take_session, e) tt
]

close_handles-Gone :
    (env : Env) (sid : Text) (hs : List PageHandle) → Keeps (Gone sid) (close_handles env hs)
close_handles-Gone env sid hs w h = rw (close_handles-calls env hs w) h

close_row : Page → D (Unit {0})
close_row row =
    if is_none row.closed_at then ignore (λ w. on_store (close_page w.epoch row.id) w) else pure tt

shut-Keeps : (pid : Text) → Keeps IsValid (λ w. on_store (close_page w.epoch pid) w)
unfolding close_page
shut-Keeps pid w =
    on_store-Keeps (close_page w.epoch pid)
      (update_page-Growing (λ row. text_eq row.id pid && is_none row.closed_at)
        (λ row. record row { closed_at = some w.epoch }) pid (λ row. refl))
      w

close_rows-Keeps : (rows : List Page) → Keeps IsValid (close_rows rows)
unfolding close_rows
close_rows-Keeps [] w h = h
close_rows-Keeps (row ∷ rows) w h = elim (Bool-cases (is_none row.closed_at)) [
  | inl e ↦
      rw e
        (close_rows-Keeps rows (on_store (close_page w.epoch row.id) w).1 (shut-Keeps row.id w h))
  | inr e ↦ rw e (close_rows-Keeps rows w h)
]

list_rows : Text → D (List Page)
list_rows sid w = on_store (list_pages sid) w

list_rows-Keeps : (sid : Text) → Keeps IsValid (list_rows sid)
unfolding list_rows list_pages
list_rows-Keeps sid w = on_store-Keeps (list_pages sid) (reads-Growing _) w

shut_session : Text → D Session
shut_session sid w = on_store (close_session w.epoch sid) w

shut_session-Gone : (sid : Text) → Keeps (Gone sid) (shut_session sid)
unfolding shut_session on_store
shut_session-Gone sid w gone = (close_session-Valid sid w.epoch w gone.0 gone.1, gone.1)

close_in_store-Leads : (env : Env) (sid : Text) → Leads (Gone sid) IsValid (close_in_store env sid)
unfolding close_in_store list_rows shut_session
close_in_store-Leads env sid =
    bind-Leads (Gone sid) IsValid (shut_session sid)
      (λ row. list_rows sid >>= λ rows. close_rows rows >> pure session_close_response)
      (shut_session-Gone sid) (λ w gone. gone.0)
      (λ row w gone.
        bind-Keeps IsValid (list_rows sid) (λ rows. close_rows rows >> pure session_close_response)
          (list_rows-Keeps sid)
          (λ rows.
            bind-Keeps IsValid (close_rows rows) (λ done. pure session_close_response)
              (close_rows-Keeps rows) (λ done v valid. valid))
          w gone.0)

close_body-Keeps : (env : Env) (sid : Text) → Keeps IsValid (close_body env sid)
unfolding close_body
close_body-Keeps env sid =
    bind-after IsValid (λ w. get w.sessions sid ≡ none) (take_session sid)
      (λ handles. close_handles env handles >> close_in_store env sid) (take_session-Keeps sid)
      (λ w valid. take_session-Then sid w)
      (λ handles w valid gone.
        bind-Leads (Gone sid) IsValid (close_handles env handles) (λ done. close_in_store env sid)
          (close_handles-Gone env sid handles) (λ v h. h.0) (λ done. close_in_store-Leads env sid) w
          (valid, gone))

pub session_close-Keeps : (env : Env) (sid : Text) → Keeps IsValid (session_close env sid)
unfolding session_close
session_close-Keeps env sid =
    audit_call-Keeps _ (lift (close_body env sid))
      (lift-Keeps (close_body env sid) (close_body-Keeps env sid))

pub close_each-Valid :
    (env : Env) (sids : List Text) (w : World) → IsValid w → IsValid (close_each env sids w).1
unfolding close_each
close_each-Valid env [] w h = h
close_each-Valid env (sid ∷ sids) w h =
    close_each-Valid env sids (session_close env sid w).1 (session_close-Keeps env sid w h)

pub sweep-Keeps :
    (env : Env) (idle_for : Option ℕ) → Keeps IsValid (session_close_sweep env idle_for)
unfolding session_close_sweep
sweep-Keeps env idle_for w h =
    close_each-Valid env (sweep_targets idle_for w.instant w.sessions) w h

take_page-Keeps : (sid pid : Text) → Keeps IsValid (take_page sid pid)
unfolding take_page find_session remove
take_page-Keeps sid pid w h = elim (Outcome-cases (find_page sid pid w.sessions)) [
  | inl (p, e) ↦
      let (s, there, page) = find_page-Located w.sessions sid pid p e in
      let known = All-get (IsSession w.store) w.sessions sid h.1 there in
      rw (take_page, e, there)
        (write-Valid w.store w.sessions sid (record s { pages = remove pid s.pages }) h
          (
            known.0,
            filterb-IsTable (λ x. not (text_eq x.0 pid)) s.pages known.1,
            All-filterb (IsPage w.store) (λ x. not (text_eq x.0 pid)) s.pages known.2,
          ))
  | inr (why, e) ↦ rw (take_page, e) h
]

close_handle-Keeps :
    (env : Env) (handle : Option PageHandle) → Keeps IsValid (close_handle env handle)
unfolding on_engine
close_handle-Keeps env none = λ w h. h
close_handle-Keeps env (some handle) = λ w h. h

close_page_body-Keeps : (env : Env) (sid pid : Text) → Keeps IsValid (close_page_body env sid pid)
unfolding close_page_body
close_page_body-Keeps env sid pid =
    let shut : D (Unit {0}) = ignore (λ w. on_store (close_page w.epoch pid) w) in
    bind-Keeps IsValid (take_page sid pid)
      (λ handle. close_handle env handle >> (shut >> pure close_response)) (take_page-Keeps sid pid)
      (λ handle.
        bind-Keeps IsValid (close_handle env handle) (λ closed. shut >> pure close_response)
          (close_handle-Keeps env handle)
          (λ closed.
            bind-Keeps IsValid shut (λ done. pure close_response) (shut-Keeps pid) (λ done w h. h)))

pub close-Keeps : (env : Env) (sid pid : Text) → Keeps IsValid (close env sid pid)
unfolding close
close-Keeps env sid pid =
    audit_call-Keeps _ (lift (close_page_body env sid pid))
      (lift-Keeps (close_page_body env sid pid) (close_page_body-Keeps env sid pid))

put_to_sleep-Valid : (sid pid : Text) (w : World) → IsValid w → IsValid (put_to_sleep sid pid w).1
unfolding put_to_sleep
put_to_sleep-Valid sid pid w h = elim (Outcome-cases (find_page sid pid w.sessions)) [
  | inl (p, e) ↦
      rw (put_to_sleep, e)
        (set_page-Valid w.store w.sessions sid pid p
          (record p { force_full = true; engine_handle = none }) h
          (find_page-Located w.sessions sid pid p e) refl)
  | inr (why, e) ↦ rw (put_to_sleep, e) h
]

close_taken-Valid :
    (env : Env) (x : Option PageHandle × World) → IsValid x.1 → IsValid (close_taken env x)
unfolding on_engine
close_taken-Valid env (none, w) h = h
close_taken-Valid env (some handle, w) h = h

reap_pages-Valid :
    (env : Env) (pages : List (Text × Text)) (w : World)
    → IsValid w
    → IsValid (reap_pages env pages w)
unfolding reap_pages
reap_pages-Valid env [] w h = h
reap_pages-Valid env ((sid, pid) ∷ rest) w h =
    reap_pages-Valid env rest (close_taken env (put_to_sleep sid pid w))
      (close_taken-Valid env (put_to_sleep sid pid w) (put_to_sleep-Valid sid pid w h))

pub reap_once-Valid :
    (env : Env) (cfg : ReapConfig) (w : World) → IsValid w → IsValid (reap_once env cfg w)
unfolding reap_once
reap_once-Valid env cfg w h =
    let p = plan (map session_view w.sessions) w.instant cfg in
    elim (Bool-cases (plan_is_empty p)) [
      | inl e ↦ rw e h
      | inr e ↦ rw e (
          close_each-Valid env p.closed (reap_pages env p.dormant w)
            (reap_pages-Valid env p.dormant w h))
    ]

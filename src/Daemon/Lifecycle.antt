-- ===== src/Daemon/Lifecycle.antt =====
-- crates/vs-daemon/src/daemon/lifecycle.rs: opening and closing sessions and pages, and the sessions
-- that a new daemon takes over from the store.
pub mod Pages
pub mod Sweep
pub mod Closed
use vibesurfer.Daemon.Audit.{Body}
use vibesurfer.Prelude.{
  true, List, [], ◌∷◌, ◌++◌, Option, none, some, if◌then◌else◌, ℕ, zero, suc, ◌+◌, ◌-◌, ◌*◌, ◌/◌,
  ◌%◌, ◌^◌, ◌<◌, ◌≤◌, Bool, false, not, ◌&&◌, ◌||◌, ◌≡◌, refl, sym, ap, ◌∙◌, ◌≢◌, ◌↔◌, arith, ◌==◌,
  any, all, All, map, length, ltb, leb, filterb, Bool-cases, Option-cases, inl, inr, append_assoc,
  append-nil, drop, take, or_else, max, min, length-append, ◌⊎◌,
}
use vibesurfer.Text.{Text, codes, text_eq, text_lt, split_once}
use vibesurfer.Table.{put, remove, write, get}
use vibesurfer.Protocol.Tree.Nodes.{Forest, size}
use vibesurfer.Protocol.Tree.Iter.{collect}
use vibesurfer.Protocol.Envelope.Token.{StateToken}
use vibesurfer.Protocol.Envelope.{Warning}
use vibesurfer.Daemon.Fallible.{ok, err, pure, ignore, ◌>>=◌, ◌>>◌}
use vibesurfer.Daemon.Engine.{PageHandle}
use vibesurfer.Daemon.PageState.{PageState, see_all}
use vibesurfer.Daemon.Store.{Page, is_none}
use vibesurfer.Daemon.Store.Sessions.{create_session, close_session}
use vibesurfer.Daemon.Store.Pages.{close_page, list_pages}
use vibesurfer.Daemon.World.{
  Env, D, new_session, on_store, on_engine, on_store_now, find_session, find_page, set_sessions,
  engine_close, draw_id, zero_token,
}
use vibesurfer.Daemon.Redact.{args_hash, redact_args, Flag}
use vibesurfer.Daemon.Audit.{new_ctx, with_args, lift, note_after, audit_call}

pub record SessionOpenResponse : Type 0 where
  pub session_id : Text
  pub token : StateToken

pub data SessionCloseResponse : Type 0 where
  session_close_response : SessionCloseResponse

pub record OpenResponse : Type 0 where
  pub page_id : Text
  pub token : StateToken
  pub warnings : List Warning

pub data CloseResponse : Type 0 where
  close_response : CloseResponse

-- `filter_map` over the engine handles.
unfoldable pub handles_of : List (Text × PageState) → List PageHandle
handles_of [] = []
handles_of ((pid, p) ∷ ps) = elim p.engine_handle [
  | none ↦ handles_of ps
  | some h ↦ h ∷ handles_of ps
]

-- The session leaves the map; its handles are what is left to close.
unfoldable pub take_session : Text → D (List PageHandle)
take_session sid w = elim (find_session sid w.sessions) [
  | ok s ↦ (ok (handles_of s.pages), set_sessions (remove sid w.sessions) w)
  | err e ↦ (err e, w)
]

unfoldable pub close_rows : List Page → D (Unit {0})
close_rows [] = pure tt
close_rows (page ∷ pages) = do
  if is_none page.closed_at then ignore (λ w. on_store (close_page w.epoch page.id) w) else pure tt
  close_rows pages

unfoldable pub insert_session : Text → D (Unit {0})
insert_session id w = (ok tt, set_sessions (put id (new_session w.instant) w.sessions) w)

-- `get_mut(session_id)?.pages.insert`.
unfoldable pub insert_page : Text → Text → PageState → D (Unit {0})
insert_page sid pid p w = elim (find_session sid w.sessions) [
  | ok s ↦ (ok tt, set_sessions (write sid (record s { pages = put pid p s.pages }) w.sessions) w)
  | err e ↦ (err e, w)
]

-- The page leaves its session; its handle is what is left to close.
unfoldable pub take_page : Text → Text → D (Option PageHandle)
take_page sid pid w = elim (find_page sid pid w.sessions) [
  | ok p ↦ elim (find_session sid w.sessions) [
    | ok s ↦ (
      ok p.engine_handle,
      set_sessions (write sid (record s { pages = remove pid s.pages }) w.sessions) w,
    )
    | err e ↦ (err e, w)
  ]
  | err e ↦ (err e, w)
]

-- A page whose tree was read just now.
unfoldable pub fresh_page : PageState → Forest → StateToken → PageState
fresh_page p tree token = record p {
  last_tree = some tree;
  last_token = some token;
  force_full = true;
  seen_refs = see_all (collect (size tree) tree) p.seen_refs;
}

-- The page after `navigate`: nothing of the old document is known.
unfoldable pub rebase : Text → PageState → Forest → StateToken → PageState
rebase url p tree token = fresh_page (record p { url = url; seen_refs = [] }) tree token

module _ (env : Env) where
  abbrev pub hash_of : Text → List Text → Text
  hash_of primitive args = args_hash env.digest primitive args

  abbrev pub option_list : Option Text → List Text
  option_list none = []
  option_list (some t) = t ∷ []

  abbrev pub policy_flags : Option Text → List Flag
  policy_flags none = []
  policy_flags (some p) = (codes "policy", some p) ∷ []

  unfoldable pub session_open_body : Option Text → Text → Body SessionOpenResponse
  session_open_body policy id = do
    note_after zero_token
    session ← lift (on_store_now env (λ now. create_session now id policy))
    lift (insert_session id)
    pure (record { session_id = session.id; token = zero_token })

  -- `session_open` with the id that was drawn.
  unfoldable pub session_open_as : Option Text → Text → D SessionOpenResponse
  session_open_as policy id =
      audit_call
        (with_args (redact_args env.to_lowercase [] (policy_flags policy))
          (hash_of (codes "vs_session_open") (option_list policy))
          (new_ctx (codes "vs_session_open") id))
        (session_open_body policy id)

  unfoldable pub session_open : Option Text → D SessionOpenResponse
  session_open policy = do drawn ← draw_id env; session_open_as policy (codes "s_" ++ drawn)

  unfoldable pub close_handles : List PageHandle → D (Unit {0})
  close_handles [] = pure tt
  close_handles (h ∷ hs) = do ignore (engine_close env h); close_handles hs

  -- The part of `session_close` that is on the store.
  unfoldable pub close_in_store : Text → D SessionCloseResponse
  close_in_store sid = do
    row ← on_store_now env (λ now. close_session now sid)
    pages ← on_store_now env (λ now. list_pages sid)
    close_rows pages
    pure session_close_response

  unfoldable pub close_body : Text → D SessionCloseResponse
  close_body sid = do handles ← take_session sid; close_handles handles; close_in_store sid

  unfoldable pub session_close : Text → D SessionCloseResponse
  session_close sid =
      audit_call
        (with_args [] (hash_of (codes "vs_session_close") [])
          (new_ctx (codes "vs_session_close") sid))
        (lift (close_body sid))

-- ===== src/Daemon/Store/Sessions.antt =====
-- crates/vs-store/src/store/sessions.rs.
use vibesurfer.Prelude.{
  ℕ, Bool, ◌&&◌, List, [], ◌∷◌, ◌++◌, Option, none, some, any, if◌then◌else◌, ltb, filterb,
}
use vibesurfer.Text.{Text, codes, text_eq}
use vibesurfer.Daemon.Fallible.{ok, err, give, ◌>>=◌, ◌>>◌, ok_or}
use vibesurfer.Daemon.Store.{
  opened, closed, Session, S, statement, update_rows, is_opened, first, check, has_session,
}
use vibesurfer.Daemon.Error.{sqlite, absent}
use vibesurfer.Daemon.Pending.{sort}

unfoldable pub session_row : Text → Option Text → ℕ → Session
session_row id policy now = record {
  id = id;
  created_at = now;
  policy_id = policy;
  status = opened;
  closed_at = none;
}

abbrev pub insert_session : Session → S Session
insert_session row s =
    if has_session row.id s.sessions
    then (err (sqlite (codes "UNIQUE constraint failed: sessions.id")), s)
    else (ok row, record s { sessions = s.sessions ++ row ∷ [] })

unfoldable pub create_session : ℕ → Text → Option Text → S Session
create_session now id policy = do statement; insert_session (session_row id policy now)

-- The rows that `close_session` changes.
unfoldable pub closes_session : Text → Session → Bool
closes_session id row = text_eq row.id id && is_opened row.status

abbrev pub mark_closed : ℕ → Session → Session
mark_closed now row = record row { status = closed; closed_at = some now }

unfoldable pub get_session : Text → S (Option Session)
get_session id = do statement; λ s. (ok (first (filterb (λ row. text_eq row.id id) s.sessions)), s)

abbrev pub set_closed : Text → ℕ → S Bool
set_closed id now s = (
  ok (any (closes_session id) s.sessions),
  record s { sessions = update_rows (closes_session id) (mark_closed now) s.sessions },
)

unfoldable pub close_session : ℕ → Text → S Session
close_session now id = do
  statement
  found ← set_closed id now
  check found (absent (codes "session") id)
  row ← get_session id
  give (ok_or row (absent (codes "session") id))

unfoldable pub list_sessions : S (List Session)
list_sessions = do statement; λ s. (ok (sort (λ a b. ltb b.created_at a.created_at) s.sessions), s)

-- ===== src/Daemon/Lifecycle/Sweep.antt =====
-- `session_close_sweep` and `resurrect_sessions` of crates/vs-daemon/src/daemon/lifecycle.rs.
use vibesurfer.Prelude.{
  ℕ, ◌+◌, ◌-◌, Bool, true, ◌&&◌, List, [], ◌∷◌, Option, none, some, map, length, if◌then◌else◌, leb,
  filterb, max, min,
}
use vibesurfer.Text.{Text}
use vibesurfer.Table.{put}
use vibesurfer.Daemon.Error.{DaemonError}
use vibesurfer.Daemon.Fallible.{Outcome, ok, err}
use vibesurfer.Daemon.PageState.{PageState, dormant}
use vibesurfer.Daemon.Store.{Session, Page, is_none, is_opened}
use vibesurfer.Daemon.Store.Sessions.{close_session, list_sessions}
use vibesurfer.Daemon.Store.Pages.{list_pages}
use vibesurfer.Daemon.World.{World, Env, D, SessionState, Sessions, on_store, set_sessions}
use vibesurfer.Daemon.Audit.{i64_max}
use vibesurfer.Daemon.Lifecycle.{SessionCloseResponse, session_close}

-- `fold(s.last_touched, Instant::max)` over the pages.
unfoldable pub newest_touch : ℕ → List (Text × PageState) → ℕ
newest_touch at [] = at
newest_touch at ((pid, p) ∷ ps) = newest_touch (max at p.last_touched) ps

unfoldable pub is_idle : ℕ → ℕ → SessionState → Bool
is_idle idle_for now s = leb idle_for (now - newest_touch s.last_touched s.pages)

-- `is_none_or`: without a duration every session is a target.
unfoldable pub is_target : Option ℕ → ℕ → SessionState → Bool
is_target none now s = true
is_target (some idle_for) now s = is_idle idle_for now s

unfoldable pub sweep_targets : Option ℕ → ℕ → Sessions → List Text
sweep_targets idle_for now ss = map (λ e. e.0) (filterb (λ e. is_target idle_for now e.1) ss)

module _ (env : Env) where
  abbrev pub keep_closed : Text → Outcome DaemonError SessionCloseResponse → List Text → List Text
  keep_closed sid (ok _) rest = sid ∷ rest
  keep_closed sid (err _) rest = rest

  -- A session that cannot be closed is passed over.
  unfoldable pub close_each : List Text → World → List Text × World
  close_each [] w = ([], w)
  close_each (sid ∷ sids) w =
      let (r, u) = session_close env sid w in
      let (rest, v) = close_each sids u in (keep_closed sid r rest, v)

  unfoldable pub session_close_sweep : Option ℕ → D (List Text)
  session_close_sweep idle_for w =
      let (ids, after) = close_each (sweep_targets idle_for w.instant w.sessions) w in
      (ok ids, after)

-- A row that a new daemon takes over.
unfoldable pub is_recent : ℕ → Page → Bool
is_recent cutoff row = is_none row.closed_at && leb cutoff row.last_seen_at

unfoldable pub dormant_pages : ℕ → List Page → List (Text × PageState) → List (Text × PageState)
dormant_pages now [] pages = pages
dormant_pages now (row ∷ rows) pages =
    dormant_pages now rows (put row.id (dormant row.id row.url now) pages)

abbrev pub or_default : {A : Type 0} → Outcome DaemonError (List A) → List A
or_default (ok rows) = rows
or_default (err e) = []

-- Without a live page the session is closed in the store; otherwise it is taken over.
unfoldable pub take_over : Text → List Page → World → (ℕ × ℕ) × World
take_over sid [] w = ((0, 0), (on_store (close_session w.epoch sid) w).1)
take_over sid (row ∷ rows) w =
    let state : SessionState = record {
      pages = dormant_pages w.instant (row ∷ rows) [];
      last_touched = w.instant;
    } in
    ((1, length (row ∷ rows)), set_sessions (put sid state w.sessions) w)

abbrev pub add_counts : ℕ × ℕ → ℕ × ℕ → ℕ × ℕ
add_counts (a, b) (c, d) = (a + c, b + d)

-- What becomes of an open session.
unfoldable pub resurrect_row : ℕ → Session → World → (ℕ × ℕ) × World
resurrect_row cutoff s w =
    let (pages, u) = on_store (list_pages s.id) w in
    if is_opened s.status
    then take_over s.id (filterb (is_recent cutoff) (or_default pages)) u
    else ((0, 0), w)

unfoldable pub resurrect_rows : ℕ → List Session → World → (ℕ × ℕ) × World
resurrect_rows cutoff [] w = ((0, 0), w)
resurrect_rows cutoff (s ∷ rows) w =
    let (n, u) = resurrect_row cutoff s w in
    let (m, v) = resurrect_rows cutoff rows u in (add_counts n m, v)

-- `max_age` in seconds; every `last_seen_at` is at least zero, and so may the cutoff be.
unfoldable pub resurrect_sessions : ℕ → World → (ℕ × ℕ) × World
resurrect_sessions max_age w =
    let (rows, u) = on_store list_sessions w in
    resurrect_rows (w.epoch - min max_age i64_max) (or_default rows) u

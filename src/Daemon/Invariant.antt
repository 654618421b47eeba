-- ===== src/Daemon/Invariant.antt =====
-- The invariant of the daemon's state, on which the contract rests that what is in memory can be
-- rebuilt from the store (docs/ARCHITECTURE.md).
pub mod Grow
pub mod Pieces
pub mod Pages
pub mod Views
pub mod Waits
pub mod Rows
pub mod Entries
pub mod Opens
pub mod Closing
pub mod Closes
pub mod Listed
pub mod Restarts
pub mod Steps
use vibesurfer.Daemon.Store.{Session}
use vibesurfer.Prelude.{
  ℕ, zero, suc, ◌+◌, ◌-◌, ◌*◌, ◌/◌, ◌%◌, ◌^◌, ◌<◌, ◌≤◌, Bool, true, false, not, ◌&&◌, ◌||◌, List,
  [], ◌∷◌, ◌++◌, Option, none, some, ◌≡◌, refl, sym, ap, ◌∙◌, ◌≢◌, ◌↔◌, arith, ◌==◌, any, all, All,
  map, length, if◌then◌else◌, ltb, leb, filterb, Bool-cases, Option-cases, inl, inr, append_assoc,
  append-nil, drop, take, or_else, max, min, length-append, ◌⊎◌,
}
use vibesurfer.Text.{Text, codes, text_eq, text_lt, split_once}
use vibesurfer.Table.{get, put, remove, write, IsTable}
use vibesurfer.Daemon.PageState.{PageState}
use vibesurfer.Daemon.Store.{Store, has_session}
use vibesurfer.Daemon.Store.Sessions.{closes_session}
use vibesurfer.Daemon.Store.Pages.{has_page}
use vibesurfer.Daemon.World.{World, SessionState, Sessions}

-- The page has the id that it is filed under, and a row in the store.
abbrev pub IsPage : Store → Text × PageState → Type 0
IsPage store (pid, p) = (p.id ≡ pid) × (has_page pid store.pages ≡ true)

-- The session has a row that is open, and its pages are in order.
abbrev pub IsSession : Store → Text × SessionState → Type 0
IsSession store (sid, s) =
    (any (closes_session sid) store.sessions ≡ true) × IsTable s.pages × All (IsPage store) s.pages

-- The primary key of the table of sessions.
abbrev pub IsKeyed : List Session → Type 0
IsKeyed [] = Unit
IsKeyed (row ∷ rows) = (has_session row.id rows ≡ false) × IsKeyed rows

abbrev pub AreValid : Store → Sessions → Type 0
AreValid store ss = (IsTable ss × IsKeyed store.sessions) × All (IsSession store) ss

abbrev pub IsValid : World → Type 0
IsValid w = AreValid w.store w.sessions

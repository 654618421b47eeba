-- ===== src/Daemon/Invariant/Restarts.antt =====
-- A new daemon takes the open sessions over from the store.
use vibesurfer.Prelude.{
  ℕ, ◌-◌, Bool, true, false, List, [], ◌∷◌, none, ◌≡◌, refl, ◌∙◌, arith, any, all, All, filterb,
  Bool-cases, inl, inr, min,
}
use vibesurfer.Text.{Text, text_eq}
use vibesurfer.Table.{text_eq-swap, get, put, put-IsTable, All-put, get-put_other, IsTable}
use vibesurfer.Daemon.Fallible.{Outcome, ok, err, go_on}
use vibesurfer.Daemon.Fallible.Keeps.{Keeps}
use vibesurfer.Daemon.Audit.{i64_max}
use vibesurfer.Daemon.World.{World, SessionState, store_result, on_store, D}
use vibesurfer.Daemon.PageState.{PageState, dormant}
use vibesurfer.Daemon.Pending.{sort}
use vibesurfer.Daemon.Error.{StoreError}
use vibesurfer.Daemon.Store.{Store, Session, Page, statement, is_opened, has_session}
use vibesurfer.Daemon.Store.Laws.{statement-rows}
use vibesurfer.Daemon.Store.Sessions.{closes_session, list_sessions}
use vibesurfer.Daemon.Store.Pages.{list_pages}
use vibesurfer.Daemon.Lifecycle.Sweep.{
  is_recent, dormant_pages, or_default, take_over, resurrect_row, resurrect_rows,
  resurrect_sessions,
}
use vibesurfer.Daemon.Invariant.{IsPage, IsSession, IsKeyed, IsValid}
use vibesurfer.Daemon.Invariant.Grow.{Grows-refl, reads-Growing}
use vibesurfer.Daemon.Invariant.Pieces.{on_store-Keeps}
use vibesurfer.Daemon.Invariant.Closing.{GrowsBut, close_session-But, close_session-Valid}
use vibesurfer.Daemon.Invariant.Listed.{
  Here, Closes, All-Here, All-Closes, sorted-IsKeyed, All-weaken, All-kept, All-sorted,
}

-- The pages of a session that is taken over.
dormant_pages-Are :
    (rows : Store) (now : ℕ) (live : List Page) (pages : List (Text × PageState))
    → All (Here rows.pages) live
    → IsTable pages
    → All (IsPage rows) pages
    → IsTable (dormant_pages now live pages) × All (IsPage rows) (dormant_pages now live pages)
unfolding dormant_pages dormant Here
dormant_pages-Are rows now [] pages here table all = (table, all)
dormant_pages-Are rows now (row ∷ live) pages here table all =
    dormant_pages-Are rows now live (put row.id (dormant row.id row.url now) pages) here.1
      (put-IsTable pages row.id (dormant row.id row.url now) table)
      (All-put (IsPage rows) pages row.id (dormant row.id row.url now) all (refl, here.0))

take_over-Valid :
    (sid : Text) (live : List Page) (w : World)
    → IsValid w
    → any (closes_session sid) w.store.sessions ≡ true
    → get w.sessions sid ≡ none
    → All (Here w.store.pages) live
    → IsValid (take_over sid live w).1
unfolding take_over
take_over-Valid sid [] w h row gone here = close_session-Valid sid w.epoch w h gone
take_over-Valid sid (page ∷ live) w h row gone here =
    let pages = dormant_pages-Are w.store w.instant (page ∷ live) [] here tt tt in
    let state : SessionState = record {
      pages = dormant_pages w.instant (page ∷ live) [];
      last_touched = w.instant;
    } in
    (
      (put-IsTable w.sessions sid state h.0.0, h.0.1),
      All-put (IsSession w.store) w.sessions sid state h.1 (row, pages.0, pages.1),
    )

-- What is still to be taken over: the row is as it was listed, and memory does not have it yet.
Due : World → Session → Type 0
Due w row = Closes w.store.sessions row × (get w.sessions row.id ≡ none)

take_over-Due :
    (sid : Text) (live : List Page) (w : World) (row : Session)
    → text_eq sid row.id ≡ false
    → Due w row
    → Due (take_over sid live w).1 row
unfolding take_over Due Closes on_store
take_over-Due sid [] w row differs due =
    let base : GrowsBut sid w.store w.store = record {
      keeps_others = λ k d h. h;
      keeps_keys = λ h. h;
      keeps_pages = λ pid h. h;
    } in
    let closed = close_session-But sid w.epoch w.store w.store base in
    (λ live. closed.keeps_others row.id differs (due.0 live), due.1)
take_over-Due sid (page ∷ live) w row differs due =
    (due.0, get-put_other w.sessions sid row.id _ differs ∙ due.1)

list_pages-Here :
    (p : Page → Bool) (lt : Page → Page → Bool) (x : Outcome StoreError (Unit {0}) × Store)
    → let y = go_on x (λ done s. (ok (sort lt (filterb p s.pages)), s)) in
      All (Here y.1.pages) (or_default (store_result y.0))
list_pages-Here p lt (ok done, s) =
    All-sorted (Here s.pages) lt (filterb p s.pages)
      (All-kept (Here s.pages) p s.pages (All-Here s.pages))
list_pages-Here p lt (err e, s) = tt

pages_of : Text → D (List Page)
pages_of sid w = on_store (list_pages sid) w

pages_of-Here :
    (sid : Text) (w : World)
    → All (Here (pages_of sid w).1.store.pages) (or_default (pages_of sid w).0)
unfolding pages_of on_store list_pages
pages_of-Here sid w = list_pages-Here _ _ (statement w.store)

pages_of-Due : (sid : Text) (w : World) (row : Session) → Due w row → Due (pages_of sid w).1 row
unfolding pages_of on_store list_pages Due Closes
pages_of-Due sid w row due = (
  λ live. (reads-Growing _ w.store w.store (Grows-refl w.store)).keeps_sessions row.id (due.0 live),
  due.1,
)

pages_of-Valid : (sid : Text) → Keeps IsValid (pages_of sid)
unfolding pages_of list_pages
pages_of-Valid sid w = on_store-Keeps (list_pages sid) (reads-Growing _) w

resurrect_row-Valid :
    (cutoff : ℕ) (row : Session) (w : World)
    → IsValid w
    → Due w row
    → IsValid (resurrect_row cutoff row w).1
unfolding resurrect_row pages_of Due Closes
resurrect_row-Valid cutoff row w h due = elim (Bool-cases (is_opened row.status)) [
  | inr e ↦ rw e h
  | inl e ↦
      let listed = pages_of row.id w in
      let still = pages_of-Due row.id w row due in
      rw e (
        take_over-Valid row.id (filterb (is_recent cutoff) (or_default listed.0)) listed.1
          (pages_of-Valid row.id w h) (still.0 e) still.1
          (All-kept (Here listed.1.store.pages) (is_recent cutoff) (or_default listed.0)
            (pages_of-Here row.id w)))
]

resurrect_row-Due :
    (cutoff : ℕ) (row other : Session) (w : World)
    → text_eq row.id other.id ≡ false
    → Due w other
    → Due (resurrect_row cutoff row w).1 other
unfolding resurrect_row pages_of
resurrect_row-Due cutoff row other w differs due = elim (Bool-cases (is_opened row.status)) [
  | inr e ↦ rw e due
  | inl e ↦
      let listed = pages_of row.id w in
      rw e (
        take_over-Due row.id (filterb (is_recent cutoff) (or_default listed.0)) listed.1 other
          differs (pages_of-Due row.id w other due))
]

later-Due :
    (cutoff : ℕ) (row : Session) (rows : List Session) (w : World)
    → has_session row.id rows ≡ false
    → All (Due w) rows
    → All (Due (resurrect_row cutoff row w).1) rows
later-Due cutoff row [] w new due = tt
later-Due cutoff row (other ∷ rows) w new due =
    let apart : text_eq other.id row.id ≡ false = ground (arith, new) in
    let later : has_session row.id rows ≡ false = ground (arith, new) in
    (
      resurrect_row-Due cutoff row other w (text_eq-swap other.id row.id apart) due.0,
      later-Due cutoff row rows w later due.1,
    )

resurrect_rows-Valid :
    (cutoff : ℕ) (rows : List Session) (w : World)
    → IsValid w
    → IsKeyed rows
    → All (Due w) rows
    → IsValid (resurrect_rows cutoff rows w).1
unfolding resurrect_rows
resurrect_rows-Valid cutoff [] w h keyed due = h
resurrect_rows-Valid cutoff (row ∷ rows) w h keyed due =
    resurrect_rows-Valid cutoff rows (resurrect_row cutoff row w).1
      (resurrect_row-Valid cutoff row w h due.0) keyed.1 (later-Due cutoff row rows w keyed.0 due.1)

-- What `list_sessions` lists: the rows of the table, each once.
Lists : Outcome StoreError (List Session) × Store → Type 0
Lists (r, s) =
    IsKeyed (or_default (store_result r)) × All (Closes s.sessions) (or_default (store_result r))

list_sessions-Lists :
    (lt : Session → Session → Bool) (x : Outcome StoreError (Unit {0}) × Store)
    → IsKeyed x.1.sessions
    → Lists (go_on x (λ done s. (ok (sort lt s.sessions), s)))
unfolding Lists
list_sessions-Lists lt (ok done, s) keyed = (
  sorted-IsKeyed lt s.sessions keyed,
  All-sorted (Closes s.sessions) lt s.sessions (All-Closes s.sessions),
)
list_sessions-Lists lt (err e, s) keyed = (tt, tt)

listed : D (List Session)
listed w = on_store list_sessions w

listed-Keeps : Keeps IsValid listed
unfolding listed list_sessions
listed-Keeps w = on_store-Keeps list_sessions (reads-Growing _) w

listed-Due :
    (w : World)
    → IsKeyed w.store.sessions
    → w.sessions ≡ []
    → IsKeyed (or_default (listed w).0) × All (Due (listed w).1) (or_default (listed w).0)
unfolding listed on_store list_sessions Lists Due get
listed-Due w keyed empty =
    let kept : IsKeyed (statement w.store).1.sessions = rw (statement-rows w.store).0 keyed in
    let known = list_sessions-Lists _ (statement w.store) kept in
    (known.0, All-weaken _ _ _ (λ row closes. (closes, rw empty refl)) known.1)

-- A new daemon, with nothing in memory, takes the sessions over from the store.
pub resurrect_sessions-Valid :
    (max_age : ℕ) (w : World)
    → IsValid w
    → IsValid (resurrect_sessions max_age (record w { sessions = [] })).1
unfolding resurrect_sessions listed
resurrect_sessions-Valid max_age w h =
    let fresh = record w { sessions = [] } in
    let due = listed-Due fresh h.0.1 refl in
    resurrect_rows-Valid (w.epoch - min max_age i64_max) (or_default (listed fresh).0)
      (listed fresh).1 (listed-Keeps fresh ((tt, h.0.1), tt)) due.0 due.1

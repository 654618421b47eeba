-- ===== src/Daemon/World.antt =====
-- The state of the daemon, `Inner` of crates/vs-daemon/src/daemon/mod.rs, with the clocks and the
-- engine's calls, and what reads and writes it. An operation runs from its call to its return with
-- no other between; the clocks stand still while it does, except where it sleeps and in the polling of
-- `wait`, whose snapshots take the time that the engine says.
pub mod Laws
use vibesurfer.Prelude.{
  ◌+◌, ℕ, List, [], ◌∷◌, Option, none, some, zero, suc, ◌-◌, ◌*◌, ◌/◌, ◌%◌, ◌^◌, ◌<◌, ◌≤◌, Bool,
  true, false, not, ◌&&◌, ◌||◌, ◌++◌, ◌≡◌, refl, sym, ap, ◌∙◌, ◌≢◌, ◌↔◌, arith, ◌==◌, any, all, All,
  map, length, if◌then◌else◌, ltb, leb, filterb, Bool-cases, Option-cases, inl, inr, append_assoc,
  append-nil, drop, take, or_else, max, min, length-append,
}
use vibesurfer.Text.{Text, codes, text_eq, text_lt, split_once}
use vibesurfer.Table.{get, write, put, remove}
use vibesurfer.Protocol.Envelope.Token.{StateToken}
use vibesurfer.Daemon.Error.{
  EngineError, StoreError, DaemonError, engine, store, unknown_session, unknown_page,
  wrong_session_of,
}
use vibesurfer.Daemon.Fallible.{Outcome, ok, err, M, pure, ignore, ◌>>=◌, ◌>>◌, ok_or, then_try}
use vibesurfer.Daemon.Engine.{PageHandle, EngineCall, Engine, opens, closes}
use vibesurfer.Daemon.PageState.{PageState}
use vibesurfer.Daemon.Store.{Store, S}

pub record SessionState : Type 0 where
  pub pages : List (Text × PageState)
  pub last_touched : ℕ

-- `SessionState::new`.
unfoldable pub new_session : ℕ → SessionState
new_session now = record { pages = []; last_touched = now }

abbrev pub Sessions : Type 0
Sessions = List (Text × SessionState)

pub record World : Type 0 where
  pub sessions : Sessions
  pub store : Store
  pub calls : List EngineCall
  -- `Instant::now` in nanoseconds and `epoch_secs`.
  pub instant : ℕ
  pub epoch : ℕ
  -- How many identifiers were drawn.
  pub drawn : ℕ

-- What is not in the sources: the engine, the two uses of the hash, the identifiers, and
-- `str::to_lowercase`.
pub record Env : Type 0 where
  pub engine : Engine
  pub token_of : Text → StateToken
  pub digest : Text → Text
  pub short_id : ℕ → Text
  pub to_lowercase : Text → Text

abbrev pub D : Type 0 → Type 0
D A = M World DaemonError A

abbrev pub store_result : {A : Type 0} → Outcome StoreError A → Outcome DaemonError A
store_result (ok a) = ok a
store_result (err e) = err (store e)

abbrev pub engine_result : {A : Type 0} → Outcome EngineError A → Outcome DaemonError A
engine_result (ok a) = ok a
engine_result (err e) = err (engine e)

-- A call of the store with `?`.
unfoldable pub on_store : {A : Type 0} → S A → D A
on_store m w = let (r, s) = m w.store in (store_result r, record w { store = s })

-- A call of the engine with `?`.
unfoldable pub on_engine : {A : Type 0} → EngineCall → Outcome EngineError A → D A
on_engine call answer w = (engine_result answer, record w { calls = call ∷ w.calls })

unfoldable pub find_session : Text → Sessions → Outcome DaemonError SessionState
find_session sid ss = ok_or (get ss sid) (unknown_session sid)

-- `get(session_id)…get(page_id)…` with the two errors.
unfoldable pub find_page : Text → Text → Sessions → Outcome DaemonError PageState
find_page sid pid ss =
    then_try (find_session sid ss) (λ s. ok_or (get s.pages pid) (unknown_page pid))

-- A write to a page through `get_mut`.
unfoldable pub set_page : Text → Text → PageState → Sessions → Sessions
set_page sid pid p ss = elim (get ss sid) [
  | none ↦ ss
  | some s ↦ write sid (record s { pages = write pid p s.pages }) ss
]

abbrev pub set_sessions : Sessions → World → World
set_sessions ss w = record w { sessions = ss }

-- Changes a page and reads a value off it; the two errors are those of `find_page`.
unfoldable pub with_page : {A : Type 0} → Text → Text → (PageState → A × PageState) → D A
with_page sid pid f w = elim (find_page sid pid w.sessions) [
  | ok p ↦ let (a, q) = f p in (ok a, set_sessions (set_page sid pid q w.sessions) w)
  | err e ↦ (err e, w)
]

unfoldable pub touch_page : ℕ → Text → SessionState → SessionState
touch_page now pid s = elim (get s.pages pid) [
  | none ↦ record s { last_touched = now }
  | some p ↦ record s {
    last_touched = now;
    pages = write pid (record p { last_touched = now }) s.pages;
  }
]

unfoldable pub touch_sessions : ℕ → Text → Text → Sessions → Sessions
touch_sessions now sid pid ss = elim (get ss sid) [
  | none ↦ ss
  | some s ↦ write sid (touch_page now pid s) ss
]

-- `touch` of reaper.rs, with a page.
unfoldable pub touch : Text → Text → D (Unit {0})
touch sid pid w = (ok tt, set_sessions (touch_sessions w.instant sid pid w.sessions) w)

unfoldable pub require_session : Text → D (Unit {0})
require_session sid w = elim (get w.sessions sid) [
  | none ↦ (err (unknown_session sid), w)
  | some s ↦ (ok tt, w)
]

unfoldable pub missing_page : Sessions → Text → Text → DaemonError
missing_page [] addressed pid = unknown_page pid
missing_page ((sid, s) ∷ ss) addressed pid =
    let later = missing_page ss addressed pid in
    elim (get s.pages pid) [ none ↦ later | some p ↦ wrong_session_of pid addressed sid ]

-- `get(session_id)…get(page_id)…` where a page of another session has its own error.
unfoldable pub own_page : Text → Text → Sessions → Outcome DaemonError PageState
own_page sid pid ss =
    then_try (find_session sid ss) (λ s. ok_or (get s.pages pid) (missing_page ss sid pid))

-- `StateToken::ZERO`.
abbrev pub zero_token : StateToken
zero_token = 0 ∷ 0 ∷ 0 ∷ 0 ∷ 0 ∷ 0 ∷ 0 ∷ 0 ∷ []

abbrev pub token_or_zero : Option StateToken → StateToken
token_or_zero none = zero_token
token_or_zero (some t) = t

-- The lock itself holds no data.
unfoldable pub mutate_lock_for : Text → Text → D (Unit {0})
mutate_lock_for sid pid w = (then_try (own_page sid pid w.sessions) (λ p. ok tt), w)

unfoldable pub current_token : Text → Text → D StateToken
current_token sid pid = do
  touch sid pid
  λ w. (then_try (own_page sid pid w.sessions) (λ p. ok (token_or_zero p.last_token)), w)

module _ (env : Env) where
  -- `short_id`.
  unfoldable pub draw_id : D Text
  draw_id w = (ok (env.short_id w.drawn), record w { drawn = w.drawn + 1 })

  -- `epoch_secs` is read by the statement itself.
  abbrev pub on_store_now : {A : Type 0} → (ℕ → S A) → D A
  on_store_now m w = on_store (m w.epoch) w

  abbrev pub engine_open : Text → D PageHandle
  engine_open url w = on_engine (opens url) (env.engine.on_open w.calls url) w

  abbrev pub engine_close : PageHandle → D (Unit {0})
  engine_close h w = on_engine (closes h) (env.engine.on_close w.calls h) w

  -- The second look at the page, after the engine opened one for it.
  abbrev pub keep_first : Text → Text → PageHandle → Option PageHandle → D PageHandle
  keep_first sid pid mine (some existing) = do ignore (engine_close mine); pure existing
  keep_first sid pid mine none =
      with_page sid pid (λ p. (mine, record p { engine_handle = some mine }))

  abbrev pub handle_or_open : Text → Text → PageState → Option PageHandle → D PageHandle
  handle_or_open sid pid p (some h) = pure h
  handle_or_open sid pid p none = do
    mine ← engine_open p.url
    taken ← λ w. (then_try (find_page sid pid w.sessions) (λ q. ok q.engine_handle), w)
    keep_first sid pid mine taken

  unfoldable pub engine_handle_for : Text → Text → D PageHandle
  engine_handle_for sid pid = do
    touch sid pid
    p ← λ w. (own_page sid pid w.sessions, w)
    handle_or_open sid pid p p.engine_handle

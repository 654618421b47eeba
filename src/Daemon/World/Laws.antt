-- ===== src/Daemon/World/Laws.antt =====
-- The page that an operation addresses, after the steps that every operation begins with.
use vibesurfer.Prelude.{ℕ, some, ◌≡◌}
use vibesurfer.Text.{Text}
use vibesurfer.Table.{get, write, get-write}
use vibesurfer.Daemon.Fallible.{ok}
use vibesurfer.Daemon.Engine.{PageHandle}
use vibesurfer.Daemon.PageState.{PageState}
use vibesurfer.Daemon.World.{
  World, Env, SessionState, Sessions, find_session, find_page, own_page, set_page, set_sessions,
  touch, touch_sessions, touch_page, with_page, mutate_lock_for, current_token, token_or_zero,
  engine_handle_for,
}

-- The page is in the session.
abbrev pub Located : Sessions → Text → Text → PageState → Type 0
Located ss sid pid p = (s : SessionState) × (get ss sid ≡ some s) × (get s.pages pid ≡ some p)

pub find_page-ok :
    (ss : Sessions) (sid pid : Text) (p : PageState)
    → Located ss sid pid p
    → find_page sid pid ss ≡ ok p
unfolding find_page find_session
find_page-ok ss sid pid p (s, there, page) = rw (there, page)

pub own_page-ok :
    (ss : Sessions) (sid pid : Text) (p : PageState)
    → Located ss sid pid p
    → own_page sid pid ss ≡ ok p
unfolding own_page find_session
own_page-ok ss sid pid p (s, there, page) = rw (there, page)

abbrev pub touched : ℕ → PageState → PageState
touched now p = record p { last_touched = now }

abbrev pub after_touch : Text → Text → World → World
after_touch sid pid w = set_sessions (touch_sessions w.instant sid pid w.sessions) w

touch-known :
    (now : ℕ) (sid pid : Text) (ss : Sessions) {s : SessionState}
    → get ss sid ≡ some s
    → touch_sessions now sid pid ss ≡ write sid (touch_page now pid s) ss
unfolding touch_sessions
touch-known now sid pid ss there = rw (touch_sessions, there)

touch_page-known :
    (now : ℕ) (pid : Text) (s : SessionState) {p : PageState}
    → get s.pages pid ≡ some p
    → touch_page now pid s
      ≡ record s { last_touched = now; pages = write pid (touched now p) s.pages }
unfolding touch_page
touch_page-known now pid s page = rw (touch_page, page)

pub touch-Located :
    (w : World) (sid pid : Text) (p : PageState)
    → Located w.sessions sid pid p
    → Located (after_touch sid pid w).sessions sid pid (touched w.instant p)
touch-Located w sid pid p (s, there, page) = rw (touch-known w.instant sid pid w.sessions there) (
  touch_page w.instant pid s,
  get-write w.sessions sid (touch_page w.instant pid s) there,
  rw (touch_page-known w.instant pid s page) (get-write s.pages pid (touched w.instant p) page),
)

set_page-known :
    (ss : Sessions) (sid pid : Text) (q : PageState) {s : SessionState}
    → get ss sid ≡ some s
    → set_page sid pid q ss ≡ write sid (record s { pages = write pid q s.pages }) ss
unfolding set_page
set_page-known ss sid pid q there = rw (set_page, there)

pub set_page-Located :
    (ss : Sessions) (sid pid : Text) (p q : PageState)
    → Located ss sid pid p
    → Located (set_page sid pid q ss) sid pid q
set_page-Located ss sid pid p q (s, there, page) = rw (set_page-known ss sid pid q there) (
  record s { pages = write pid q s.pages },
  get-write ss sid (record s { pages = write pid q s.pages }) there,
  get-write s.pages pid q page,
)

pub mutate_lock_for-eq :
    (w : World) (sid pid : Text) (p : PageState)
    → Located w.sessions sid pid p
    → mutate_lock_for sid pid w ≡ (ok tt, w)
unfolding mutate_lock_for
mutate_lock_for-eq w sid pid p here = rw (own_page-ok w.sessions sid pid p here)

pub current_token-eq :
    (w : World) (sid pid : Text) (p : PageState)
    → Located w.sessions sid pid p
    → current_token sid pid w ≡ (ok (token_or_zero p.last_token), after_touch sid pid w)
unfolding current_token touch
current_token-eq w sid pid p here = rw (
    own_page-ok (after_touch sid pid w).sessions sid pid (touched w.instant p)
      (touch-Located w sid pid p here))

pub engine_handle_for-live :
    (env : Env) (w : World) (sid pid : Text) (p : PageState) (h : PageHandle)
    → Located w.sessions sid pid p
    → p.engine_handle ≡ some h
    → engine_handle_for env sid pid w ≡ (ok h, after_touch sid pid w)
unfolding engine_handle_for touch
engine_handle_for-live env w sid pid p h here live = rw (
  own_page-ok (after_touch sid pid w).sessions sid pid (touched w.instant p)
      (touch-Located w sid pid p here),
  live,
)

pub with_page-eq :
    {A : Type 0} (w : World) (sid pid : Text) (p : PageState) (f : PageState → A × PageState)
    → Located w.sessions sid pid p
    → with_page sid pid f w ≡ (ok (f p).0, set_sessions (set_page sid pid (f p).1 w.sessions) w)
unfolding with_page
with_page-eq w sid pid p f here = rw (with_page, find_page-ok w.sessions sid pid p here)

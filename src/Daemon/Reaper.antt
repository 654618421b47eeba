-- ===== src/Daemon/Reaper.antt =====
-- crates/vs-daemon/src/daemon/reaper.rs: which idle pages lose their engine page and which idle
-- sessions are closed. The environment variables are a function; `touch` is in World.
pub mod Plan
pub mod Config
use vibesurfer.Prelude.{
  ℕ, ◌-◌, ◌*◌, ◌^◌, Bool, true, false, not, ◌&&◌, List, [], ◌∷◌, ◌++◌, Option, none, some, map,
  if◌then◌else◌, ltb, leb, max, zero, suc, ◌+◌, ◌/◌, ◌%◌, ◌<◌, ◌≤◌, ◌||◌, ◌≡◌, refl, sym, ap, ◌∙◌,
  ◌≢◌, ◌↔◌, arith, ◌==◌, any, all, All, length, filterb, Bool-cases, Option-cases, inl, inr,
  append_assoc, append-nil, drop, take, or_else, min, length-append,
}
use vibesurfer.Text.{Text, codes, text_eq, text_lt, split_once}
use vibesurfer.Table.{get, put, remove, write}
use vibesurfer.Daemon.Fallible.{ok, err}
use vibesurfer.Daemon.Engine.{PageHandle}
use vibesurfer.Daemon.PageState.{PageState}
use vibesurfer.Daemon.Store.{is_none}
use vibesurfer.Daemon.World.{
  World, Env, SessionState, on_engine, find_page, set_page, set_sessions, engine_close,
}
use vibesurfer.Daemon.Lifecycle.Sweep.{close_each}
use vibesurfer.Text.Decimal.{u64_mod, parse}

abbrev pub second : ℕ
second = 10 ^ 9

abbrev pub page_idle_default : ℕ
page_idle_default = 30 * 60 * second

abbrev pub session_ttl_default : ℕ
session_ttl_default = 24 * 60 * 60 * second

abbrev pub sweep_default : ℕ
sweep_default = 60 * second

pub record ReapConfig : Type 0 where
  pub page_idle : ℕ
  pub session_ttl : ℕ
  pub sweep : ℕ

abbrev pub positive_secs : ℕ → Option ℕ → ℕ
positive_secs default none = default
positive_secs default (some n) = if ltb 0 n then n * second else default

abbrev pub parsed_secs : Option Text → Option ℕ
parsed_secs none = none
parsed_secs (some v) = parse u64_mod v

-- `secs` of `from_env`, on the variable's value.
unfoldable pub secs_or : ℕ → Option Text → ℕ
secs_or default value = positive_secs default (parsed_secs value)

unfoldable pub is_off : Option Text → Bool
is_off none = false
is_off (some v) = text_eq v (codes "0")

unfoldable pub from_env : (Text → Option Text) → Option ReapConfig
from_env var =
    if is_off (var (codes "VS_REAP"))
    then none
    else some (record {
      page_idle = secs_or page_idle_default (var (codes "VS_PAGE_IDLE_SECS"));
      session_ttl = secs_or session_ttl_default (var (codes "VS_SESSION_TTL_SECS"));
      sweep = secs_or sweep_default (var (codes "VS_REAP_SWEEP_SECS"));
    })

pub record ReapPlan : Type 0 where
  pub dormant : List (Text × Text)
  pub closed : List Text

abbrev pub is_empty {ℓ} : {A : Type ℓ} → List A → Bool
is_empty [] = true
is_empty (x ∷ xs) = false

unfoldable pub plan_is_empty : ReapPlan → Bool
plan_is_empty p = is_empty p.dormant && is_empty p.closed

-- A page as `plan` sees it: its id, when it was touched, whether it has an engine page.
pub record PageView : Type 0 where
  pub id : Text
  pub touched : ℕ
  pub live : Bool

pub record SessionView : Type 0 where
  pub id : Text
  pub touched : ℕ
  pub pages : List PageView

-- The inner loop: the newest touch and the idle pages so far.
unfoldable pub scan_pages :
    ℕ → ReapConfig → Text → List PageView → ℕ × List (Text × Text) → ℕ × List (Text × Text)
scan_pages now cfg sid [] found = found
scan_pages now cfg sid (p ∷ ps) (newest, idle) = scan_pages now cfg sid ps (
  max newest p.touched,
  (if p.live && leb cfg.page_idle (now - p.touched) then idle ++ (sid, p.id) ∷ [] else idle),
)

unfoldable pub plan_session : ℕ → ReapConfig → SessionView → ReapPlan → ReapPlan
plan_session now cfg s out =
    let (newest, dormant_here) = scan_pages now cfg s.id s.pages (s.touched, []) in
    if leb cfg.session_ttl (now - newest)
    then record out { closed = out.closed ++ s.id ∷ [] }
    else record out { dormant = out.dormant ++ dormant_here }

unfoldable pub plan_from : ℕ → ReapConfig → List SessionView → ReapPlan → ReapPlan
plan_from now cfg [] out = out
plan_from now cfg (s ∷ ss) out = plan_from now cfg ss (plan_session now cfg s out)

unfoldable pub plan : List SessionView → ℕ → ReapConfig → ReapPlan
plan ss now cfg = plan_from now cfg ss (record { dormant = []; closed = [] })

unfoldable pub page_view : Text × PageState → PageView
page_view (pid, p) = record {
  id = pid;
  touched = p.last_touched;
  live = not (is_none p.engine_handle);
}

unfoldable pub session_view : Text × SessionState → SessionView
session_view (sid, s) = record { id = sid; touched = s.last_touched; pages = map page_view s.pages }

-- The page loses its handle and its baseline; a page that is gone by now is passed over.
unfoldable pub put_to_sleep : Text → Text → World → Option PageHandle × World
put_to_sleep sid pid w = elim (find_page sid pid w.sessions) [
  | err e ↦ (none, w)
  | ok p ↦ (
    p.engine_handle,
    set_sessions
        (set_page sid pid (record p { force_full = true; engine_handle = none }) w.sessions) w,
  )
]

module _ (env : Env) where
  abbrev pub close_taken : Option PageHandle × World → World
  close_taken (none, w) = w
  close_taken (some h, w) = (engine_close env h w).1

  unfoldable pub reap_pages : List (Text × Text) → World → World
  reap_pages [] w = w
  reap_pages ((sid, pid) ∷ rest) w = reap_pages rest (close_taken (put_to_sleep sid pid w))

  unfoldable pub reap_once : ReapConfig → World → World
  reap_once cfg w =
      let p = plan (map session_view w.sessions) w.instant cfg in
      if plan_is_empty p then w else (close_each env p.closed (reap_pages p.dormant w)).1

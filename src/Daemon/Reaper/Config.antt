-- ===== src/Daemon/Reaper/Config.antt =====
-- The windows that the environment sets.
use vibesurfer.Daemon.Reaper.{false}
use vibesurfer.Text.Decimal.{parse-lt}
use vibesurfer.Prelude.{
  ℕ, ◌*◌, ◌<◌, Option, none, some, ◌≡◌, arith, ltb, Bool-cases, Option-cases, inl, inr,
}
use vibesurfer.Text.{Text, codes}
use vibesurfer.Text.Decimal.{u64_mod, parse}
use vibesurfer.Daemon.Reaper.{
  ReapConfig, from_env, secs_or, second, is_off, page_idle_default, session_ttl_default,
  sweep_default,
}

-- A positive window that an unsigned number of seconds can give.
abbrev pub IsWindow : ℕ → Type 0
IsWindow duration = (0 < duration) × (duration < u64_mod * second)

secs_or-IsWindow :
    (default : ℕ) (value : Option Text) → IsWindow default → IsWindow (secs_or default value)
unfolding secs_or
secs_or-IsWindow default none fits = fits
secs_or-IsWindow default (some v) fits = elim (Option-cases (parse u64_mod v)) [
  | inl e ↦ rw e fits
  | inr (n, e) ↦ rw e (
      let below = parse-lt u64_mod v n (omega arith) e in
      elim (Bool-cases (ltb 0 n)) [
        | inl positive ↦ rw positive (ground arith)
        | inr zero_secs ↦ rw zero_secs fits
      ])
]

-- If the environment gives a configuration, then `VS_REAP` is not the text 0, and each of the three
-- windows is longer than nothing and less than 2^64 seconds.
pub from_env-bounds :
    (var : Text → Option Text) (cfg : ReapConfig)
    → from_env var ≡ some cfg
    → (is_off (var (codes "VS_REAP")) ≡ false)
      × IsWindow cfg.page_idle
      × IsWindow cfg.session_ttl
      × IsWindow cfg.sweep
unfolding from_env
from_env-bounds var cfg h = ground (
  arith,
  secs_or-IsWindow page_idle_default (var (codes "VS_PAGE_IDLE_SECS")) (omega arith, omega arith),
  secs_or-IsWindow session_ttl_default (var (codes "VS_SESSION_TTL_SECS"))
      (omega arith, omega arith),
  secs_or-IsWindow sweep_default (var (codes "VS_REAP_SWEEP_SECS")) (omega arith, omega arith),
)

-- ===== src/Daemon/Examples/Rules.antt =====
-- Instances of the theorems on the reaper, the log's arguments and the captures.
use vibesurfer.Text.{starts_with, Text, codes}
use vibesurfer.Prelude.{
  ℕ, ◌+◌, true, false, not, List, [], ◌∷◌, Option, none, some, ◌≡◌, refl, map, length, filterb,
  take,
}
use vibesurfer.Daemon.Reaper.{
  secs_or, ReapConfig, SessionView, plan, from_env, is_off, page_idle_default, session_ttl_default,
  sweep_default,
}
use vibesurfer.Daemon.Redact.{is_sensitive, contains_text, Flag, redact_args}
use vibesurfer.Protocol.Error.{ParseError}
use vibesurfer.Daemon.Redact.Secrets.{redact_args-secret}
use vibesurfer.Daemon.Reaper.Plan.{plan-eq, sleepers, is_expired}
use vibesurfer.Daemon.Reaper.Config.{from_env-bounds, IsWindow}
use vibesurfer.Daemon.Captures.{CaptureFile, RetentionPolicy, prune, newer}
use vibesurfer.Daemon.Captures.Kept.{prune-left, is_young}
use vibesurfer.Daemon.Pending.{sort}

abbrev cfg : ReapConfig
cfg = record { page_idle = 10; session_ttl = 100; sweep = 1 }

-- A session of which one page is old and one is in use, and one that nobody has touched.
abbrev views : List SessionView
views =
    record {
      id = codes "s";
      touched = 0;
      pages =
          record { id = codes "p"; touched = 0; live = true }
          ∷ record { id = codes "q"; touched = 150; live = true }
          ∷ [];
    }
    ∷ record { id = codes "t"; touched = 0; pages = [] }
    ∷ []

plan-eq_example : plan views 150 cfg ≡ record {
  dormant = sleepers 150 cfg (filterb (λ s. not (is_expired 150 cfg s)) views);
  closed = map (λ s. s.id) (filterb (is_expired 150 cfg) views);
}
plan-eq_example = plan-eq views 150 cfg

-- The old page of the first session sleeps, and the second session is closed.
plan_run :
    plan views 150 cfg ≡ record { dormant = (codes "s", codes "p") ∷ []; closed = codes "t" ∷ [] }
plan_run = plan-eq views 150 cfg

abbrev no_vars : Text → Option Text
no_vars name = none

abbrev defaults : ReapConfig
defaults = record {
  page_idle = page_idle_default;
  session_ttl = session_ttl_default;
  sweep = sweep_default;
}

from_env-bounds_example :
    (is_off (no_vars (codes "VS_REAP")) ≡ false)
    × IsWindow defaults.page_idle
    × IsWindow defaults.session_ttl
    × IsWindow defaults.sweep
unfolding from_env is_off secs_or
from_env-bounds_example = from_env-bounds no_vars defaults refl

abbrev flags_with : Text → List Flag
flags_with secret = (codes "token", some secret) ∷ (codes "all", none) ∷ []

redact_args-secret_example :
    redact_args (λ s. s) [] (flags_with (codes "abc"))
    ≡ redact_args (λ s. s) [] (flags_with (codes "xyz"))
unfolding is_sensitive contains_text starts_with
redact_args-secret_example =
    redact_args-secret (λ s. s) [] (flags_with (codes "abc")) (flags_with (codes "xyz")) refl

abbrev no_text : ParseError → Text
no_text e = []

abbrev file_at : ℕ → CaptureFile
file_at mtime = record { path = codes "c.png"; mtime = mtime; size = 10; removable = true }

abbrev files : List CaptureFile
files = file_at 5 ∷ file_at 90 ∷ file_at 80 ∷ file_at 99 ∷ []

abbrev keep_two : RetentionPolicy
keep_two = record { all_files = false; keep = some 2; max_age = some 15 }

prune-left_example :
    let (stats, left) = prune files keep_two 100 in
    (left ≡ filterb (is_young keep_two 100) (take 2 (sort newer files)))
    × (stats.deleted + stats.kept ≡ 4)
    × (stats.kept ≡ length left)
prune-left_example = prune-left files keep_two 100 2 refl refl refl

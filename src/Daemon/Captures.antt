-- ===== src/Daemon/Captures.antt =====
-- crates/vs-daemon/src/captures.rs. The directory is the list of its capture files in the order in
-- which they are read, and whether a file can be removed is a field of it; a time is a number of
-- nanoseconds.
pub mod Kept
use vibesurfer.Prelude.{
  ℕ, suc, ◌+◌, ◌-◌, ◌*◌, ◌^◌, Bool, true, false, ◌&&◌, ◌||◌, List, [], ◌∷◌, Option, none, some,
  ◌==◌, if◌then◌else◌, ltb, leb,
}
use vibesurfer.Text.{Text, trim}
use vibesurfer.Text.Decimal.{u64_mod, parse, is_digit}
use vibesurfer.Daemon.Pending.{sort}

abbrev pub default_keep : ℕ
default_keep = 200

abbrev pub default_max_age : ℕ
default_max_age = 30 * 24 * 60 * 60 * 10 ^ 9

pub record RetentionPolicy : Type 0 where
  pub all_files : Bool
  pub keep : Option ℕ
  pub max_age : Option ℕ

unfoldable pub default_cap : RetentionPolicy
default_cap = record { all_files = false; keep = some default_keep; max_age = some default_max_age }

pub record PruneStats : Type 0 where
  pub deleted : ℕ
  pub freed_bytes : ℕ
  pub kept : ℕ

pub record CaptureFile : Type 0 where
  pub path : Text
  pub mtime : ℕ
  pub size : ℕ
  pub removable : Bool

abbrev pub newer : CaptureFile → CaptureFile → Bool
newer a b = ltb b.mtime a.mtime

-- `duration_since` fails for a time to come.
abbrev pub is_older : Option ℕ → ℕ → ℕ → Bool
is_older none now mtime = false
is_older (some age) now mtime = ltb age (now - mtime)

abbrev pub is_beyond : Option ℕ → ℕ → Bool
is_beyond none index = false
is_beyond (some k) index = leb k index

unfoldable pub is_doomed : RetentionPolicy → ℕ → ℕ → CaptureFile → Bool
is_doomed policy now index f =
    policy.all_files || is_older policy.max_age now f.mtime || is_beyond policy.keep index

unfoldable pub count_file :
    Bool → CaptureFile → PruneStats × List CaptureFile → PruneStats × List CaptureFile
count_file true f (stats, left) =
    (record stats { deleted = stats.deleted + 1; freed_bytes = stats.freed_bytes + f.size }, left)
count_file false f (stats, left) = (record stats { kept = stats.kept + 1 }, f ∷ left)

-- The loop over the sorted files, and the files that are left.
unfoldable pub prune_from :
    RetentionPolicy → ℕ → ℕ → List CaptureFile → PruneStats × List CaptureFile
prune_from policy now index [] = (record { deleted = 0; freed_bytes = 0; kept = 0 }, [])
prune_from policy now index (f ∷ fs) =
    count_file (is_doomed policy now index f && f.removable) f
      (prune_from policy now (suc index) fs)

unfoldable pub prune : List CaptureFile → RetentionPolicy → ℕ → PruneStats × List CaptureFile
prune files policy now = prune_from policy now 0 (sort newer files)

-- `find` and `split_at`.
unfoldable pub cut_number : Text → Text × Text
cut_number [] = ([], [])
cut_number (c ∷ cs) =
    let (num, unit) = cut_number cs in if is_digit c then (c ∷ num, unit) else ([], c ∷ cs)

unfoldable pub multiplier : Text → Option ℕ
multiplier [] = some 1
multiplier (c ∷ d ∷ cs) = none
multiplier (c ∷ []) =
    if c == b's'
    then some 1
    else if c == b'm'
    then some 60
    else if c == b'h'
    then some (60 * 60)
    else if c == b'd'
    then some (24 * 60 * 60)
    else none

abbrev pub checked_mul : Option ℕ → Option ℕ → Option ℕ
checked_mul (some n) (some mult) = if ltb (n * mult) u64_mod then some (n * mult) else none
checked_mul _ _ = none

-- A number of seconds; an empty text has no digit and is no number.
unfoldable pub parse_duration : Text → Option ℕ
parse_duration s =
    let (num, unit) = cut_number (trim s) in checked_mul (parse u64_mod num) (multiplier unit)

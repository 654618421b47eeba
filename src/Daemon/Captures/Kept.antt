-- ===== src/Daemon/Captures/Kept.antt =====
-- Which captures are left.
use vibesurfer.Prelude.{
  take, zero, suc, ◌&&◌, ◌||◌, not, ℕ, ◌+◌, ◌-◌, Bool, true, false, List, [], ◌∷◌, some, ◌≡◌, refl,
  ap, ◌∙◌, arith, all, length, if◌then◌else◌, leb, filterb, Bool-cases, inl, inr,
}
use vibesurfer.Daemon.Captures.{
  PruneStats, count_file, is_doomed, is_older, prune_from, RetentionPolicy, CaptureFile, prune,
  newer,
}
use vibesurfer.Daemon.Pending.{sort, place}

-- The file is not older than the policy allows.
abbrev pub is_young : RetentionPolicy → ℕ → CaptureFile → Bool
is_young policy now f = not (is_older policy.max_age now f.mtime)

take-nil : (n : ℕ) → take {A = CaptureFile} n [] ≡ []
take-nil zero = refl
take-nil (suc n) = refl

-- Every file is left or deleted.
Counts : PruneStats × List CaptureFile → ℕ → Type 0
Counts (stats, left) n = (stats.deleted + stats.kept ≡ n) × (stats.kept ≡ length left)

count_file-Counts :
    (b : Bool) (f : CaptureFile) (x : PruneStats × List CaptureFile) (n : ℕ)
    → Counts x n
    → Counts (count_file b f x) (suc n)
unfolding Counts count_file
count_file-Counts true f (stats, left) n h = omega (arith, h.0, h.1)
count_file-Counts false f (stats, left) n h = omega (arith, h.0, h.1)

prune_from-Counts :
    (policy : RetentionPolicy) (now index : ℕ) (fs : List CaptureFile)
    → Counts (prune_from policy now index fs) (length fs)
unfolding prune_from Counts
prune_from-Counts policy now index [] = (refl, refl)
prune_from-Counts policy now index (f ∷ fs) =
    count_file-Counts (is_doomed policy now index f && f.removable) f
      (prune_from policy now (suc index) fs) (length fs)
      (prune_from-Counts policy now (suc index) fs)

count_file-left :
    (b : Bool) (f : CaptureFile) (x : PruneStats × List CaptureFile)
    → (count_file b f x).1 ≡ (if b then x.1 else f ∷ x.1)
unfolding count_file
count_file-left true f (stats, left) = refl
count_file-left false f (stats, left) = refl

doomed-eq :
    (policy : RetentionPolicy) (now k index : ℕ) (f : CaptureFile)
    → policy.all_files ≡ false
    → policy.keep ≡ some k
    → f.removable ≡ true
    → (is_doomed policy now index f && f.removable)
      ≡ (is_older policy.max_age now f.mtime || leb k index)
unfolding is_doomed
doomed-eq policy now k index f some_files keep free = rw (some_files, keep, free) (ground arith)

prune_from-left :
    (policy : RetentionPolicy) (now k index : ℕ) (fs : List CaptureFile)
    → policy.all_files ≡ false
    → policy.keep ≡ some k
    → all (λ f. f.removable) fs ≡ true
    → (prune_from policy now index fs).1 ≡ filterb (is_young policy now) (take (k - index) fs)
unfolding prune_from
prune_from-left policy now k index [] some_files keep removable = rw (take-nil (k - index))
prune_from-left policy now k index (f ∷ fs) some_files keep removable =
    let rest = prune_from-left policy now k (suc index) fs some_files keep (ground arith) in
    let doomed = doomed-eq policy now k index f some_files keep (ground arith) in
    let left =
      count_file-left (is_doomed policy now index f && f.removable) f
        (prune_from policy now (suc index) fs) in
    elim (Bool-cases (leb k index)) [
      | inl full ↦
          let none_left : k - index ≡ 0 = ground arith in
          let none_after : k - suc index ≡ 0 = ground arith in
          elim (Bool-cases (is_older policy.max_age now f.mtime)) [
            | inl old ↦ rw (left, doomed, rest, old, none_left, none_after)
            | inr young ↦ rw (left, doomed, rest, young, full, none_left, none_after)
          ]
      | inr room ↦
          let more : k - index ≡ suc (k - suc index) = ground arith in
          elim (Bool-cases (is_older policy.max_age now f.mtime)) [
            | inl old ↦ rw (left, doomed, rest, more, old)
            | inr young ↦ rw (left, doomed, rest, more, young, room)
          ]
    ]

length-place :
    (f : CaptureFile) (fs : List CaptureFile) → length (place newer f fs) ≡ suc (length fs)
unfolding place
length-place f [] = refl
length-place f (g ∷ fs) = elim (Bool-cases (newer g f)) [
  | inl e ↦ rw (e, length-place f fs)
  | inr e ↦ rw e
]

length-sort : (fs : List CaptureFile) → length (sort newer fs) ≡ length fs
unfolding sort
length-sort [] = refl
length-sort (f ∷ fs) = length-place f (sort newer fs) ∙ ap suc (length-sort fs)

removable-place :
    (f : CaptureFile) (fs : List CaptureFile)
    → all (λ g. g.removable) (place newer f fs) ≡ (f.removable && all (λ g. g.removable) fs)
unfolding place
removable-place f [] = refl
removable-place f (g ∷ fs) = elim (Bool-cases (newer g f)) [
  | inl e ↦ rw (e, removable-place f fs) (ground arith)
  | inr e ↦ rw e
]

removable-sort :
    (fs : List CaptureFile) → all (λ g. g.removable) (sort newer fs) ≡ all (λ g. g.removable) fs
unfolding sort
removable-sort [] = refl
removable-sort (f ∷ fs) =
    removable-place f (sort newer fs) ∙ ap (λ b. f.removable && b) (removable-sort fs)

-- If every file can be removed and the policy is not to delete all and names how many to keep, then
-- pruning leaves, of that many newest files, those that are not too old, in that order; every file is
-- counted once as deleted or kept, and as many are counted as kept as are left.
pub prune-left :
    (files : List CaptureFile) (policy : RetentionPolicy) (now k : ℕ)
    → policy.all_files ≡ false
    → policy.keep ≡ some k
    → all (λ f. f.removable) files ≡ true
    → let (stats, left) = prune files policy now in
      (left ≡ filterb (is_young policy now) (take k (sort newer files)))
      × (stats.deleted + stats.kept ≡ length files)
      × (stats.kept ≡ length left)
unfolding prune Counts
prune-left files policy now k some_files keep removable =
    let counted = prune_from-Counts policy now 0 (sort newer files) in
    let whole : k - 0 ≡ k = omega arith in
    (
      prune_from-left policy now k 0 (sort newer files) some_files keep
            (removable-sort files ∙ removable)
          ∙ ap (λ n. filterb (is_young policy now) (take n (sort newer files))) whole,
      counted.0 ∙ length-sort files,
      counted.1,
    )

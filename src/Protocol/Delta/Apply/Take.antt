-- ===== src/Protocol/Delta/Apply/Take.antt =====
-- What the searches of apply.rs find, and what they leave.
use vibesurfer.Prelude.{◌≤◌, ap}
use vibesurfer.Prelude.{true}
use vibesurfer.Prelude.{suc}
use vibesurfer.Prelude.{
  Option, Option-cases, inl, inr, or_else, ℕ, ◌+◌, Bool, none, some, ◌≡◌, refl, arith, ◌==◌,
  Bool-cases, inl, inr, or_else,
}
use vibesurfer.Protocol.Tree.Nodes.{Shell, Node, Forest, nil, node}
use vibesurfer.Protocol.Delta.Apply.{
  position, locate_in, locate_below, locate, Taken, behind, under, find, take_level, take_below,
  take_subtree,
}
use vibesurfer.Protocol.Delta.Apply.Count.{tally, count, count_node, take_subtree-Splits}

abbrev pub has : ℕ → Shell → Bool
has r s = s.r == r

pub find-count : (f : Forest) (r : ℕ) → find f r ≡ none → count (has r) f ≡ 0
unfolding find count
find-count nil r h = refl
find-count (node s c rest) r h = ground (arith, find-count c r, find-count rest r)

pub count-find : (f : Forest) (r : ℕ) → count (has r) f ≡ 0 → find f r ≡ none
unfolding find count
count-find nil r h = refl
count-find (node s c rest) r h = ground (arith, count-find c r, count-find rest r)

-- What is taken carries the ref; the flag says whether all levels were searched.
abbrev Carries : ℕ → Taken → Type 0
Carries r none = Unit
Carries r (some (n, g)) = n.shell.r ≡ r

Carries-behind :
    (r : ℕ) (s : Shell) (c : Forest) (t : Taken) → Carries r t → Carries r (behind s c t)
Carries-behind r s c none h = tt
Carries-behind r s c (some (n, g)) h = h

Carries-under :
    (r : ℕ) (s : Shell) (t : Taken) (rest : Forest) → Carries r t → Carries r (under s t rest)
Carries-under r s none rest h = tt
Carries-under r s (some (n, g)) rest h = h

Carries-or_else : (r : ℕ) (t u : Taken) → Carries r t → Carries r u → Carries r (or_else t u)
Carries-or_else r none u h k = k
Carries-or_else r (some (n, g)) u h k = h

take_level-Carries : (f : Forest) (r : ℕ) → Carries r (take_level f r)
unfolding take_level
take_level-Carries nil r = tt
take_level-Carries (node s c rest) r = elim (Bool-cases (s.r == r)) [
  | inl e ↦ rw e (ground arith)
  | inr e ↦ rw e (Carries-behind r s c (take_level rest r) (take_level-Carries rest r))
]

take_below-Carries : (f : Forest) (r : ℕ) → Carries r (take_below f r)
unfolding take_below
take_below-Carries nil r = tt
take_below-Carries (node s c rest) r =
    let inside = or_else (take_level c r) (take_below c r) in
    Carries-or_else r (under s inside rest) (behind s c (take_below rest r))
      (Carries-under r s inside rest (
        Carries-or_else r (take_level c r) (take_below c r) (take_level-Carries c r)
          (take_below-Carries c r)))
      (Carries-behind r s c (take_below rest r) (take_below-Carries rest r))

pub take_subtree-ref :
    (f : Forest) (r : ℕ) {n : Node} {g : Forest} → take_subtree f r ≡ some (n, g) → n.shell.r ≡ r
unfolding take_subtree
take_subtree-ref f r h = rw h at (
    Carries-or_else r (take_level f r) (take_below f r) (take_level-Carries f r)
      (take_below-Carries f r))

-- The nodes at the first level that carry the ref.
level_count : ℕ → Forest → ℕ
level_count r nil = 0
level_count r (node s c rest) = tally (has r s) + level_count r rest

-- The nodes below the first level that carry the ref.
below_count : ℕ → Forest → ℕ
below_count r nil = 0
below_count r (node s c rest) = count (has r) c + below_count r rest

count-levels : (r : ℕ) (f : Forest) → count (has r) f ≡ level_count r f + below_count r f
unfolding count level_count below_count
count-levels r nil = refl
count-levels r (node s c rest) = omega (arith, count-levels r rest)

behind-none : (s : Shell) (c : Forest) (t : Taken) → behind s c t ≡ none → t ≡ none
behind-none s c none h = refl
behind-none s c (some (n, g)) h = cc

under-none : (s : Shell) (t : Taken) (rest : Forest) → under s t rest ≡ none → t ≡ none
under-none s none rest h = refl
under-none s (some (n, g)) rest h = cc

or_else-none : (t u : Taken) → or_else t u ≡ none → (t ≡ none) × (u ≡ none)
or_else-none none u h = (refl, h)
or_else-none (some x) u h = cc

take_level-none : (f : Forest) (r : ℕ) → take_level f r ≡ none → level_count r f ≡ 0
unfolding take_level level_count
take_level-none nil r h = refl
take_level-none (node s c rest) r h =
    ground (arith, behind-none s c (take_level rest r), take_level-none rest r)

take_below-none : (f : Forest) (r : ℕ) → take_below f r ≡ none → below_count r f ≡ 0
unfolding take_below below_count
take_below-none nil r h = refl
take_below-none (node s c rest) r h =
    let parts =
      or_else-none (under s (or_else (take_level c r) (take_below c r)) rest)
        (behind s c (take_below rest r)) h in
    let inside =
      or_else-none (take_level c r) (take_below c r)
        (under-none s (or_else (take_level c r) (take_below c r)) rest parts.0) in
    omega (
      arith,
      count-levels r c,
      take_level-none c r inside.0,
      take_below-none c r inside.1,
      take_below-none rest r (behind-none s c (take_below rest r) parts.1),
    )

-- If no subtree with a ref can be taken from a forest, no node of the forest has the ref.
pub take_subtree-none : (f : Forest) (r : ℕ) → take_subtree f r ≡ none → count (has r) f ≡ 0
unfolding take_subtree
take_subtree-none f r h =
    let parts = or_else-none (take_level f r) (take_below f r) h in
    omega (arith, count-levels r f, take_level-none f r parts.0, take_below-none f r parts.1)

pub take_subtree-count :
    (p : Shell → Bool) (f : Forest) (r : ℕ) {n : Node} {g : Forest}
    → take_subtree f r ≡ some (n, g)
    → count p f ≡ count_node p n + count p g
take_subtree-count p f r h = rw h at (take_subtree-Splits p f r)

pub has_ref : (r : ℕ) (s : Shell) → s.r ≡ r → has r s ≡ true
has_ref r s h = ground arith

position-none : (i : ℕ) (f : Forest) (r : ℕ) → position i f r ≡ none → level_count r f ≡ 0
unfolding position level_count
position-none i nil r h = refl
position-none i (node s c rest) r h = ground (arith, position-none (suc i) rest r)

or_else_inv {ℓ} : {A : Type ℓ} (t u : Option A) → or_else t u ≡ none → (t ≡ none) × (u ≡ none)
or_else_inv none u h = (refl, h)
or_else_inv (some x) u h = cc

locate_in-none :
    (parent i : ℕ) (f : Forest) (r : ℕ) → locate_in parent i f r ≡ none → count (has r) f ≡ 0
unfolding locate_in count
locate_in-none parent i nil r h = refl
locate_in-none parent i (node s c rest) r h = ground (
  arith,
  or_else_inv (locate_in s.r 0 c r) (locate_in parent (suc i) rest r),
  locate_in-none s.r 0 c r,
  locate_in-none parent (suc i) rest r,
)

locate_below-none : (f : Forest) (r : ℕ) → locate_below f r ≡ none → below_count r f ≡ 0
unfolding locate_below below_count
locate_below-none nil r h = refl
locate_below-none (node s c rest) r h =
    let parts = or_else_inv (locate_in s.r 0 c r) (locate_below rest r) h in
    omega (arith, locate_in-none s.r 0 c r parts.0, locate_below-none rest r parts.1)

-- A ref that is not located is not there.
pub locate-none : (f : Forest) (r : ℕ) → locate f r ≡ none → count (has r) f ≡ 0
unfolding locate
locate-none f r h = elim (Option-cases (position 0 f r)) [
  | inl e ↦
      omega (
        arith,
        count-levels r f,
        position-none 0 f r e,
        locate_below-none f r (rw (e, locate) at h),
      )
  | inr (i, e) ↦ absurd (ground arith)
]

pub tally-has : (r : ℕ) (s : Shell) → s.r ≡ r → tally (has r s) ≡ 1
tally-has r s h = ap tally (has_ref r s h)

-- What is taken was there.
pub take_subtree-some :
    (f : Forest) (r : ℕ) {n : Node} {g : Forest}
    → take_subtree f r ≡ some (n, g)
    → 1 ≤ count (has r) f
take_subtree-some f r {n} e =
    omega (arith, take_subtree-count (has r) f r e, tally-has r n.shell (take_subtree-ref f r e))

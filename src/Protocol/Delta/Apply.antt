-- ===== src/Protocol/Delta/Apply.antt =====
-- crates/vs-protocol/src/delta/apply.rs.
pub mod Count
pub mod Take
pub mod Keeps
pub mod Distinct
use vibesurfer.Prelude.{
  ℕ, zero, suc, ◌-◌, min, List, [], ◌∷◌, Option, none, some, ◌==◌, if◌then◌else◌, or_else,
}
use vibesurfer.Text.Decimal.{u32_mod}
use vibesurfer.Protocol.Error.{
  Result, ok, err, malformed_line, apply_missing_ref, apply_duplicate_ref, apply_missing_parent,
  ◌>>=◌, ok_or,
}
use vibesurfer.Protocol.Tree.Nodes.{Shell, Node, Forest, nil, node}
use vibesurfer.Protocol.Delta.Ops.{DeltaOp, add, remove, update, move, replace}

-- The first node with the ref in preorder.
unfoldable pub find : Forest → ℕ → Option Node
find nil r = none
find (node s c rest) r =
    let found = or_else (find c r) (find rest r) in
    if s.r == r then some (record { shell = s; children = c }) else found

abbrev pub below_or_behind : Shell → Forest → Forest → Option Forest → Option Forest → Option Forest
below_or_behind s c rest (some c') later = some (node s c' rest)
below_or_behind s c rest none (some rest') = some (node s c rest')
below_or_behind s c rest none none = none

-- `find_mut`, and the write through the reference that it returns.
unfoldable pub modify : Forest → ℕ → (Node → Node) → Option Forest
modify nil r g = none
modify (node s c rest) r g =
    let later = below_or_behind s c rest (modify c r g) (modify rest r g) in
    let changed = g (record { shell = s; children = c }) in
    if s.r == r then some (node changed.shell changed.children rest) else later

abbrev pub Taken : Type 0
Taken = Option (Node × Forest)

abbrev pub behind : Shell → Forest → Taken → Taken
behind s c none = none
behind s c (some (n, rest)) = some (n, node s c rest)

abbrev pub under : Shell → Taken → Forest → Taken
under s none rest = none
under s (some (n, c)) rest = some (n, node s c rest)

-- `position` and `Vec::remove` at one level.
unfoldable pub take_level : Forest → ℕ → Taken
take_level nil r = none
take_level (node s c rest) r =
    if s.r == r
    then some (record { shell = s; children = c }, rest)
    else behind s c (take_level rest r)

-- `take_from_subtree`, over a node and those that follow it.
unfoldable pub take_below : Forest → ℕ → Taken
unfolding take_level
take_below nil r = none
take_below (node s c rest) r =
    or_else (under s (or_else (take_level c r) (take_below c r)) rest)
      (behind s c (take_below rest r))

unfoldable pub take_subtree : Forest → ℕ → Taken
unfolding take_level take_below
take_subtree f r = or_else (take_level f r) (take_below f r)

-- `u32::try_from(i).unwrap_or(u32::MAX)`.
unfoldable pub saturate : ℕ → ℕ
saturate i = min i (u32_mod - 1)

unfoldable pub position : ℕ → Forest → ℕ → Option ℕ
position i nil r = none
position i (node s c rest) r = if s.r == r then some i else position (suc i) rest r

-- `locate_in_subtree`, over the children of `parent` from position `i`.
unfoldable pub locate_in : ℕ → ℕ → Forest → ℕ → Option (ℕ × ℕ)
locate_in parent i nil r = none
locate_in parent i (node s c rest) r =
    let later = or_else (locate_in s.r 0 c r) (locate_in parent (suc i) rest r) in
    if s.r == r then some (parent, saturate i) else later

-- The loop of `locate` over the roots.
unfoldable pub locate_below : Forest → ℕ → Option (ℕ × ℕ)
unfolding locate_in
locate_below nil r = none
locate_below (node s c rest) r = or_else (locate_in s.r 0 c r) (locate_below rest r)

unfoldable pub locate : Forest → ℕ → Option (ℕ × ℕ)
unfolding position locate_below
locate f r = elim (position 0 f r) [ some i ↦ some (0, saturate i) | none ↦ locate_below f r ]

-- `Vec::insert` at the position, or at the end if the list is shorter.
unfoldable pub insert : ℕ → Node → Forest → Forest
insert zero n f = node n.shell n.children f
insert (suc p) n nil = node n.shell n.children nil
insert (suc p) n (node s c rest) = node s c (insert p n rest)

unfoldable pub insert_pos : Option ℕ → Node → Forest → Forest
unfolding insert
insert_pos none n f = insert (u32_mod - 1) n f
insert_pos (some p) n f = insert p n f

unfoldable pub insert_at : Forest → ℕ → Option ℕ → Node → Result Forest
unfolding insert_pos modify
insert_at f parent pos n =
    if parent == 0
    then ok (insert_pos pos n f)
    else ok_or (modify f parent (λ p. record p { children = insert_pos pos n p.children }))
        (apply_missing_parent parent)

unfoldable pub apply_replace : Forest → ℕ → Forest → Result Forest
unfolding locate take_subtree insert_at
apply_replace f r nil = err (malformed_line 0 "Replace subtree root ref mismatch")
apply_replace f r (node s c rest) =
    let replaced = (do
      (old, g) ← ok_or (take_subtree f r) (apply_missing_ref r)
      elim (locate f r) [
        | some (parent, pos) ↦ insert_at g parent (some pos) (record { shell = s; children = c })
        | none ↦ ok g
      ]) in
    if s.r == r then replaced else err (malformed_line 0 "Replace subtree root ref mismatch")

abbrev pub leaf_of : Shell → Node
leaf_of s = record { shell = s; children = nil }

unfoldable pub apply_one : Forest → DeltaOp → Result Forest
unfolding take_subtree find modify insert_at apply_replace
apply_one f (remove r) = elim (take_subtree f r) [ none ↦ ok f | some (n, g) ↦ ok g ]
apply_one f (add s parent pos) = elim (find f s.r) [
  | some n ↦ err (apply_duplicate_ref s.r)
  | none ↦ insert_at f parent pos (leaf_of s)
]
apply_one f (update r attrs) =
    ok_or (modify f r (λ n. record n { shell = record (n.shell) { attrs = attrs } }))
      (apply_missing_ref r)
apply_one f (move r parent pos) = do
  (n, g) ← ok_or (take_subtree f r) (apply_missing_ref r)
  insert_at g parent pos n
apply_one f (replace r subtree) = apply_replace f r subtree

unfoldable pub apply : Forest → List DeltaOp → Result Forest
unfolding apply_one
apply f [] = ok f
apply f (op ∷ ops) = do g ← apply_one f op; apply g ops

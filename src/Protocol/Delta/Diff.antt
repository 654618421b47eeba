-- ===== src/Protocol/Delta/Diff.antt =====
-- crates/vs-protocol/src/delta/diff.rs.
pub mod Self
use vibesurfer.Prelude.{
  ℕ, zero, suc, max, Bool, true, false, not, ◌&&◌, List, [], ◌∷◌, ◌++◌, Option, none, some, ◌==◌,
  if◌then◌else◌, any,
}
use vibesurfer.Text.{text_eq}
use vibesurfer.Protocol.Codes.{Role, role_str, Op, op_rank}
use vibesurfer.Protocol.Tree.Nodes.{Attr, Node, Forest, nil, node}
use vibesurfer.Protocol.Delta.Ops.{DeltaOp, add, remove, update, move, replace}
use vibesurfer.Protocol.Delta.Apply.{saturate}

-- The refs at one level.
abbrev pub refs : Forest → List ℕ
refs nil = []
refs (node s c rest) = s.r ∷ refs rest

abbrev pub member : ℕ → List ℕ → Bool
member r = any (λ x. x == r)

-- The derived equality of operation sets and of attribute maps.
unfoldable pub ops_eq : List Op → List Op → Bool
unfolding op_rank
ops_eq [] [] = true
ops_eq (o ∷ os) (p ∷ ps) = op_rank o == op_rank p && ops_eq os ps
ops_eq _ _ = false

unfoldable pub attrs_eq : List Attr → List Attr → Bool
unfolding text_eq
attrs_eq [] [] = true
attrs_eq ((k, v) ∷ as') ((l, w) ∷ bs) = text_eq k l && text_eq v w && attrs_eq as' bs
attrs_eq _ _ = false

-- The derived equality of roles, which their wire forms tell apart.
unfoldable pub role_eq : Role → Role → Bool
unfolding text_eq role_str
role_eq x y = text_eq (role_str x) (role_str y)

-- The first loop: nodes of `a` that `b` does not have.
unfoldable pub removals : List ℕ → Forest → List DeltaOp
removals b_refs nil = []
removals b_refs (node s c rest) =
    let later = removals b_refs rest in if member s.r b_refs then later else remove s.r ∷ later

-- `iter().find` at one level.
unfoldable pub find_level : Forest → ℕ → Option Node
find_level nil r = none
find_level (node s c rest) r =
    if s.r == r then some (record { shell = s; children = c }) else find_level rest r

-- The place of a ref among the kept refs of its level.
unfoldable pub kept_pos : List ℕ → ℕ → Forest → ℕ → Option ℕ
kept_pos others i nil r = none
kept_pos others i (node s c rest) r =
    let later = kept_pos others (if member s.r others then suc i else i) rest r in
    if member s.r others && s.r == r then some i else later

abbrev pub same_pos : Option ℕ → Option ℕ → Bool
same_pos (some i) (some j) = i == j
same_pos none none = true
same_pos _ _ = false

-- The fourth loop, from position `i` of `b`.
unfoldable pub moves : Forest → Forest → ℕ → ℕ → Forest → List DeltaOp
unfolding kept_pos
moves a b parent i nil = []
moves a b parent i (node s c rest) =
    let later = moves a b parent (suc i) rest in
    let displaced =
      member s.r (refs a)
      && not (same_pos (kept_pos (refs b) 0 a s.r) (kept_pos (refs a) 0 b s.r)) in
    if displaced then move s.r parent (some (saturate i)) ∷ later else later

-- The loops that call `diff_children` on the children are given that call.
abbrev pub Recur : Type 0
Recur = Forest → Forest → ℕ → List DeltaOp

-- The second loop, from position `i` of `b`.
unfoldable pub additions : Recur → List ℕ → ℕ → ℕ → Forest → List DeltaOp
additions rec a_refs parent i nil = []
additions rec a_refs parent i (node s c rest) =
    let later = additions rec a_refs parent (suc i) rest in
    let here = add s parent (some (saturate i)) ∷ rec nil c s.r in
    if member s.r a_refs then later else here ++ later

unfoldable pub diff_node : Recur → Node → Node → List DeltaOp
unfolding role_eq text_eq ops_eq attrs_eq
diff_node rec a b =
    let same = role_eq a.role b.role && text_eq a.label b.label && ops_eq a.ops b.ops in
    let below = rec a.children b.children a.r in
    if not same
    then replace a.r (node b.shell b.children nil) ∷ []
    else if attrs_eq a.attrs b.attrs
    then below
    else update a.r b.attrs ∷ below

-- The third loop.
unfoldable pub changes : Recur → Forest → Forest → List DeltaOp
unfolding diff_node find_level
changes rec a nil = []
changes rec a (node s c rest) =
    elim (find_level a s.r) [
      | none ↦ []
      | some a_node ↦ diff_node rec a_node (record { shell = s; children = c })
    ]
    ++ changes rec a rest

-- The depth of the recursion is that of the new tree.
unfoldable pub diff_children : ℕ → Recur
unfolding removals additions changes moves
diff_children zero a b parent = []
diff_children (suc fuel) a b parent =
    removals (refs b) a
    ++ (additions (diff_children fuel) (refs a) parent 0 b
        ++ (changes (diff_children fuel) a b ++ moves a b parent 0 b))

unfoldable pub height : Forest → ℕ
height nil = 0
height (node s c rest) = max (suc (height c)) (height rest)

unfoldable pub diff : Forest → Forest → List DeltaOp
unfolding diff_children height
diff a b = diff_children (suc (height b)) a b 0

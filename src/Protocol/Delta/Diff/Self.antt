-- ===== src/Protocol/Delta/Diff/Self.antt =====
-- The diff of a tree with itself.
use vibesurfer.Prelude.{
  ℕ, zero, suc, true, false, List, [], ◌∷◌, Option, none, some, ◌≡◌, refl, arith, ◌==◌, Bool-cases,
  inl, inr,
}
use vibesurfer.Text.Laws.{text_eq_refl}
use vibesurfer.Protocol.Codes.{role_str, Op}
use vibesurfer.Protocol.Error.{ok}
use vibesurfer.Protocol.Tree.Nodes.{Attr, Shell, Node, Forest, nil, node}
use vibesurfer.Protocol.Delta.Apply.{apply}
use vibesurfer.Protocol.Delta.Diff.{
  refs, member, ops_eq, attrs_eq, role_eq, removals, find_level, kept_pos, same_pos, moves, Recur,
  additions, diff_node, changes, diff_children, height, diff,
}

-- No two siblings share a ref.
unfoldable pub AllSiblings : Forest → Type 0
AllSiblings nil = Unit
AllSiblings (node s c rest) = (member s.r (refs rest) ≡ false) × AllSiblings c × AllSiblings rest

AllIn : List ℕ → Forest → Type 0
AllIn l nil = Unit
AllIn l (node s c rest) = (member s.r l ≡ true) × AllIn l rest

AllIn-more : (r : ℕ) (l : List ℕ) (g : Forest) → AllIn l g → AllIn (r ∷ l) g
unfolding AllIn
AllIn-more r l nil h = tt
AllIn-more r l (node s c rest) h = (ground arith, AllIn-more r l rest h.1)

AllIn-refs : (f : Forest) → AllIn (refs f) f
unfolding AllIn
AllIn-refs nil = tt
AllIn-refs (node s c rest) = (ground arith, AllIn-more s.r (refs rest) rest (AllIn-refs rest))

removals-nil : (l : List ℕ) (g : Forest) → AllIn l g → removals l g ≡ []
unfolding removals AllIn
removals-nil l nil h = refl
removals-nil l (node s c rest) h = rw h.0 (removals-nil l rest h.1)

additions-nil :
    (rec : Recur) (l : List ℕ) (parent i : ℕ) (g : Forest)
    → AllIn l g
    → additions rec l parent i g ≡ []
unfolding additions AllIn
additions-nil rec l parent i nil h = refl
additions-nil rec l parent i (node s c rest) h =
    rw h.0 (additions-nil rec l parent (suc i) rest h.1)

same_pos_refl : (o : Option ℕ) → same_pos o o ≡ true
same_pos_refl none = refl
same_pos_refl (some i) = ground arith

moves-nil : (f : Forest) (parent i : ℕ) (g : Forest) → moves f f parent i g ≡ []
unfolding moves
moves-nil f parent i nil = refl
moves-nil f parent i (node s c rest) = elim (Bool-cases (member s.r (refs f))) [
  | inl m ↦ rw (m, same_pos_refl (kept_pos (refs f) 0 f s.r)) (moves-nil f parent (suc i) rest)
  | inr m ↦ rw m (moves-nil f parent (suc i) rest)
]

ops_eq_refl : (os : List Op) → ops_eq os os ≡ true
unfolding ops_eq
ops_eq_refl [] = refl
ops_eq_refl (o ∷ os) = ground (arith, ops_eq_refl os)

attrs_eq_refl : (as' : List Attr) → attrs_eq as' as' ≡ true
unfolding attrs_eq
attrs_eq_refl [] = refl
attrs_eq_refl ((k, v) ∷ as') = rw (text_eq_refl k, text_eq_refl v, attrs_eq_refl as')

diff_node-nil :
    (rec : Recur) (n : Node) → rec n.children n.children n.r ≡ [] → diff_node rec n n ≡ []
unfolding diff_node role_eq
diff_node-nil rec n h = rw (
  text_eq_refl (role_str n.role),
  text_eq_refl n.label,
  ops_eq_refl n.ops,
  attrs_eq_refl n.attrs,
  h,
)

-- Every node of the second forest is found at the first level of the first one, and has no diff
-- below.
AllFound : Recur → Forest → Forest → Type 0
AllFound rec f nil = Unit
AllFound rec f (node s c rest) =
    (find_level f s.r ≡ some (record { shell = s; children = c }))
    × (rec c c s.r ≡ [])
    × AllFound rec f rest

AllFound-behind :
    (rec : Recur) (s : Shell) (c f g : Forest)
    → member s.r (refs g) ≡ false
    → AllFound rec f g
    → AllFound rec (node s c f) g
unfolding AllFound find_level
AllFound-behind rec s c f nil m h = tt
AllFound-behind rec s c f (node t d rest) m h =
    let (here, behind) : ((t.r == s.r) ≡ false) × (member s.r (refs rest) ≡ false) = ground arith in
    let apart : (s.r == t.r) ≡ false = ground arith in
    (rw apart h.0, h.1, AllFound-behind rec s c f rest behind h.2)

found :
    (rec : Recur) (f : Forest)
    → ((c : Forest) (r : ℕ) → AllSiblings c → rec c c r ≡ [])
    → AllSiblings f
    → AllFound rec f f
unfolding AllFound AllSiblings
found rec nil below h = tt
found rec (node s c rest) below h =
    let self : (s.r == s.r) ≡ true = ground arith in
    (
      unfold find_level in rw self,
      below c s.r h.1,
      AllFound-behind rec s c rest rest h.0 (found rec rest below h.2),
    )

changes-nil : (rec : Recur) (f g : Forest) → AllFound rec f g → changes rec f g ≡ []
unfolding changes AllFound
changes-nil rec f nil h = refl
changes-nil rec f (node s c rest) h =
    rw (h.0, diff_node-nil rec (record { shell = s; children = c }) h.1, changes-nil rec f rest h.2)

diff_children-nil :
    (fuel : ℕ) (f : Forest) (parent : ℕ) → AllSiblings f → diff_children fuel f f parent ≡ []
unfolding diff_children
diff_children-nil zero f parent h = refl
diff_children-nil (suc fuel) f parent h =
    let below = found (diff_children fuel) f (λ c r k. diff_children-nil fuel c r k) h in
    rw (
      removals-nil (refs f) f (AllIn-refs f),
      additions-nil (diff_children fuel) (refs f) parent 0 f (AllIn-refs f),
      changes-nil (diff_children fuel) f f below,
      moves-nil f parent 0 f,
    )

-- If no two siblings share a ref, the diff of a tree with itself is empty, and applying it gives the
-- tree back.
pub diff_self : (f : Forest) → AllSiblings f → (diff f f ≡ []) × (apply f (diff f f) ≡ ok f)
unfolding diff
diff_self f h =
    let nothing : diff f f ≡ [] = diff_children-nil (suc (height f)) f 0 h in
    (nothing, rw nothing (unfold apply in refl))

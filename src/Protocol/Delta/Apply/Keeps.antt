-- ===== src/Protocol/Delta/Apply/Keeps.antt =====
-- What each operation does to the nodes of the tree.
use vibesurfer.Prelude.{
  true, sym, ◌∙◌, or_else, ℕ, ◌+◌, Bool, List, Option, none, some, ◌≡◌, ap, arith, ◌==◌, Bool-cases,
  Option-cases, inl, inr, ◌⊎◌,
}
use vibesurfer.Protocol.Error.{ok, err, apply_missing_ref}
use vibesurfer.Protocol.Tree.Nodes.{Attr, Shell, Node, Forest, nil, node}
use vibesurfer.Protocol.Delta.Ops.{add, remove, update, move, replace}
use vibesurfer.Protocol.Delta.Apply.{
  find, modify, below_or_behind, take_subtree, insert_at, leaf_of, apply_replace, apply_one, locate,
}
use vibesurfer.Protocol.Delta.Apply.Count.{tally, count, count_node, count-insert_at}
use vibesurfer.Protocol.Delta.Apply.Take.{
  take_subtree-some, locate-none, has, find-count, take_subtree-ref, take_subtree-none,
  take_subtree-count,
}

-- If a move succeeds, then for every test of a node's own fields as many nodes of the new tree
-- pass it as of the old one: no node is lost, made up or changed.
pub move-count :
    (f : Forest) (r parent : ℕ) (pos : Option ℕ) {g : Forest}
    → apply_one f (move r parent pos) ≡ ok g
    → (p : Shell → Bool) → count p g ≡ count p f
unfolding apply_one
move-count f r parent pos h p = elim (Option-cases (take_subtree f r)) [
  | inl e ↦ absurd (ground arith)
  | inr ((n, g'), e) ↦ omega (
    arith,
    take_subtree-count p f r e,
    count-insert_at p g' parent pos n (rw (e, apply_one) at h),
  )
]

-- If an addition succeeds, no node of the old tree has the new ref, and for every test the new
-- tree has as many passing nodes as the old one and the added node together.
pub add-count :
    (f : Forest) (s : Shell) (parent : ℕ) (pos : Option ℕ) {g : Forest}
    → apply_one f (add s parent pos) ≡ ok g
    → (count (has s.r) f ≡ 0) × ((p : Shell → Bool) → count p g ≡ count p f + tally (p s))
unfolding apply_one
add-count f s parent pos h = elim (Option-cases (find f s.r)) [
  | inl e ↦ (find-count f s.r e, λ p. one_more p (rw (e, apply_one) at h))
  | inr (n, e) ↦ absurd (ground arith)
]
  where
    one_more :
        (p : Shell → Bool) {g : Forest}
        → insert_at f parent pos (leaf_of s) ≡ ok g
        → count p g ≡ count p f + tally (p s)
    one_more p x = unfold count in omega (arith, count-insert_at p f parent pos (leaf_of s) x)

-- `modify` changes the node that `find` finds, and fails where it finds none.
abbrev Swaps : (Shell → Bool) → (Node → Node) → Forest → Option Node → Option Forest → Type 0
Swaps p h f none none = Unit
Swaps p h f (some n) (some g) = count p g + count_node p n ≡ count p f + count_node p (h n)
Swaps p h f _ _ = ⊥

module _ (p : Shell → Bool) (h : Node → Node) where
  Swaps-below_or_behind :
      (s : Shell) (c rest : Forest) (m n : Option Node) (t u : Option Forest)
      → Swaps p h c m t
      → Swaps p h rest n u
      → Swaps p h (node s c rest) (or_else m n) (below_or_behind s c rest t u)
  unfolding count
  Swaps-below_or_behind s c rest (some m) n (some c') u k l = omega arith
  Swaps-below_or_behind s c rest none (some n) none (some rest') k l = omega arith
  Swaps-below_or_behind s c rest none none none none k l = tt
  Swaps-below_or_behind s c rest none n (some c') u k l = absurd k
  Swaps-below_or_behind s c rest (some m) n none u k l = absurd k
  Swaps-below_or_behind s c rest none (some n) none none k l = absurd l
  Swaps-below_or_behind s c rest none none none (some rest') k l = absurd l

  modify-Swaps : (f : Forest) (r : ℕ) → Swaps p h f (find f r) (modify f r h)
  unfolding find modify
  modify-Swaps nil r = tt
  modify-Swaps (node s c rest) r = elim (Bool-cases (s.r == r)) [
    | inl e ↦ rw e (unfold count in omega arith)
    | inr e ↦ rw e (
        Swaps-below_or_behind s c rest (find c r) (find rest r) (modify c r h) (modify rest r h)
          (modify-Swaps c r) (modify-Swaps rest r))
  ]

find-ref : (f : Forest) (r : ℕ) {n : Node} → find f r ≡ some n → n.shell.r ≡ r
unfolding find
find-ref nil r h = ground arith
find-ref (node s c rest) r {n} h = elim (Bool-cases (s.r == r)) [
  | inl e ↦ let got = rw e at h in ground (arith, e, got)
  | inr e ↦ elim (Option-cases (find c r)) [
    | inl x ↦ find-ref rest r (rw x at rw e at h)
    | inr (m, x) ↦ find-ref c r (x ∙ (rw x at rw e at h))
  ]
]

-- The same node with other attributes.
abbrev pub with_attrs : List Attr → Node → Node
with_attrs attrs n = record n { shell = record (n.shell) { attrs = attrs } }

modify-none : (f : Forest) (r : ℕ) (h : Node → Node) → find f r ≡ none → modify f r h ≡ none
modify-none f r h e = elim (Option-cases (modify f r h)) [
  | inl x ↦ x
  | inr (g, x) ↦ absurd (let both = modify-Swaps (λ s. true) h f r in rw (e, x) at both)
]

modify-some :
    (f : Forest) (r : ℕ) (h : Node → Node) {n : Node}
    → find f r ≡ some n
    → (g : Forest) × (modify f r h ≡ some g)
      × ((p : Shell → Bool) → count p g + count_node p n ≡ count p f + count_node p (h n))
modify-some f r h e = elim (Option-cases (modify f r h)) [
  | inl x ↦ absurd (let both = modify-Swaps (λ s. true) h f r in rw (e, x) at both)
  | inr (g, x) ↦ (g, x, λ p. let both = modify-Swaps p h f r in rw (e, x) at both)
]

-- An update fails where no node has the ref. Otherwise it succeeds, and exactly one node of the tree
-- changes, the first one with the ref: for every test of a node's fields, the new tree has as many
-- passing nodes as the old one with that node taken off and the same node with the given attributes,
-- and no others, put in its place.
pub update-count :
    (f : Forest) (r : ℕ) (attrs : List Attr)
    → ((find f r ≡ none) × (apply_one f (update r attrs) ≡ err (apply_missing_ref r)))
      ⊎ ((n : Node) × (g : Forest) × (find f r ≡ some n)
          × (n.shell.r ≡ r)
          × (apply_one f (update r attrs) ≡ ok g)
          × ((p : Shell → Bool)
              → count p g + tally (p n.shell) ≡ count p f + tally (p (with_attrs attrs n).shell)))
unfolding apply_one
update-count f r attrs = elim (Option-cases (find f r)) [
  | inl e ↦ inl (e, rw (modify-none f r (with_attrs attrs) e))
  | inr (n, e) ↦
      let (g, done, counts) = modify-some f r (with_attrs attrs) e in
      inr (n, g, e, find-ref f r e, rw done, λ p. omega (arith, counts p))
]

-- What does not look at attributes is counted as before.
pub update-count_blind :
    (f : Forest) (r : ℕ) (attrs : List Attr) {g : Forest} (p : Shell → Bool)
    → ((s : Shell) → p (record s { attrs = attrs }) ≡ p s)
    → apply_one f (update r attrs) ≡ ok g
    → count p g ≡ count p f
update-count_blind f r attrs {g} p blind h = elim (update-count f r attrs) [
  | inl (none_there, failed) ↦ absurd (let no = sym failed ∙ h in ground (arith, no))
  | inr (n, g', there, same, done, counts) ↦
      let got = sym done ∙ h in
      let is : g' ≡ g = ground (arith, got) in
      let before : count p g' ≡ count p f = omega (arith, counts p, ap tally (blind n.shell)) in
      rw is at before
]

-- A removal never fails: either no node has the ref and the tree is left as it is, or a node with
-- the ref goes, and for every test the old tree has as many passing nodes as that node's subtree
-- and the new tree together.
pub remove-count :
    (f : Forest) (r : ℕ)
    → ((count (has r) f ≡ 0) × (apply_one f (remove r) ≡ ok f))
      ⊎ ((n : Node) × (g : Forest) × (n.shell.r ≡ r)
          × (apply_one f (remove r) ≡ ok g)
          × ((p : Shell → Bool) → count p f ≡ count_node p n + count p g))
unfolding apply_one
remove-count f r = elim (Option-cases (take_subtree f r)) [
  | inl e ↦ inl (take_subtree-none f r e, rw (e, apply_one))
  | inr ((n, g), e) ↦
      inr (n, g, take_subtree-ref f r e, rw (e, apply_one), λ p. take_subtree-count p f r e)
]

apply_replace_ok :
    (f : Forest) (r : ℕ) (s : Shell) (c rest : Forest) {n : Node} {old g : Forest}
    → take_subtree f r ≡ some (n, old)
    → apply_replace f r (node s c rest) ≡ ok g
    → (s.r ≡ r)
      × ((parent : ℕ) × (pos : ℕ) × (insert_at old parent
              (some pos)
              (record { shell = s; children = c })
            ≡ ok g))
unfolding apply_replace
apply_replace_ok f r s c rest e h = elim (Bool-cases (s.r == r)) [
  | inr differs ↦ absurd (ground arith)
  | inl same ↦ elim (Option-cases (locate f r)) [
    | inr ((parent, pos), found) ↦
        (ground arith, (parent, pos, rw (same, e, found, apply_replace) at h))
    | inl lost ↦ absurd (omega (arith, locate-none f r lost, take_subtree-some f r e))
  ]
]

-- If a replacement by a list of subtrees succeeds, the root of the first one has the ref; the
-- first subtree with the ref is taken out, and for every test the new tree has as many passing
-- nodes as what is left and the first new subtree together.
pub replace-count :
    (f : Forest) (r : ℕ) (s : Shell) (c rest : Forest) {g : Forest}
    → apply_one f (replace r (node s c rest)) ≡ ok g
    → (s.r ≡ r)
      × ((n : Node) × (old : Forest) × (take_subtree f r ≡ some (n, old))
          × ((p : Shell → Bool)
              → (count p f ≡ count_node p n + count p old)
                × (count p g ≡ count p old + (tally (p s) + count p c))))
unfolding apply_one
replace-count f r s c rest h = elim (Option-cases (take_subtree f r)) [
  | inl e ↦ absurd (no_subtree e h)
  | inr ((n, old), e) ↦
      let parts = apply_replace_ok f r s c rest e h in
      (
        parts.0,
        (
          n,
          old,
          e,
          λ p. (
            take_subtree-count p f r e,
            count-insert_at p old (parts.1).0 (some (parts.1).1)
                (record { shell = s; children = c }) (parts.1).2,
          ),
        ),
      )
]
  where
    no_subtree :
        {g : Forest} → take_subtree f r ≡ none → apply_replace f r (node s c rest) ≡ ok g → ⊥
    no_subtree e x = unfold apply_replace in ground arith

-- ===== src/Protocol/Delta/Apply/Count.antt =====
-- How many nodes of each kind an operation leaves in the tree.
use vibesurfer.Prelude.{
  ℕ, zero, suc, ◌+◌, ◌-◌, Bool, true, false, Option, none, some, ◌≡◌, arith, ◌==◌, Bool-cases, inl,
  inr, or_else,
}
use vibesurfer.Text.Decimal.{u32_mod}
use vibesurfer.Protocol.Error.{ParseError, ok, ok_or, apply_missing_parent}
use vibesurfer.Protocol.Tree.Nodes.{Shell, Node, Forest, nil, node}
use vibesurfer.Protocol.Delta.Apply.{
  Taken, behind, under, below_or_behind, modify, take_level, take_below, take_subtree, insert,
  insert_pos, insert_at,
}

abbrev pub tally : Bool → ℕ
tally true = 1
tally false = 0

-- The nodes at every level that pass a test of their fields.
unfoldable pub count : (Shell → Bool) → Forest → ℕ
count p nil = 0
count p (node s c rest) = tally (p s) + (count p c + count p rest)

abbrev pub count_node : (Shell → Bool) → Node → ℕ
count_node p n = tally (p n.shell) + count p n.children

-- What is taken and what is left together are what there was.
abbrev pub Splits : (Shell → Bool) → Forest → Taken → Type 0
Splits p f none = Unit
Splits p f (some (n, g)) = count p f ≡ count_node p n + count p g

module _ (p : Shell → Bool) where
  Splits-behind :
      (s : Shell) (c rest : Forest) (t : Taken)
      → Splits p rest t
      → Splits p (node s c rest) (behind s c t)
  unfolding count
  Splits-behind s c rest none h = tt
  Splits-behind s c rest (some (n, g)) h = omega arith

  Splits-under :
      (s : Shell) (c rest : Forest) (t : Taken)
      → Splits p c t
      → Splits p (node s c rest) (under s t rest)
  unfolding count
  Splits-under s c rest none h = tt
  Splits-under s c rest (some (n, g)) h = omega arith

  Splits-or_else :
      (f : Forest) (t u : Taken) → Splits p f t → Splits p f u → Splits p f (or_else t u)
  Splits-or_else f none u h k = k
  Splits-or_else f (some (n, g)) u h k = h

  take_level-Splits : (f : Forest) (r : ℕ) → Splits p f (take_level f r)
  unfolding take_level count
  take_level-Splits nil r = tt
  take_level-Splits (node s c rest) r = elim (Bool-cases (s.r == r)) [
    | inl e ↦ rw e (omega arith)
    | inr e ↦ rw e (Splits-behind s c rest (take_level rest r) (take_level-Splits rest r))
  ]

  take_below-Splits : (f : Forest) (r : ℕ) → Splits p f (take_below f r)
  unfolding take_below
  take_below-Splits nil r = tt
  take_below-Splits (node s c rest) r =
      let inside = or_else (take_level c r) (take_below c r) in
      Splits-or_else (node s c rest) (under s inside rest) (behind s c (take_below rest r))
        (Splits-under s c rest inside (
          Splits-or_else c (take_level c r) (take_below c r) (take_level-Splits c r)
            (take_below-Splits c r)))
        (Splits-behind s c rest (take_below rest r) (take_below-Splits rest r))

  pub take_subtree-Splits : (f : Forest) (r : ℕ) → Splits p f (take_subtree f r)
  unfolding take_subtree
  take_subtree-Splits f r =
      Splits-or_else f (take_level f r) (take_below f r) (take_level-Splits f r)
        (take_below-Splits f r)

  pub count-insert :
      (i : ℕ) (n : Node) (f : Forest) → count p (insert i n f) ≡ count_node p n + count p f
  unfolding insert count
  count-insert zero n f = omega arith
  count-insert (suc i) n nil = omega arith
  count-insert (suc i) n (node s c rest) = omega (arith, count-insert i n rest)

  pub count-insert_pos :
      (pos : Option ℕ) (n : Node) (f : Forest)
      → count p (insert_pos pos n f) ≡ count_node p n + count p f
  unfolding insert_pos
  count-insert_pos none n f = count-insert (u32_mod - 1) n f
  count-insert_pos (some i) n f = count-insert i n f

  -- A write that adds `k` to the count of the node adds `k` to that of the tree.
  abbrev pub Adds : ℕ → Forest → Option Forest → Type 0
  Adds k f none = Unit
  Adds k f (some g) = count p g ≡ count p f + k

  Adds-below_or_behind :
      (k : ℕ) (s : Shell) (c rest : Forest) (t u : Option Forest)
      → Adds k c t
      → Adds k rest u
      → Adds k (node s c rest) (below_or_behind s c rest t u)
  unfolding count
  Adds-below_or_behind k s c rest (some c') u h l = omega arith
  Adds-below_or_behind k s c rest none (some rest') h l = omega arith
  Adds-below_or_behind k s c rest none none h l = tt

  pub modify-Adds :
      (k : ℕ) (f : Forest) (r : ℕ) (g : Node → Node)
      → ((n : Node) → count_node p (g n) ≡ count_node p n + k)
      → Adds k f (modify f r g)
  unfolding modify
  modify-Adds k nil r g h = tt
  modify-Adds k (node s c rest) r g h = elim (Bool-cases (s.r == r)) [
    | inl e ↦ rw e (unfold count in omega (arith, h (record { shell = s; children = c })))
    | inr e ↦ rw e (
        Adds-below_or_behind k s c rest (modify c r g) (modify rest r g) (modify-Adds k c r g h)
          (modify-Adds k rest r g h))
  ]

  pub Adds-ok_or :
      (k : ℕ) (f : Forest) (t : Option Forest) (e : ParseError) {g : Forest}
      → Adds k f t
      → ok_or t e ≡ ok g
      → count p g ≡ count p f + k
  Adds-ok_or k f none e h x = cc
  Adds-ok_or k f (some g') e h x = ground arith

  -- An inserted node is counted once more than before, wherever it goes.
  pub count-insert_at :
      (f : Forest) (parent : ℕ) (pos : Option ℕ) (n : Node) {g : Forest}
      → insert_at f parent pos n ≡ ok g
      → count p g ≡ count p f + count_node p n
  unfolding insert_at
  count-insert_at f parent pos n h = elim (Bool-cases (parent == 0)) [
    | inl e ↦ at_root (rw e at h)
    | inr e ↦
        Adds-ok_or (count_node p n) f _ (apply_missing_parent parent)
          (modify-Adds (count_node p n) f parent
            (λ q. record q { children = insert_pos pos n q.children })
            (λ q. omega (arith, count-insert_pos pos n q.children)))
          (rw e at h)
  ]
    where
      at_root :
          {g : Forest} → ok (insert_pos pos n f) ≡ ok g → count p g ≡ count p f + count_node p n
      at_root x = ground (arith, count-insert_pos pos n f)

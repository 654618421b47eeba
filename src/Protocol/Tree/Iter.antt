-- ===== src/Protocol/Tree/Iter.antt =====
-- `TreeIter`, the iterator of tree.rs. Its stack is a `Vec` whose last element is popped first;
-- here the first node of the forest is the top, so pushing the children in reverse order puts them
-- in front.
use vibesurfer.Prelude.{
  ℕ, zero, suc, ◌+◌, ◌≤◌, List, [], ◌∷◌, ◌++◌, Option, none, some, ◌≡◌, refl, ap, ◌∙◌, arith,
  append_assoc,
}
use vibesurfer.Protocol.Tree.Nodes.{Forest, Node, nil, node, append, size}

abbrev pub Stack : Type 0
Stack = Forest

unfoldable pub next : Stack → Option (Node × Stack)
unfolding append
next nil = none
next (node s c rest) = some (record { shell = s; children = c }, append c rest)

-- What `n` calls of `next` give at most.
unfoldable pub collect : ℕ → Stack → List Node
unfolding next
collect zero st = []
collect (suc n) st = elim (next st) [ none ↦ [] | some (n', st') ↦ n' ∷ collect n st' ]

-- The nodes of a forest with their children, each before its descendants.
unfoldable pub nodes : Forest → List Node
nodes nil = []
nodes (node s c rest) = record { shell = s; children = c } ∷ (nodes c ++ nodes rest)

nodes-append : (f g : Forest) → nodes (append f g) ≡ nodes f ++ nodes g
unfolding nodes append
nodes-append nil g = refl
nodes-append (node s c rest) g = rw (nodes-append rest g, append_assoc)

size-append : (f g : Forest) → size (append f g) ≡ size f + size g
unfolding size append
size-append nil g = omega arith
size-append (node s c rest) g = omega (arith, size-append rest g)

-- If at least as many calls of the iterator are made as the forest has nodes, they yield every
-- node once, in pre-order, and nothing more.
pub collect-nodes : (n : ℕ) (f : Forest) → size f ≤ n → collect n f ≡ nodes f
unfolding collect nodes size
collect-nodes zero nil h = refl
collect-nodes (suc n) nil h = refl
collect-nodes zero (node s c rest) h = absurd (omega arith)
collect-nodes (suc n) (node s c rest) h =
    ap (◌∷◌ (record { shell = s; children = c }))
      (collect-nodes n (append c rest) (omega (arith, size-append c rest)) ∙ nodes-append c rest)

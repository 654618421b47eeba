-- ===== src/Protocol/Delta/Examples.antt =====
-- Tests of the delta operations, and instances of their theorems.
use vibesurfer.Prelude.{ℕ, ◌+◌, ◌<◌, Bool, List, [], ◌∷◌, none, some, ◌≡◌, refl, arith, All, ◌⊎◌}
use vibesurfer.Text.{codes}
use vibesurfer.Protocol.Error.{Result, ok, err, apply_duplicate_ref, apply_missing_ref}
use vibesurfer.Protocol.Codes.{btn}
use vibesurfer.Protocol.Tree.Nodes.{Shell, Forest, Node, nil, node}
use vibesurfer.Protocol.Tree.Line
use vibesurfer.Protocol.Delta.Ops.{DeltaOp, add, remove, update, move, replace, encode}
use vibesurfer.Protocol.Delta.Parse.{parse}
use vibesurfer.Protocol.Delta.Apply.{find, apply, apply_one, take_subtree, saturate}
use vibesurfer.Protocol.Delta.Apply.Count.{count, count_node, tally}
use vibesurfer.Protocol.Delta.Apply.Take.{has}
use vibesurfer.Protocol.Delta.Apply.Keeps.{
  with_attrs, move-count, add-count, update-count, remove-count, replace-count,
}
use vibesurfer.Protocol.Delta.Apply.Distinct.{IsDistinct, IsFresh, apply-IsDistinct}
use vibesurfer.Protocol.Delta.Lines.{IsWire}
use vibesurfer.Protocol.Delta.RoundTrip.{parse-encode_ops}
use vibesurfer.Protocol.Delta.Diff.Self.{AllSiblings, diff_self}
use vibesurfer.Protocol.Delta.Diff.{diff, refs}

abbrev item : ℕ → Shell
item r = record { r = r; role = btn; label = codes "x"; ops = []; attrs = [] }

abbrev row : List ℕ → Forest
row [] = nil
row (r ∷ rs) = node (item r) nil (row rs)

-- The moves of a reordered level, applied one after the other, do not give its order.
reorder : List DeltaOp
unfolding diff
reorder = diff (row (1 ∷ 2 ∷ 3 ∷ 4 ∷ 5 ∷ [])) (row (3 ∷ 2 ∷ 5 ∷ 4 ∷ 1 ∷ []))

abbrev result_refs : Result Forest → List ℕ
result_refs (ok f) = refs f
result_refs (err e) = []

reordered : result_refs (apply (row (1 ∷ 2 ∷ 3 ∷ 4 ∷ 5 ∷ [])) reorder) ≡ 3 ∷ 5 ∷ 2 ∷ 4 ∷ 1 ∷ []
unfolding apply reorder saturate
reordered = refl

-- A node that goes under an earlier sibling is added before it is removed.
nested :
    let a = node (item 1) nil (node (item 2) (row (3 ∷ [])) nil) in
    let b = node (item 1) (row (3 ∷ [])) (node (item 2) nil nil) in
    apply a (diff a b) ≡ err (apply_duplicate_ref 3)
unfolding apply diff
nested = refl

-- `1` with the children `2` and `3`.
abbrev tree : Forest
tree = node (item 1) (row (2 ∷ 3 ∷ [])) nil

abbrev moved : Forest
moved = node (item 1) (row (3 ∷ 2 ∷ [])) nil

tree-IsDistinct : IsDistinct tree
unfolding count
tree-IsDistinct x = ground arith

moves_tree : apply_one tree (move 2 1 none) ≡ ok moved
unfolding apply_one
moves_tree = refl

move-count_example : count (has 2) moved ≡ count (has 2) tree
move-count_example = move-count tree 2 1 none {g = moved} moves_tree (has 2)

abbrev grown : Forest
grown = node (item 1) (row (2 ∷ 4 ∷ 3 ∷ [])) nil

grows_tree : apply_one tree (add (item 4) 1 (some 1)) ≡ ok grown
unfolding apply_one
grows_tree = refl

add-count_example :
    (count (has 4) tree ≡ 0)
    × ((p : Shell → Bool) → count p grown ≡ count p tree + tally (p (item 4)))
add-count_example = add-count tree (item 4) 1 (some 1) {g = grown} grows_tree

abbrev marked_item : Shell
marked_item = record (item 2) { attrs = (codes "k", codes "v") ∷ [] }

abbrev marked : Forest
marked = node (item 1) (node marked_item nil (row (3 ∷ []))) nil

marks_tree : apply_one tree (update 2 ((codes "k", codes "v") ∷ [])) ≡ ok marked
unfolding apply_one
marks_tree = refl

update-count_example :
    ((find tree 2 ≡ none)
      × (apply_one tree (update 2 ((codes "k", codes "v") ∷ [])) ≡ err (apply_missing_ref 2)))
    ⊎ ((n : Node) × (g : Forest) × (find tree 2 ≡ some n)
        × (n.shell.r ≡ 2)
        × (apply_one tree (update 2 ((codes "k", codes "v") ∷ [])) ≡ ok g)
        × ((p : Shell → Bool)
            → count p g + tally (p n.shell)
              ≡ count p tree + tally (p (with_attrs ((codes "k", codes "v") ∷ []) n).shell)))
update-count_example = update-count tree 2 ((codes "k", codes "v") ∷ [])

abbrev pruned : Forest
pruned = node (item 1) (row (3 ∷ [])) nil

prunes_tree : apply_one tree (remove 2) ≡ ok pruned
unfolding apply_one
prunes_tree = refl

remove-count_example :
    ((count (has 2) tree ≡ 0) × (apply_one tree (remove 2) ≡ ok tree))
    ⊎ ((n : Node) × (g : Forest) × (n.shell.r ≡ 2)
        × (apply_one tree (remove 2) ≡ ok g)
        × ((p : Shell → Bool) → count p tree ≡ count_node p n + count p g))
remove-count_example = remove-count tree 2

abbrev swapped : Forest
swapped = node (item 1) (node (item 2) (row (5 ∷ [])) (row (3 ∷ []))) nil

swaps_tree : apply_one tree (replace 2 (node (item 2) (row (5 ∷ [])) nil)) ≡ ok swapped
unfolding apply_one saturate
swaps_tree = refl

replace-count_example :
    ((item 2).r ≡ 2)
    × ((n : Node) × (old : Forest) × (take_subtree tree 2 ≡ some (n, old))
        × ((p : Shell → Bool)
            → (count p tree ≡ count_node p n + count p old)
              × (count p swapped ≡ count p old + (tally (p (item 2)) + count p (row (5 ∷ []))))))
replace-count_example = replace-count tree 2 (item 2) (row (5 ∷ [])) nil {g = swapped} swaps_tree

old-pruned : (n : Node) (old : Forest) → take_subtree tree 2 ≡ some (n, old) → old ≡ pruned
unfolding take_subtree
old-pruned n old h = cc

swap-IsFresh : IsFresh tree (replace 2 (node (item 2) (row (5 ∷ [])) nil))
swap-IsFresh n old h x = rw (old-pruned n old h) (unfold count in ground arith)

abbrev steps : List DeltaOp
steps = replace 2 (node (item 2) (row (5 ∷ [])) nil) ∷ move 5 1 (some 0) ∷ remove 3 ∷ []

abbrev stepped : Forest
stepped = node (item 1) (row (5 ∷ 2 ∷ [])) nil

takes_steps : apply tree steps ≡ ok stepped
unfolding apply saturate
takes_steps = refl

apply-IsDistinct_example : IsDistinct stepped
apply-IsDistinct_example =
    apply-IsDistinct steps tree {g = stepped} tree-IsDistinct
      (swap-IsFresh, (λ g h. (tt, (λ g' h'. (tt, (λ g'' h''. tt)))))) takes_steps

item-IsWire : (r : ℕ) → r < 100 → Line.IsWire (item r)
item-IsWire r h = record {
  ref_fits = omega arith;
  label_fits = refl;
  ops_sorted = tt;
  attrs_fit = tt;
  attrs_sorted = tt;
}

abbrev stream : List DeltaOp
stream =
    add (item 4) 1 (some 2)
    ∷ replace 2 (node (item 2) (row (5 ∷ [])) nil)
    ∷ update 3 ((codes "k", codes "a b") ∷ [])
    ∷ move 3 1 none
    ∷ remove 5
    ∷ []

stream-IsWire : All IsWire stream
stream-IsWire = (
  (item-IsWire 4 (omega arith), omega arith, omega arith),
  (
    (
      omega arith,
      (λ e. cc),
      (item-IsWire 2 (omega arith), (item-IsWire 5 (omega arith), tt, tt), tt),
    ),
    (
      (omega arith, (((λ e. cc), refl, refl), tt), (tt, tt)),
      ((omega arith, omega arith, tt), (omega arith, tt)),
    ),
  ),
)

parse-encode_ops_example : parse (encode stream) ≡ ok stream
parse-encode_ops_example = parse-encode_ops stream stream-IsWire

diff_self_example : (diff tree tree ≡ []) × (apply tree (diff tree tree) ≡ ok tree)
diff_self_example = diff_self tree (unfold AllSiblings in (refl, (refl, tt, (refl, tt, tt)), tt))

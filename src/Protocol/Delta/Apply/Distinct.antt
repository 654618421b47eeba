-- ===== src/Protocol/Delta/Apply/Distinct.antt =====
-- Refs stay distinct under every operation.
use vibesurfer.Prelude.{
  ℕ, ◌+◌, ◌≤◌, Bool, true, List, [], ◌∷◌, none, some, ◌≡◌, refl, ap, ◌∙◌, sym, arith, Bool-cases,
  inl, inr,
}
use vibesurfer.Protocol.Error.{Result, ok, err, >>=-eq-ok}
use vibesurfer.Protocol.Tree.Nodes.{Shell, Node, Forest, nil, node}
use vibesurfer.Protocol.Delta.Ops.{DeltaOp, add, remove, update, move, replace}
use vibesurfer.Protocol.Delta.Apply.{find, take_subtree, apply_replace, apply_one, apply}
use vibesurfer.Protocol.Delta.Apply.Count.{tally, count}
use vibesurfer.Protocol.Delta.Apply.Keeps.{
  move-count, add-count, update-count_blind, remove-count, replace-count,
}
use vibesurfer.Protocol.Delta.Apply.Take.{tally-has, has, count-find}

-- No ref stands on two nodes.
abbrev pub IsDistinct : Forest → Type 0
IsDistinct f = (r : ℕ) → count (has r) f ≤ 1

abbrev count_result : (Shell → Bool) → Result Forest → ℕ
count_result p (ok f) = count p f
count_result p (err e) = 0

same-IsDistinct : {f g : Forest} → IsDistinct f → f ≡ g → IsDistinct g
same-IsDistinct d e x = rw (← e) (d x)

-- For a replacement: the refs of the new subtree are distinct, and none of them stands outside the
-- subtree that it replaces.
abbrev pub IsFresh : Forest → DeltaOp → Type 0
IsFresh f (replace r nil) = Unit
IsFresh f (replace r (node s c rest)) =
    (n : Node) (old : Forest)
    → take_subtree f r ≡ some (n, old)
    → (x : ℕ) → count (has x) old + (tally (has x s) + count (has x) c) ≤ 1
IsFresh f _ = Unit

replace-IsDistinct :
    (f : Forest) (r : ℕ) (subtree : Forest) {g : Forest}
    → IsFresh f (replace r subtree)
    → apply_one f (replace r subtree) ≡ ok g
    → IsDistinct g
replace-IsDistinct f r nil k h x = absurd (unfold apply_one apply_replace in cc)
replace-IsDistinct f r (node s c rest) k h x =
    let parts = (replace-count f r s c rest h).1 in
    omega (arith, k (parts.0) (parts.1) (parts.2) x, ((parts.3) (has x)).1)

-- If no two nodes share a ref and one operation succeeds, no two nodes of the result share one; a
-- replacement has the condition that the refs of its subtree are distinct and that none stands
-- outside of the subtree it replaces.
pub apply_one-IsDistinct :
    (f : Forest) (op : DeltaOp) {g : Forest}
    → IsDistinct f
    → IsFresh f op
    → apply_one f op ≡ ok g
    → IsDistinct g
apply_one-IsDistinct f (add s parent pos) d k h x =
    let (absent, more) = add-count f s parent pos h in
    elim (Bool-cases (has x s)) [
      | inl e ↦ omega (arith, more (has x), ap tally e, same_ref x s e, absent_at x s e absent)
      | inr e ↦ omega (arith, more (has x), ap tally e, d x)
    ]
  where
    same_ref : (x : ℕ) (s : Shell) → has x s ≡ true → s.r ≡ x
    same_ref x s e = ground arith

    absent_at : (x : ℕ) (s : Shell) → has x s ≡ true → count (has s.r) f ≡ 0 → count (has x) f ≡ 0
    absent_at x s e a = rw (same_ref x s e) at a
apply_one-IsDistinct f (remove r) d k h x = elim (remove-count f r) [
  | inl (absent, same) ↦ omega (arith, d x, ap (count_result (has x)) (sym h ∙ same))
  | inr (n, g', _, taken, counts) ↦
      omega (arith, d x, counts (has x), ap (count_result (has x)) (sym h ∙ taken))
]
apply_one-IsDistinct f (update r attrs) d k h x =
    omega (arith, d x, update-count_blind f r attrs (has x) (λ s. refl) h)
apply_one-IsDistinct f (move r parent pos) d k h x =
    omega (arith, d x, move-count f r parent pos h (has x))
apply_one-IsDistinct f (replace r subtree) d k h x = replace-IsDistinct f r subtree k h x

-- If no two nodes share a ref, then after a removal no node is found under the ref.
pub find-remove :
    (f : Forest) (r : ℕ) {g : Forest}
    → IsDistinct f
    → apply_one f (remove r) ≡ ok g
    → find g r ≡ none
find-remove f r {g} d h = count-find g r (elim (remove-count f r) [
  | inl (absent, same) ↦ omega (arith, absent, ap (count_result (has r)) (sym h ∙ same))
  | inr (n, g', e, taken, counts) ↦
      omega (
        arith,
        d r,
        counts (has r),
        tally-has r n.shell e,
        ap (count_result (has r)) (sym h ∙ taken),
      )
])

-- What a sequence of operations needs, each at the tree that it meets.
abbrev pub AllFresh : Forest → List DeltaOp → Type 0
AllFresh f [] = Unit
AllFresh f (op ∷ ops) = IsFresh f op × ((g : Forest) → apply_one f op ≡ ok g → AllFresh g ops)

-- If no two nodes share a ref and `apply` succeeds on a list of operations, no two nodes of the
-- result share one; each replacement has the condition, at the tree that it meets, that the refs
-- of its subtree are distinct and that none stands outside of the subtree it replaces.
pub apply-IsDistinct :
    (ops : List DeltaOp) (f : Forest) {g : Forest}
    → IsDistinct f
    → AllFresh f ops
    → apply f ops ≡ ok g
    → IsDistinct g
unfolding apply
apply-IsDistinct [] f d k h = same-IsDistinct d (ground arith)
apply-IsDistinct (op ∷ ops) f d k h =
    let (f', first, rest) = >>=-eq-ok (apply_one f op) (λ x. apply x ops) h in
    apply-IsDistinct ops f' (apply_one-IsDistinct f op d k.0 first) (k.1 f' first) rest

-- ===== src/Protocol/Delta/RoundTrip.antt =====
-- A stream of operations is read back from its encoding.
use vibesurfer.Prelude.{
  ℕ, zero, suc, ◌+◌, ◌≤◌, ◌<◌, false, List, [], ◌∷◌, ◌++◌, ◌≡◌, refl, ap, ◌∙◌, ◌≢◌, arith, ◌==◌,
  All, map, append_assoc, length, drop, length-append,
}
use mathlib.Core.List.{map-append}
use mathlib.Core.Path.{ap₂}
use vibesurfer.Text.{Text, trim, strip_prefix}
use vibesurfer.Text.Laws.{trim-ne-nil}
use vibesurfer.Text.Decimal
use vibesurfer.Protocol.Error.{ok}
use vibesurfer.Protocol.Tokenize.{split_indent}
use vibesurfer.Protocol.Tree
use vibesurfer.Protocol.Tree.Nodes.{Shell, Forest, nil, node}
use vibesurfer.Protocol.Tree.{Entry, indent, encode_shell, encode_nodes, encode_attrs, is_empty}
use vibesurfer.Protocol.Tree.Assemble.{entries}
use vibesurfer.Protocol.Tree.Line.Fields.{parse_ref-display}
use vibesurfer.Protocol.Tree.RoundTrip.{
  parse-encode_tree, AllWire, entry_line, split_indent-line, line-visible, ne-nil-is_empty,
}
use vibesurfer.Protocol.Delta.Ops.{DeltaOp, add, remove, update, move, replace, encode_head, encode}
use vibesurfer.Protocol.Delta.Parse.{
  take_indented, dedent, subtree_op, replace_lines, parse_replace, parse_sigil, parse_line,
  parse_within, parse,
}
use vibesurfer.Protocol.Delta.Places.{Fits, trim-display}
use vibesurfer.Protocol.Delta.Heads.{
  encode_head-add, parse_add-head, parse_remove-head, parse_move-head, parse_update-head,
}
use vibesurfer.Protocol.Delta.Lines.{
  IsWire, inner, all_lines, lines-encode, split_indent_sigil, op-Sigil,
}

head_depth : (op : DeltaOp) → split_indent (encode_head op) ≡ (0, encode_head op)
head_depth op = let g = op-Sigil op in rw g.splits (split_indent_sigil g.sigil g.body g.no_space)

head_visible : (op : DeltaOp) → is_empty (trim (encode_head op)) ≡ false
head_visible op =
    let g = op-Sigil op in
    rw g.splits
      (ne-nil-is_empty (trim (g.sigil ∷ g.body)) (trim-ne-nil (g.sigil ∷ g.body) (rw g.solid)))

-- Lines at which the lines of a subtree end.
abbrev StopsAt : List Text → Type 0
StopsAt [] = Unit
StopsAt (raw ∷ rest) = (is_empty (trim raw) ≡ false) × ((split_indent raw).0 ≡ 0)

all_lines-StopsAt : (ops : List DeltaOp) → StopsAt (all_lines ops)
unfolding all_lines
all_lines-StopsAt [] = tt
all_lines-StopsAt (op ∷ ops) = (head_visible op, rw (head_depth op))

abbrev IsInner : List Entry → Type 0
IsInner = All (λ e. (e.0 == 0) ≡ false)

IsInner-append : (es fs : List Entry) → IsInner es → IsInner fs → IsInner (es ++ fs)
IsInner-append [] fs h k = k
IsInner-append (e ∷ es) fs h k = (h.0, IsInner-append es fs h.1 k)

entries-IsInner : (f : Forest) (d : ℕ) → IsInner (entries (suc d) f)
unfolding entries
entries-IsInner nil d = tt
entries-IsInner (node s c rest) d = (
  ground arith,
  IsInner-append (entries (suc (suc d)) c) (entries (suc d) rest) (entries-IsInner c (suc d))
      (entries-IsInner rest d),
)

take_indented_stop : (ls : List Text) → StopsAt ls → take_indented ls ≡ ([], 0)
unfolding take_indented
take_indented_stop [] h = refl
take_indented_stop (raw ∷ rest) h = rw (h.0, h.1)

take_indented-entries :
    (es : List Entry) (ls : List Text)
    → IsInner es
    → StopsAt ls
    → take_indented (map entry_line es ++ ls) ≡ (map entry_line es, length es)
unfolding take_indented
take_indented-entries [] ls h k = take_indented_stop ls k
take_indented-entries ((d, s) ∷ es) ls h k = rw (
  ne-nil-is_empty (trim (entry_line (d, s))) (trim-ne-nil (entry_line (d, s)) (line-visible d s)),
  split_indent-line d s,
  h.0,
  take_indented-entries es ls h.1 k,
)

drop-entries : (es : List Entry) (ls : List Text) → drop (length es) (map entry_line es ++ ls) ≡ ls
drop-entries [] ls = refl
drop-entries (e ∷ es) ls = drop-entries es ls

dedent-append : (ls ms : List Text) → dedent (ls ++ ms) ≡ dedent ls ++ dedent ms
unfolding dedent
dedent-append [] ms = refl
dedent-append (l ∷ ls) ms = simp (dedent-append ls ms, append_assoc)

dedent_line :
    (d : ℕ) (s : Shell) (ls : List Text)
    → dedent (entry_line (suc d, s) ∷ ls) ≡ indent d ++ (encode_shell s ++ (b'\n' ∷ dedent ls))
unfolding dedent indent strip_prefix
dedent_line d s ls = append_assoc (indent d) (encode_shell s) (b'\n' ∷ dedent ls)

dedent-entries :
    (f : Forest) (d : ℕ) → dedent (map entry_line (entries (suc d) f)) ≡ encode_nodes d f
unfolding entries encode_nodes
dedent-entries nil d = unfold dedent in refl
dedent-entries (node s c rest) d =
    dedent_line d s (map entry_line (entries (suc (suc d)) c ++ entries (suc d) rest))
    ∙ ap (λ x. indent d ++ (encode_shell s ++ (b'\n' ∷ x)))
        (ap dedent (map-append entry_line (entries (suc (suc d)) c) (entries (suc d) rest))
          ∙ dedent-append (map entry_line (entries (suc (suc d)) c))
              (map entry_line (entries (suc d) rest))
          ∙ ap₂ ◌++◌ (dedent-entries c (suc d)) (dedent-entries rest d))

replace_lines_nonempty :
    (r n : ℕ) (l : Text) (ls : List Text) (f : Forest)
    → f ≢ nil
    → Tree.parse (dedent (l ∷ ls)) ≡ ok f
    → replace_lines r n (l ∷ ls) ≡ ok (replace r f)
unfolding replace_lines subtree_op
replace_lines_nonempty r n l ls nil ne e = absurd (ne refl)
replace_lines_nonempty r n l ls (node s c rest) ne e = rw e

replace_lines-entries :
    (r n : ℕ) (f : Forest)
    → f ≢ nil
    → AllWire f
    → replace_lines r n (map entry_line (entries 1 f)) ≡ ok (replace r f)
unfolding entries encode_nodes Tree.encode
replace_lines-entries r n nil ne w = absurd (ne refl)
replace_lines-entries r n (node s c rest) ne w =
    replace_lines_nonempty r n (entry_line (1, s)) (map entry_line (entries 2 c ++ entries 1 rest))
      (node s c rest) ne
      (ap Tree.parse (dedent-entries (node s c rest) 0) ∙ parse-encode_tree (node s c rest) w)

parse_replace-head :
    (r n : ℕ) (f : Forest) (ls : List Text)
    → Fits r
    → f ≢ nil
    → AllWire f
    → StopsAt ls
    → parse_replace (b'*' ∷ Decimal.display r) (map entry_line (entries 1 f) ++ ls) n
      ≡ ok (replace r f, length (entries 1 f))
unfolding parse_replace
parse_replace-head r n f ls h ne w k = rw (
  trim-display r,
  parse_ref-display r h,
  take_indented-entries (entries 1 f) ls (entries-IsInner f 0) k,
  replace_lines-entries r n f ne w,
)

parse_sigil-head :
    (n : ℕ) (op : DeltaOp) (ls : List Text)
    → IsWire op
    → StopsAt ls
    → parse_sigil n (encode_head op) (encode_head op) (map entry_line (inner op) ++ ls)
      ≡ ok (op, length (inner op))
unfolding parse_sigil inner
parse_sigil-head n (add s parent pos) ls h k =
    rw (encode_head-add s parent pos, parse_add-head n s parent pos h.0 h.1 h.2)
parse_sigil-head n (remove r) ls h k = unfold encode_head in rw (parse_remove-head n r h)
parse_sigil-head n (update r attrs) ls h k =
    unfold encode_head in rw (parse_update-head n r attrs h.0 h.1 h.2)
parse_sigil-head n (move r parent pos) ls h k =
    unfold encode_head in rw (parse_move-head n r parent pos h.0 h.1 h.2)
parse_sigil-head n (replace r f) ls h k =
    unfold encode_head in parse_replace-head r n f ls h.0 h.1 h.2 k

parse_line-head :
    (n : ℕ) (op : DeltaOp) (ls : List Text)
    → IsWire op
    → StopsAt ls
    → parse_line n (encode_head op) (map entry_line (inner op) ++ ls) ≡ ok (op, length (inner op))
unfolding parse_line
parse_line-head n op ls h k = rw (head_depth op) (parse_sigil-head n op ls h k)

length-all_lines :
    (op : DeltaOp) (ops : List DeltaOp) → length (all_lines ops) < length (all_lines (op ∷ ops))
unfolding all_lines
length-all_lines op ops =
    omega (arith, length-append {0} (map entry_line (inner op)) (all_lines ops))

parse_within-all_lines :
    (ops : List DeltaOp) (fuel n : ℕ)
    → All IsWire ops
    → length (all_lines ops) ≤ fuel
    → parse_within fuel n (all_lines ops) ≡ ok ops
unfolding parse_within all_lines
parse_within-all_lines [] zero n h k = refl
parse_within-all_lines [] (suc fuel) n h k = refl
parse_within-all_lines (op ∷ ops) zero n h k = absurd (omega arith)
parse_within-all_lines (op ∷ ops) (suc fuel) n h k = rw (
  head_visible op,
  parse_within,
  parse_line-head n op (all_lines ops) h.0 (all_lines-StopsAt ops),
  drop-entries (inner op) (all_lines ops),
  parse_within-all_lines ops fuel (n + 1 + length (inner op)) h.1
      (omega (arith, length-all_lines op ops)),
)

-- Parsing the encoding of a list of delta operations gives the list back, if every number is below
-- 2^32, the shells, attributes and subtrees are ones that the tree format carries, and no
-- replacement's subtree is empty.
pub parse-encode_ops : (ops : List DeltaOp) → All IsWire ops → parse (encode ops) ≡ ok ops
unfolding parse
parse-encode_ops ops h =
    rw (lines-encode ops h) (parse_within-all_lines ops (length (all_lines ops)) 1 h (omega arith))

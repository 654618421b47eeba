-- ===== src/Protocol/Delta/Parse.antt =====
-- crates/vs-protocol/src/delta/mod.rs: the parser of a stream of operations.
use vibesurfer.Prelude.{
  ℕ, zero, suc, ◌+◌, true, false, List, [], ◌∷◌, ◌++◌, Option, none, some, length, ◌==◌,
  if◌then◌else◌, drop,
}
use vibesurfer.Text.{Text, lines, trim, split_once, strip_prefix}
use vibesurfer.Text.Decimal
use vibesurfer.Text.Decimal.{u32_mod}
use vibesurfer.Protocol.Error.{
  Result, ok, err, indent_jump, malformed_line, invalid_attribute, invalid_position, ◌>>=◌, ok_or,
}
use vibesurfer.Protocol.Codes.{from_str, role_code}
use vibesurfer.Protocol.Tokenize.{tokens, strip_quotes, split_indent}
use vibesurfer.Protocol.Tree
use vibesurfer.Protocol.Tree.Nodes.{Attr, Shell, Forest, nil, node}
use vibesurfer.Protocol.Tree.{parse_ref, parse_tail, parse_attr, is_empty}
use vibesurfer.Protocol.Delta.Ops.{DeltaOp, add, remove, update, move, replace}

abbrev pub Place : Type 0
Place = ℕ × ℕ × Option ℕ

unfoldable pub parse_pos : Option Text → Result (Option ℕ)
unfolding Decimal.parse
parse_pos none = ok none
parse_pos (some s) = do p ← ok_or (Decimal.parse u32_mod s) (invalid_position s); ok (some p)

abbrev pub pos_parts : Text → Option (Text × Text) → Text × Option Text
pos_parts s none = (s, none)
pos_parts s (some (l, r)) = (l, some r)

-- The parent, and the position behind a colon.
abbrev pub split_pos : Text → Text × Option Text
split_pos s = pos_parts s (split_once b':' s)

unfoldable pub parse_ref_at_parent : Text → ℕ → Result Place
parse_ref_at_parent s line_no = do
  (r_part, parent_part) ← ok_or (split_once b'@' s) (malformed_line line_no "expected ref@parent")
  r ← parse_ref r_part
  let parts = split_pos parent_part
  parent ← parse_ref parts.0
  pos ← parse_pos parts.1
  ok (r, parent, pos)

unfoldable pub add_fields : Place → Text → Text → List Text → Result DeltaOp
add_fields (r, parent, pos) role_tok label_tok toks = do
  role ← from_str role_code role_tok
  (ops, attrs) ← parse_tail invalid_attribute toks [] []
  let shell : Shell = record {
    r = r;
    role = role;
    label = strip_quotes label_tok;
    ops = ops;
    attrs = attrs;
  }
  ok (add shell parent pos)

unfoldable pub add_tokens : ℕ → Place → List Text → Result DeltaOp
add_tokens line_no place [] = err (malformed_line line_no "missing role")
add_tokens line_no place (role_tok ∷ []) = err (malformed_line line_no "missing label")
add_tokens line_no place (role_tok ∷ label_tok ∷ toks) = add_fields place role_tok label_tok toks

unfoldable pub parse_add : ℕ → List Text → Result DeltaOp
parse_add line_no [] = err (malformed_line line_no "missing ref@parent")
parse_add line_no (head ∷ toks) = do
  place ← parse_ref_at_parent head line_no
  add_tokens line_no place toks

unfoldable pub parse_remove : ℕ → Text → Result DeltaOp
parse_remove line_no [] = err (malformed_line line_no "missing ref")
parse_remove line_no (c ∷ trimmed) = do r ← parse_ref (c ∷ trimmed); ok (remove r)

unfoldable pub parse_attrs : List Text → List Attr → Result (List Attr)
parse_attrs [] attrs = ok attrs
parse_attrs (tok ∷ toks) attrs = do
  (k, v) ← ok_or (split_once b'=' tok) (invalid_attribute tok)
  attrs' ← parse_attr tok k v attrs
  parse_attrs toks attrs'

unfoldable pub parse_update : ℕ → List Text → Result DeltaOp
parse_update line_no [] = err (malformed_line line_no "missing ref")
parse_update line_no (r_tok ∷ toks) = do
  r ← parse_ref r_tok
  attrs ← parse_attrs toks []
  ok (update r attrs)

unfoldable pub parse_move : ℕ → Text → Result DeltaOp
parse_move line_no [] = err (malformed_line line_no "missing ref@parent")
parse_move line_no (c ∷ trimmed) = do
  (r, parent, pos) ← parse_ref_at_parent (c ∷ trimmed) line_no
  ok (move r parent pos)

-- The lines under a `*` header that are indented, and how many lines that takes, blank ones
-- included.
unfoldable pub take_indented : List Text → List Text × ℕ
take_indented [] = ([], 0)
take_indented (raw ∷ rest) =
    let (inner, consumed) = take_indented rest in
    if is_empty (trim raw)
    then (inner, suc consumed)
    else if (split_indent raw).0 == 0
    then ([], 0)
    else (raw ∷ inner, suc consumed)

-- One level of indent off each line.
unfoldable pub dedent : List Text → Text
dedent [] = []
dedent (l ∷ ls) =
    elim (strip_prefix (b' ' ∷ b' ' ∷ []) l) [ none ↦ l | some t ↦ t ] ++ (b'\n' ∷ dedent ls)

unfoldable pub subtree_op : ℕ → ℕ → Forest → Result DeltaOp
subtree_op r line_no nil = err (malformed_line line_no "Replace subtree empty")
subtree_op r line_no (node s c rest) = ok (replace r (node s c rest))

unfoldable pub replace_lines : ℕ → ℕ → List Text → Result DeltaOp
replace_lines r line_no [] = err (malformed_line line_no "Replace missing subtree")
replace_lines r line_no (l ∷ ls) = do
  subtree ← Tree.parse (dedent (l ∷ ls))
  subtree_op r line_no subtree

abbrev pub tail : Text → Text
tail [] = []
tail (c ∷ cs) = cs

-- The operation, and how many lines behind the header it takes.
unfoldable pub parse_replace : Text → List Text → ℕ → Result (DeltaOp × ℕ)
parse_replace header rest line_no = do
  r ← parse_ref (trim (tail header))
  let taken = take_indented rest
  op ← replace_lines r line_no taken.0
  ok (op, taken.1)

-- The operation on a line by its sigil; `raw` is the whole line, `rest` the lines behind it.
unfoldable pub parse_sigil : ℕ → Text → Text → List Text → Result (DeltaOp × ℕ)
parse_sigil line_no raw [] rest = err (malformed_line line_no "empty delta line")
parse_sigil line_no raw (c ∷ body) rest =
    if c == b'+'
    then (parse_add line_no (tokens body) >>= λ op. ok (op, 0))
    else if c == b'-'
    then (parse_remove line_no (trim body) >>= λ op. ok (op, 0))
    else if c == b'~'
    then (parse_update line_no (tokens body) >>= λ op. ok (op, 0))
    else if c == b'>'
    then (parse_move line_no (trim body) >>= λ op. ok (op, 0))
    else if c == b'*'
    then parse_replace raw rest line_no
    else err (malformed_line line_no "unknown delta sigil")

unfoldable pub parse_line : ℕ → Text → List Text → Result (DeltaOp × ℕ)
parse_line line_no raw rest =
    let (depth, body) = split_indent raw in
    if depth == 0 then parse_sigil line_no raw body rest else err (indent_jump 0 depth line_no)

-- The loop over the lines; each round takes a line at least.
unfoldable pub parse_within : ℕ → ℕ → List Text → Result (List DeltaOp)
parse_within fuel line_no [] = ok []
parse_within zero line_no (raw ∷ rest) = ok []
parse_within (suc fuel) line_no (raw ∷ rest) = elim (is_empty (trim raw)) [
  | true ↦ parse_within fuel (suc line_no) rest
  | false ↦ parse_line line_no raw rest >>= λ parsed.
      parse_within fuel (line_no + 1 + parsed.1) (drop parsed.1 rest) >>= λ ops. ok (parsed.0 ∷ ops)
]

unfoldable pub parse : Text → Result (List DeltaOp)
parse input = let ls = lines input in parse_within (length ls) 1 ls

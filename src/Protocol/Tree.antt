-- ===== src/Protocol/Tree.antt =====
-- crates/vs-protocol/src/tree.rs. A `Vec<Node>` is a `Forest`: a cons cell holds the fields of the
-- first node, its children, and the nodes that follow it.
pub mod Nodes
pub mod Assemble
pub mod Line
pub mod RoundTrip
mod Examples
pub mod Iter
use vibesurfer.Prelude.{
  ℕ, zero, suc, ◌+◌, Bool, true, false, not, ◌&&◌, ◌||◌, List, [], ◌∷◌, ◌++◌, Option, none, some,
  ltb, leb, ◌==◌, if◌then◌else◌, any, all, length, map,
}
use vibesurfer.Text
use vibesurfer.Text.{Text, split_once, split, lines, trim, text_lt}
use vibesurfer.Text.Decimal
use vibesurfer.Text.Decimal.{u32_mod}
use vibesurfer.Sorted.{insert}
use vibesurfer.Protocol.Error.{
  ParseError, Result, ok, err, invalid_ref, malformed_line, invalid_attribute, ◌>>=◌, ok_or,
}
use vibesurfer.Protocol.Codes.{Role, role_str, role_code, Op, op_str, op_code, op_rank, from_str}
use vibesurfer.Protocol.Tokenize.{quote_label, quote_value, tokens, strip_quotes, split_indent}
use Nodes.{Attr, Shell, Node, Forest, nil, node, push, attr_lt, op_lt}

-- `Ref::from_str`.
unfoldable pub parse_ref : Text → Result ℕ
unfolding Decimal.parse
parse_ref s = ok_or (Decimal.parse u32_mod s) (invalid_ref s)

-- `Ref::is_root`.
unfoldable pub is_root : ℕ → Bool
is_root r = r == 0

-- `Node::leaf`.
unfoldable pub leaf : ℕ → Role → Text → Node
leaf r role label = record {
  shell = record { r = r; role = role; label = label; ops = []; attrs = [] };
  children = nil;
}

unfoldable pub from_root : Node → Forest
from_root n = node n.shell n.children nil

-- `  ` for each level.
unfoldable pub indent : ℕ → Text
indent zero = []
indent (suc d) = b' ' ∷ b' ' ∷ indent d

-- The operations behind the first, each behind a comma.
unfoldable pub encode_more_ops : List Op → Text
unfolding op_str
encode_more_ops [] = []
encode_more_ops (o ∷ os) = b',' ∷ (op_str o ++ encode_more_ops os)

unfoldable pub encode_ops : List Op → Text
unfolding encode_more_ops op_str
encode_ops [] = []
encode_ops (o ∷ os) = b' ' ∷ (op_str o ++ encode_more_ops os)

unfoldable pub encode_attrs : List Attr → Text
unfolding quote_value
encode_attrs [] = []
encode_attrs ((k, v) ∷ as') = b' ' ∷ ((k ++ b'=' ∷ quote_value v) ++ encode_attrs as')

-- What stands on a node's line behind the indent.
unfoldable pub encode_shell : Shell → Text
unfolding Decimal.display role_str quote_label encode_ops encode_attrs
encode_shell s =
    Decimal.display s.r
    ++ (b' '
        ∷ (role_str s.role
            ++ (b' ' ∷ (quote_label s.label ++ (encode_ops s.ops ++ encode_attrs s.attrs)))))

-- `encode_node`, over a node and those that follow it.
unfoldable pub encode_nodes : ℕ → Forest → Text
unfolding indent encode_shell
encode_nodes depth nil = []
encode_nodes depth (node s children rest) =
    indent depth
    ++ (encode_shell s ++ (b'\n' ∷ (encode_nodes (suc depth) children ++ encode_nodes depth rest)))

unfoldable pub encode : Forest → Text
unfolding encode_nodes
encode = encode_nodes 0

-- One piece of a cluster.
unfoldable pub parse_op : ParseError → Text → Result Op
unfolding from_str
parse_op e [] = err e
parse_op e (c ∷ cs) = from_str op_code (c ∷ cs)

unfoldable pub parse_cluster : ParseError → List Text → List Op → Result (List Op)
unfolding parse_op insert op_rank
parse_cluster e [] ops = ok ops
parse_cluster e (piece ∷ rest) ops = do
  o ← parse_op e piece
  parse_cluster e rest (insert op_lt o ops)

-- A token with an equals sign: the text before it and behind it.
unfoldable pub parse_attr : Text → Text → Text → List Attr → Result (List Attr)
unfolding strip_quotes insert text_lt
parse_attr tok [] v attrs = err (invalid_attribute tok)
parse_attr tok (c ∷ k) v attrs = ok (insert attr_lt (c ∷ k, strip_quotes v) attrs)

-- The loop over the tokens behind the label. `empty` is the error at an empty piece of a cluster,
-- in which the tree and the delta parser differ; it is given the token.
unfoldable pub parse_tail :
    (Text → ParseError) → List Text → List Op → List Attr → Result (List Op × List Attr)
unfolding split_once split parse_cluster parse_attr
parse_tail empty [] ops attrs = ok (ops, attrs)
parse_tail empty (tok ∷ toks) ops attrs = elim (split_once b'=' tok) [
  | some (k, v) ↦ parse_attr tok k v attrs >>= λ attrs'. parse_tail empty toks ops attrs'
  | none ↦
      parse_cluster (empty tok) (split b',' tok) ops >>= λ ops'. parse_tail empty toks ops' attrs
]

unfoldable pub parse_fields : ℕ → Text → Text → Text → List Text → Result Shell
unfolding parse_ref from_str parse_tail strip_quotes
parse_fields line_no r_tok role_tok label_tok toks = do
  r ← parse_ref r_tok
  role ← from_str role_code role_tok
  (ops, attrs) ← parse_tail (λ _. malformed_line line_no "empty op in cluster") toks [] []
  ok (record { r = r; role = role; label = strip_quotes label_tok; ops = ops; attrs = attrs })

unfoldable pub parse_line_tokens : ℕ → List Text → Result Shell
unfolding parse_fields
parse_line_tokens line_no [] = err (malformed_line line_no "missing ref")
parse_line_tokens line_no (r_tok ∷ []) = err (malformed_line line_no "missing role")
parse_line_tokens line_no (r_tok ∷ role_tok ∷ []) = err (malformed_line line_no "missing label")
parse_line_tokens line_no (r_tok ∷ role_tok ∷ label_tok ∷ toks) =
    parse_fields line_no r_tok role_tok label_tok toks

unfoldable pub parse_node_line : Text → ℕ → Result Shell
unfolding parse_line_tokens tokens
parse_node_line line line_no = parse_line_tokens line_no (tokens line)

abbrev pub is_empty : Text → Bool
is_empty [] = true
is_empty (c ∷ cs) = false

abbrev pub Entry : Type 0
Entry = ℕ × Shell

-- The loop over the lines; `n` is the line's number.
unfoldable pub parse_entries : ℕ → List Text → Result (List Entry)
parse_entries n [] = ok []
parse_entries n (raw ∷ rest) =
    let entries = parse_entries (suc n) rest in
    let (depth, body) = split_indent raw in
    let here = (do s ← parse_node_line body n; es ← entries; ok ((depth, s) ∷ es)) in
    if is_empty (trim raw) then entries else here

-- Nodes that are not closed yet, the innermost first, and the finished roots.
abbrev pub Open : Type 0
Open = List (ℕ × Node) × Forest

abbrev pub add_child : Node → Node → Node
add_child p n = record p { children = push p.children n }

-- The loop that closes nodes of at least this depth, at the innermost node and those around it.
unfoldable pub close_top : ℕ → ℕ → Node → List (ℕ × Node) → Forest → Open
unfolding push
close_top depth top n [] roots =
    if leb depth top then ([], push roots n) else ((top, n) ∷ [], roots)
close_top depth top n ((outer, p) ∷ stack) roots =
    let closed = close_top depth outer (add_child p n) stack roots in
    if leb depth top then closed else ((top, n) ∷ (outer, p) ∷ stack, roots)

unfoldable pub close : ℕ → Open → Open
unfolding close_top
close depth ([], roots) = ([], roots)
close depth ((top, n) ∷ stack, roots) = close_top depth top n stack roots

abbrev pub open_node : Entry → Open → Open
open_node (depth, s) (stack, roots) = ((depth, record { shell = s; children = nil }) ∷ stack, roots)

unfoldable pub place : List Entry → Open → Open
unfolding close
place [] st = st
place ((depth, s) ∷ es) st = place es (open_node (depth, s) (close depth st))

-- The loop behind closes every node, as none is above depth 0.
unfoldable pub assemble : List Entry → Forest
unfolding place close
assemble es = (close 0 (place es ([], nil))).1

unfoldable pub parse : Text → Result Forest
unfolding parse_entries assemble lines
parse input = do es ← parse_entries 1 (lines input); ok (assemble es)

-- ===== src/Protocol/Delta/Ops.antt =====
-- crates/vs-protocol/src/delta/mod.rs: `DeltaOp` and its encoding.
use vibesurfer.Prelude.{ℕ, List, [], ◌∷◌, ◌++◌, Option, none, some}
use vibesurfer.Text.{Text}
use vibesurfer.Text.Decimal
use vibesurfer.Protocol.Codes.{role_str}
use vibesurfer.Protocol.Tokenize.{quote_label}
use vibesurfer.Protocol.Tree.Nodes.{Attr, Shell, Forest}
use vibesurfer.Protocol.Tree.{encode_ops, encode_attrs, encode_nodes}

-- The fields `r`, `role`, `label`, `ops` and `attrs` of `Add` are a `Shell`.
pub data DeltaOp : Type 0 where
  add : Shell → ℕ → Option ℕ → DeltaOp
  remove : ℕ → DeltaOp
  update : ℕ → List Attr → DeltaOp
  move : ℕ → ℕ → Option ℕ → DeltaOp
  replace : ℕ → Forest → DeltaOp

unfoldable pub target : DeltaOp → ℕ
target (add s parent pos) = s.r
target (remove r) = r
target (update r attrs) = r
target (move r parent pos) = r
target (replace r subtree) = r

unfoldable pub encode_pos : Option ℕ → Text
unfolding Decimal.display
encode_pos none = []
encode_pos (some p) = b':' ∷ Decimal.display p

-- `<ref>@<parent>[:<pos>]`.
unfoldable pub encode_place : ℕ → ℕ → Option ℕ → Text
unfolding Decimal.display encode_pos
encode_place r parent pos = Decimal.display r ++ (b'@' ∷ (Decimal.display parent ++ encode_pos pos))

-- An operation without the line feed; `Replace` has its subtree on the lines that follow.
unfoldable pub encode_head : DeltaOp → Text
unfolding encode_place Decimal.display role_str quote_label encode_ops encode_attrs
encode_head (add s parent pos) =
    b'+'
    ∷ (encode_place s.r parent pos
        ++ (b' '
            ∷ (role_str s.role
                ++ (b' ' ∷ (quote_label s.label ++ (encode_ops s.ops ++ encode_attrs s.attrs))))))
encode_head (remove r) = b'-' ∷ Decimal.display r
encode_head (update r attrs) = b'~' ∷ (Decimal.display r ++ encode_attrs attrs)
encode_head (move r parent pos) = b'>' ∷ encode_place r parent pos
encode_head (replace r subtree) = b'*' ∷ Decimal.display r

-- `encode_subtree_line` is `encode_node` once more, at depth 1.
unfoldable pub encode_subtree : DeltaOp → Text
unfolding encode_nodes
encode_subtree (replace r subtree) = encode_nodes 1 subtree
encode_subtree _ = []

unfoldable pub encode_one : DeltaOp → Text
unfolding encode_head encode_subtree
encode_one op = encode_head op ++ (b'\n' ∷ encode_subtree op)

unfoldable pub encode : List DeltaOp → Text
unfolding encode_one
encode [] = []
encode (op ∷ ops) = encode_one op ++ encode ops

-- ===== src/Protocol/Delta/Lines.antt =====
-- The lines of a stream of operations.
use vibesurfer.Prelude.{
  ℕ, false, List, [], ◌∷◌, ◌++◌, ◌≡◌, refl, ap, ◌∙◌, ◌≢◌, arith, ◌==◌, All, map, append_assoc,
}
use vibesurfer.Text.{Text, is_whitespace, lines}
use vibesurfer.Text.Laws.{No, No-append}
use vibesurfer.Text.Lines.{ends_line, lines-append}
use vibesurfer.Text.Decimal
use vibesurfer.Sorted.{IsSorted}
use vibesurfer.Protocol.Codes.RoundTrip.{role_str-plain}
use vibesurfer.Protocol.Codes.{role_str}
use vibesurfer.Protocol.Tokenize.{split_indent, leading_spaces}
use vibesurfer.Protocol.Tokenize.Laws.{spaced}
use vibesurfer.Protocol.Tokenize.Safe.{label-line, spaced-line}
use vibesurfer.Protocol.Tree.Nodes.{nil, attr_lt}
use vibesurfer.Protocol.Tree.{Entry, encode_attrs}
use vibesurfer.Protocol.Tree.Assemble.{entries}
use vibesurfer.Protocol.Tree.Line
use vibesurfer.Protocol.Tree.Line.{IsAttr, shell_tokens, attr_token, encode_attrs-spaced}
use vibesurfer.Protocol.Tree.RoundTrip.{
  AllWire, entry_line, lines-encode_nodes, separator-line, attrs-line, tail-line,
}
use vibesurfer.Protocol.Delta.Ops.{
  DeltaOp, add, remove, update, move, replace, encode_place, encode_head, encode_subtree,
  encode_one, encode,
}
use vibesurfer.Protocol.Delta.Places.{Fits, PosFits, encode_place-line, display-line}
use vibesurfer.Protocol.Delta.Heads.{add_body, encode_head-add}

-- An operation that the wire carries.
abbrev pub IsWire : DeltaOp → Type 0
IsWire (add s parent pos) = Line.IsWire s × Fits parent × PosFits pos
IsWire (remove r) = Fits r
IsWire (update r attrs) = Fits r × All IsAttr attrs × IsSorted attr_lt attrs
IsWire (move r parent pos) = Fits r × Fits parent × PosFits pos
IsWire (replace r subtree) = Fits r × (subtree ≢ nil) × AllWire subtree

-- The entries on the lines under an operation's own line.
unfoldable pub inner : DeltaOp → List Entry
inner (replace r subtree) = entries 1 subtree
inner _ = []

unfoldable pub all_lines : List DeltaOp → List Text
all_lines [] = []
all_lines (op ∷ ops) = encode_head op ∷ (map entry_line (inner op) ++ all_lines ops)

head-line : (op : DeltaOp) → IsWire op → No ends_line (encode_head op)
head-line (add s parent pos) h = rw (encode_head-add s parent pos) (
    unfold add_body in
    No-append ends_line (encode_place s.r parent pos) (spaced (shell_tokens s))
      (encode_place-line s.r parent pos)
      (spaced-line (shell_tokens s) (
        separator-line (role_str s.role) (role_str-plain s.role),
        (label-line s.label h.0.label_fits, tail-line s.ops s.attrs h.0.attrs_fit),
      )))
head-line (remove r) h = unfold encode_head in display-line r
head-line (update r attrs) h =
    unfold encode_head in
    No-append ends_line (Decimal.display r) (encode_attrs attrs) (display-line r)
      (rw (encode_attrs-spaced attrs) (spaced-line (map attr_token attrs) (attrs-line attrs h.1)))
head-line (move r parent pos) h = unfold encode_head in encode_place-line r parent pos
head-line (replace r subtree) h = unfold encode_head in display-line r

lines-encode_subtree :
    (op : DeltaOp) (rest : Text)
    → IsWire op
    → lines (encode_subtree op ++ rest) ≡ map entry_line (inner op) ++ lines rest
unfolding encode_subtree inner
lines-encode_subtree (replace r subtree) rest h = lines-encode_nodes subtree 1 rest h.2
lines-encode_subtree _ rest h = refl

pub lines-encode : (ops : List DeltaOp) → All IsWire ops → lines (encode ops) ≡ all_lines ops
unfolding encode encode_one all_lines
lines-encode [] h = unfold lines in refl
lines-encode (op ∷ ops) h =
    ap lines (append_assoc (encode_head op) (b'\n' ∷ encode_subtree op) (encode ops))
    ∙ lines-append (encode_head op) (encode_subtree op ++ encode ops) (head-line op h.0)
    ∙ ap (◌∷◌ (encode_head op)) (
        lines-encode_subtree op (encode ops) h.0
        ∙ ap (◌++◌ (map entry_line (inner op))) (lines-encode ops h.1))

pub split_indent_sigil :
    (c : ℕ) (s : Text) → (c == b' ') ≡ false → split_indent (c ∷ s) ≡ (0, c ∷ s)
unfolding split_indent leading_spaces
split_indent_sigil c s h = ground arith

-- The sigil of an operation, and what follows it.
pub record Sigil (op : DeltaOp) : Type 0 where
  pub sigil : ℕ
  pub body : Text
  pub splits : encode_head op ≡ sigil ∷ body
  pub no_space : (sigil == b' ') ≡ false
  pub solid : is_whitespace sigil ≡ false

pub op-Sigil : (op : DeltaOp) → Sigil op
unfolding is_whitespace encode_head
op-Sigil (add s parent pos) = record {
  sigil = b'+';
  body = _;
  splits = refl;
  no_space = refl;
  solid = refl;
}
op-Sigil (remove r) = record {
  sigil = b'-';
  body = _;
  splits = refl;
  no_space = refl;
  solid = refl;
}
op-Sigil (update r attrs) = record {
  sigil = b'~';
  body = _;
  splits = refl;
  no_space = refl;
  solid = refl;
}
op-Sigil (move r parent pos) = record {
  sigil = b'>';
  body = _;
  splits = refl;
  no_space = refl;
  solid = refl;
}
op-Sigil (replace r subtree) = record {
  sigil = b'*';
  body = _;
  splits = refl;
  no_space = refl;
  solid = refl;
}

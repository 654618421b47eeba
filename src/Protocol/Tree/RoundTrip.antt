-- ===== src/Protocol/Tree/RoundTrip.antt =====
-- A tree is read back from its encoding.
use vibesurfer.Prelude.{
  ℕ, zero, suc, ◌+◌, true, false, not, List, [], ◌∷◌, ◌++◌, ◌≡◌, refl, ap, ◌∙◌, ◌≢◌, arith, ◌==◌,
  any, all, map, All, append_assoc, append-nil, any-append,
}
use mathlib.Core.List.{map-append}
use vibesurfer.Text.{Text, trim, is_whitespace, lines}
use vibesurfer.Text.Laws.{No, No-append, trim-ne-nil}
use vibesurfer.Text.Lines.{ends_line, lines-append}
use vibesurfer.Text.Decimal
use vibesurfer.Text.Decimal.{is_digit}
use vibesurfer.Protocol.Error.{ok}
use vibesurfer.Protocol.Codes.{Op, op_str, role_str}
use vibesurfer.Protocol.Codes.RoundTrip.{is_separator, role_str-plain, op_str-plain}
use vibesurfer.Protocol.Tokenize.{quote_value, leading_spaces, split_indent}
use vibesurfer.Protocol.Tokenize.Laws.{spaced}
use vibesurfer.Protocol.Tokenize.Safe.{label-line, value-line, spaced-line}
use vibesurfer.Protocol.Tree.Nodes.{Attr, Shell, Forest, nil, node}
use vibesurfer.Protocol.Tree.{
  Entry, indent, encode_more_ops, encode_shell, encode_nodes, encode, parse_entries, parse,
  is_empty,
}
use vibesurfer.Protocol.Tree.Assemble.{entries, assemble-entries}
use vibesurfer.Protocol.Tree.Line.{
  IsWire, IsAttr, breaks_key, op_tokens, attr_token, shell_tokens, encode_shell-spaced, display-No,
}
use vibesurfer.Protocol.Tree.Line.Fields.{parse_node_line-encode_shell}

abbrev pub AllWire : Forest → Type 0
AllWire nil = Unit
AllWire (node s c rest) = IsWire s × AllWire c × AllWire rest

abbrev pub entry_line : Entry → Text
entry_line (d, s) = indent d ++ encode_shell s

-- Nothing on a node's line ends the line.
pub separator-line : (s : Text) → No is_separator s → No ends_line s
separator-line [] h = refl
separator-line (c ∷ s) h = ground (arith, separator-line s)

key-line : (s : Text) → No breaks_key s → No ends_line s
key-line [] h = refl
key-line (c ∷ s) h = ground (arith, key-line s)

op_line : (o : Op) → No ends_line (op_str o)
op_line o = separator-line (op_str o) (op_str-plain o)

more_ops-line : (os : List Op) → No ends_line (encode_more_ops os)
unfolding encode_more_ops
more_ops-line [] = refl
more_ops-line (o ∷ os) =
    No-append ends_line (op_str o) (encode_more_ops os) (op_line o) (more_ops-line os)

pub attrs-line : (as' : List Attr) → All IsAttr as' → All (No ends_line) (map attr_token as')
attrs-line [] h = tt
attrs-line ((k, v) ∷ as') h = (
  No-append ends_line k (b'=' ∷ quote_value v) (key-line k h.0.1) (value-line v h.0.2),
  attrs-line as' h.1,
)

pub tail-line :
    (os : List Op) (as' : List Attr)
    → All IsAttr as'
    → All (No ends_line) (op_tokens os ++ map attr_token as')
tail-line [] as' h = attrs-line as' h
tail-line (o ∷ os) as' h = (
  No-append ends_line (op_str o) (encode_more_ops os) (op_line o) (more_ops-line os),
  attrs-line as' h,
)

pub shell-line : (s : Shell) → IsWire s → No ends_line (encode_shell s)
shell-line s w = rw (encode_shell-spaced s) (
    No-append ends_line (Decimal.display s.r) (spaced (shell_tokens s))
      (separator-line (Decimal.display s.r) (display-No s.r))
      (spaced-line (shell_tokens s) (
        separator-line (role_str s.role) (role_str-plain s.role),
        (label-line s.label w.label_fits, tail-line s.ops s.attrs w.attrs_fit),
      )))

indent-line : (d : ℕ) → No ends_line (indent d)
unfolding indent
indent-line zero = refl
indent-line (suc d) = indent-line d

-- The lines of the encoding are the entries of the forest.
pub lines-encode_nodes :
    (f : Forest) (d : ℕ) (rest : Text)
    → AllWire f
    → lines (encode_nodes d f ++ rest) ≡ map entry_line (entries d f) ++ lines rest
unfolding encode_nodes entries
lines-encode_nodes nil d rest w = refl
lines-encode_nodes (node s c f) d rest w =
    ap lines regroup
    ∙ lines-append (entry_line (d, s)) (encode_nodes (suc d) c ++ (encode_nodes d f ++ rest))
        (No-append ends_line (indent d) (encode_shell s) (indent-line d) (shell-line s w.0))
    ∙ ap (◌∷◌ (entry_line (d, s))) (
        lines-encode_nodes c (suc d) (encode_nodes d f ++ rest) w.1
        ∙ ap (◌++◌ (map entry_line (entries (suc d) c))) (lines-encode_nodes f d rest w.2)
        ∙ simp (append_assoc, map-append))
  where
    regroup :
        encode_nodes d (node s c f) ++ rest
        ≡ entry_line (d, s) ++ b'\n' ∷ (encode_nodes (suc d) c ++ (encode_nodes d f ++ rest))
    regroup = simp append_assoc

leading_spaces-indent :
    (d c : ℕ) (s : Text) → (c == b' ') ≡ false → leading_spaces (indent d ++ c ∷ s) ≡ (d + d, c ∷ s)
unfolding leading_spaces indent
leading_spaces-indent zero c s h = rw h
leading_spaces-indent (suc d) c s h = rw (leading_spaces-indent d c s h) (ground arith)

split_indent-indent :
    (d : ℕ) (s : Text)
    → s ≢ []
    → all is_digit s ≡ true
    → (t : Text) → split_indent (indent d ++ (s ++ t)) ≡ (d, s ++ t)
unfolding split_indent
split_indent-indent d [] ne h t = absurd (ne refl)
split_indent-indent d (c ∷ s) ne h t =
    rw (leading_spaces-indent d c (s ++ t) (ground arith)) (ground arith)

pub split_indent-line : (d : ℕ) (s : Shell) → split_indent (entry_line (d, s)) ≡ (d, encode_shell s)
split_indent-line d s = rw (encode_shell-spaced s) (
    split_indent-indent d (Decimal.display s.r) (Decimal.display-ne-nil s.r)
      (Decimal.display-all_digit s.r) (spaced (shell_tokens s)))

digit-visible :
    (s : Text) → s ≢ [] → all is_digit s ≡ true → any (λ c. not (is_whitespace c)) s ≡ true
unfolding is_whitespace
digit-visible [] ne h = absurd (ne refl)
digit-visible (c ∷ s) ne h = ground arith

pub line-visible : (d : ℕ) (s : Shell) → any (λ c. not (is_whitespace c)) (entry_line (d, s)) ≡ true
line-visible d s = rw (encode_shell-spaced s) (
    ground (
      arith,
      any-append (λ c. not (is_whitespace c)) (indent d)
          (Decimal.display s.r ++ spaced (shell_tokens s)),
      any-append (λ c. not (is_whitespace c)) (Decimal.display s.r) (spaced (shell_tokens s)),
      digit-visible (Decimal.display s.r) (Decimal.display-ne-nil s.r)
          (Decimal.display-all_digit s.r),
    ))

pub ne-nil-is_empty : (s : Text) → s ≢ [] → is_empty s ≡ false
ne-nil-is_empty [] h = absurd (h refl)
ne-nil-is_empty (c ∷ s) h = refl

abbrev pub AllEntries : List Entry → Type 0
AllEntries = All (λ e. IsWire e.1)

AllEntries-append : (es fs : List Entry) → AllEntries es → AllEntries fs → AllEntries (es ++ fs)
AllEntries-append [] fs h k = k
AllEntries-append (e ∷ es) fs h k = (h.0, AllEntries-append es fs h.1 k)

pub entries-AllEntries : (f : Forest) (d : ℕ) → AllWire f → AllEntries (entries d f)
unfolding entries
entries-AllEntries nil d w = tt
entries-AllEntries (node s c rest) d w = (
  w.0,
  AllEntries-append (entries (suc d) c) (entries d rest) (entries-AllEntries c (suc d) w.1)
      (entries-AllEntries rest d w.2),
)

parse_entries-lines :
    (es : List Entry) (n : ℕ) → AllEntries es → parse_entries n (map entry_line es) ≡ ok es
unfolding parse_entries
parse_entries-lines [] n h = refl
parse_entries-lines ((d, s) ∷ es) n h = rw (
  ne-nil-is_empty (trim (entry_line (d, s))) (trim-ne-nil (entry_line (d, s)) (line-visible d s)),
  split_indent-line d s,
  parse_node_line-encode_shell s n h.0,
  parse_entries-lines es (suc n) h.1,
)

-- Parsing the encoding of a forest gives the forest back, if on every node the ref is below 2^32,
-- the label and the attributes' values hold no double quote, line feed or carriage return, the
-- attributes' keys are not empty and hold no blank, quote, `=` or line end, and operations and
-- attributes are in the strict order of their sets.
pub parse-encode_tree : (f : Forest) → AllWire f → parse (encode f) ≡ ok f
unfolding parse encode
parse-encode_tree f w =
    rw
      (
        ← append-nil (encode_nodes 0 f),
        lines-encode_nodes f 0 [] w,
        append-nil (map entry_line (entries 0 f)),
        parse_entries-lines (entries 0 f) 1 (entries-AllEntries f 0 w),
      )
      (ap ok (assemble-entries f))

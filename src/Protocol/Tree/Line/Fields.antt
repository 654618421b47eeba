-- ===== src/Protocol/Tree/Line/Fields.antt =====
-- The fields of a node's line, read one after the other.
use vibesurfer.Prelude.{
  ℕ, ◌<◌, true, false, List, [], ◌∷◌, ◌++◌, none, some, ◌≡◌, refl, ap, ◌∙◌, ◌≢◌, arith, map, All,
  append-nil,
}
use vibesurfer.Text.{Text, split_once, split}
use vibesurfer.Text.Laws.{
  split_once-append, split_once-none, split_single, split-append, text_lt_asymm,
}
use vibesurfer.Text.Decimal
use vibesurfer.Text.Decimal.{u32_mod, is_digit}
use vibesurfer.Sorted.{insert, insert_all, insert_all_sorted, IsSorted}
use vibesurfer.Protocol.Error.{ParseError, ok, malformed_line}
use vibesurfer.Protocol.Codes.{role_str, Op, click, op_str}
use vibesurfer.Protocol.Codes.RoundTrip.{role-from_str, op-from_str, op_str-plain}
use vibesurfer.Protocol.Tokenize.{quote_label, quote_value, strip_quotes}
use vibesurfer.Protocol.Tokenize.Laws.{tokens-spaced, quote_label-IsToken}
use vibesurfer.Protocol.Tokenize.Safe.{strip_label, strip_value}
use vibesurfer.Protocol.Tree.Nodes.{Attr, Shell, attr_lt, op_lt}
use vibesurfer.Protocol.Tree.{
  parse_ref, encode_more_ops, encode_shell, parse_op, parse_cluster, parse_attr, parse_tail,
  parse_fields, parse_line_tokens, parse_node_line,
}
use vibesurfer.Protocol.Tree.Line.{
  IsAttr, IsWire, op_tokens, attr_token, shell_tokens, encode_shell-spaced, No-comma, cluster-No,
  not_comma-equals, key-equals, display-IsToken, role_str-IsToken, tail_tokens,
}

split-cluster :
    (o : Op) (os : List Op) → split b',' (op_str o ++ encode_more_ops os) ≡ op_str o ∷ map op_str os
unfolding encode_more_ops
split-cluster o [] =
    rw append-nil (split_single b',' (op_str o) (No-comma (op_str o) (op_str-plain o)))
split-cluster o (o' ∷ os) =
    split-append b',' (op_str o) (op_str o' ++ encode_more_ops os)
      (No-comma (op_str o) (op_str-plain o))
    ∙ ap (◌∷◌ (op_str o)) (split-cluster o' os)

parse_op-op_str : (e : ParseError) (o : Op) → parse_op e (op_str o) ≡ ok o
unfolding parse_op op_str
parse_op-op_str e click = op-from_str click
parse_op-op_str e o = op-from_str o

parse_cluster-op_str :
    (e : ParseError) (os acc : List Op)
    → parse_cluster e (map op_str os) acc ≡ ok (insert_all op_lt os acc)
unfolding parse_cluster insert_all
parse_cluster-op_str e [] acc = refl
parse_cluster-op_str e (o ∷ os) acc =
    rw (parse_op-op_str e o) (parse_cluster-op_str e os (insert op_lt o acc))

op_lt_asymm : (a b : Op) → op_lt a b ≡ true → op_lt b a ≡ false
op_lt_asymm a b h = ground arith

pub attr_lt_asymm : (a b : Attr) → attr_lt a b ≡ true → attr_lt b a ≡ false
attr_lt_asymm (a, v) (b, w) h = text_lt_asymm a b h

module _ (empty : Text → ParseError) where
  parse_tail_equals :
      (tok k v : Text) (toks : List Text) (ops : List Op) (attrs : List Attr)
      → split_once b'=' tok ≡ some (k, v)
      → k ≢ []
      → parse_tail empty (tok ∷ toks) ops attrs
        ≡ parse_tail empty toks ops (insert attr_lt (k, strip_quotes v) attrs)
  unfolding parse_tail parse_attr
  parse_tail_equals tok [] v toks ops attrs e ne = absurd (ne refl)
  parse_tail_equals tok (c ∷ k) v toks ops attrs e ne = rw (e, parse_tail)

  parse_tail_cluster :
      (tok : Text) (toks : List Text) (ops : List Op) (attrs : List Attr) {ops' : List Op}
      → split_once b'=' tok ≡ none
      → parse_cluster (empty tok) (split b',' tok) ops ≡ ok ops'
      → parse_tail empty (tok ∷ toks) ops attrs ≡ parse_tail empty toks ops' attrs
  unfolding parse_tail
  parse_tail_cluster tok toks ops attrs e k = rw (e, parse_tail, k)

  parse_tail-attrs :
      (as' : List Attr) (ops : List Op) (attrs : List Attr)
      → All IsAttr as'
      → parse_tail empty (map attr_token as') ops attrs ≡ ok (ops, insert_all attr_lt as' attrs)
  unfolding insert_all
  parse_tail-attrs [] ops attrs h = unfold parse_tail in refl
  parse_tail-attrs ((k, v) ∷ as') ops attrs h =
      parse_tail_equals (attr_token (k, v)) k (quote_value v) (map attr_token as') ops attrs
        (split_once-append b'=' k (quote_value v) (key-equals k h.0.1)) h.0.0
      ∙ rw (strip_value v h.0.2) (parse_tail-attrs as' ops (insert attr_lt (k, v) attrs) h.1)

  -- Everything behind the label is read back.
  pub parse_tail-tokens :
      (os : List Op) (as' : List Attr)
      → IsSorted op_lt os
      → All IsAttr as'
      → IsSorted attr_lt as'
      → parse_tail empty (op_tokens os ++ map attr_token as') [] [] ≡ ok (os, as')
  parse_tail-tokens [] as' so h sa =
      parse_tail-attrs as' [] [] h
      ∙ ap (λ x. ok ([], x)) (insert_all_sorted attr_lt attr_lt_asymm as' sa)
  parse_tail-tokens (o ∷ os) as' so h sa =
      let cluster = op_str o ++ encode_more_ops os in
      parse_tail_cluster cluster (map attr_token as') [] []
        (split_once-none b'=' cluster (not_comma-equals cluster (cluster-No o os)))
        (ap (λ x. parse_cluster (empty cluster) x []) (split-cluster o os)
          ∙ parse_cluster-op_str (empty cluster) (o ∷ os) []
          ∙ ap ok (insert_all_sorted op_lt op_lt_asymm (o ∷ os) so))
      ∙ parse_tail-attrs as' (o ∷ os) [] h
      ∙ ap (λ x. ok (o ∷ os, x)) (insert_all_sorted attr_lt attr_lt_asymm as' sa)

pub parse_ref-display : (n : ℕ) → n < u32_mod → parse_ref (Decimal.display n) ≡ ok n
unfolding parse_ref
parse_ref-display n h = rw (Decimal.parse-display u32_mod n h)

parse_fields-tokens :
    (n : ℕ) (s : Shell)
    → IsWire s
    → parse_fields n
        (Decimal.display s.r)
        (role_str s.role)
        (quote_label s.label)
        (op_tokens s.ops ++ map attr_token s.attrs)
      ≡ ok s
unfolding parse_fields
parse_fields-tokens n s w = rw (
  parse_ref-display s.r w.ref_fits,
  role-from_str s.role,
  parse_tail-tokens (λ _. malformed_line n "empty op in cluster") s.ops s.attrs w.ops_sorted
      w.attrs_fit w.attrs_sorted,
  strip_label s.label w.label_fits,
)

-- The line of a node parses back to the node without its children, whatever the line's number, if
-- the ref fits in 32 bits, the label and the attributes hold nothing that breaks the format, and
-- operations and attributes are in strict order.
pub parse_node_line-encode_shell :
    (s : Shell) (n : ℕ) → IsWire s → parse_node_line (encode_shell s) n ≡ ok s
unfolding parse_node_line parse_line_tokens
parse_node_line-encode_shell s n w =
    rw
      (
        encode_shell-spaced s,
        tokens-spaced (Decimal.display s.r) (shell_tokens s) (display-IsToken s.r) (
          role_str-IsToken s.role,
          (quote_label-IsToken s.label, tail_tokens s.ops s.attrs w.attrs_fit),
        ),
      )
      (parse_fields-tokens n s w)

-- ===== src/Protocol/Tree/Line.antt =====
-- One node's line is read back.
pub mod Fields
use vibesurfer.Prelude.{
  ℕ, zero, suc, ◌+◌, ◌≤◌, ◌<◌, Bool, true, false, not, ◌&&◌, ◌||◌, List, [], ◌∷◌, ◌++◌, Option,
  none, some, ◌≡◌, refl, ap, ◌∙◌, sym, ◌≢◌, arith, ltb, leb, ◌==◌, if◌then◌else◌, any, all, length,
  map, All, Bool-cases, inl, inr, length-append, append_assoc, append-nil,
}
use vibesurfer.Text
use vibesurfer.Text.{Text, split_once, split, text_lt}
use vibesurfer.Text.Laws.{
  No, No-append, split_once-append, split_once-none, split_single, split-append, text_lt_asymm,
}
use vibesurfer.Text.Decimal
use vibesurfer.Text.Decimal.{u32_mod, is_digit}
use vibesurfer.Sorted.{insert, insert_all, insert_all_sorted, IsSorted}
use vibesurfer.Protocol.Error.{ParseError, Result, ok, err, malformed_line}
use vibesurfer.Protocol.Codes.{Role, doc, role_str, Op, click, op_str}
use vibesurfer.Protocol.Codes.RoundTrip.{
  role-from_str, op-from_str, is_separator, role_str-plain, op_str-plain,
}
use vibesurfer.Protocol.Tokenize.{
  dquote, is_blank, quote_label, quote_value, tokens, strip_quotes, clean,
}
use vibesurfer.Protocol.Tokenize.Laws.{
  Closed, IsToken, spaced, tokens-spaced, no_quote, Closed-bare, Closed-append, clean_self,
  quote_label-IsToken, quote_value-Closed, strip_quotes-quote_label, strip_quotes-quote_value,
}
use vibesurfer.Protocol.Tokenize.Safe.{breaks_text}
use vibesurfer.Protocol.Tree.Nodes.{Attr, Shell, attr_lt, op_lt}
use vibesurfer.Protocol.Tree.{
  parse_ref, encode_more_ops, encode_ops, encode_attrs, encode_shell, parse_op, parse_cluster,
  parse_attr, parse_tail, parse_fields, parse_line_tokens, parse_node_line,
}

-- What a key cannot hold on the wire.
abbrev pub breaks_key : ℕ → Bool
breaks_key c = is_blank c || c == dquote || c == b'=' || c == b'\n' || c == b'\r'

abbrev pub IsAttr : Attr → Type 0
IsAttr (k, v) = (k ≢ []) × No breaks_key k × No breaks_text v

-- A node that the line format can carry.
pub record IsWire (s : Shell) : Type 0 where
  pub ref_fits : s.r < u32_mod
  pub label_fits : No breaks_text s.label
  pub ops_sorted : IsSorted op_lt s.ops
  pub attrs_fit : All IsAttr s.attrs
  pub attrs_sorted : IsSorted attr_lt s.attrs

abbrev pub op_tokens : List Op → List Text
op_tokens [] = []
op_tokens (o ∷ os) = (op_str o ++ encode_more_ops os) ∷ []

abbrev pub attr_token : Attr → Text
attr_token (k, v) = k ++ b'=' ∷ quote_value v

abbrev pub shell_tokens : Shell → List Text
shell_tokens s = role_str s.role ∷ quote_label s.label ∷ (op_tokens s.ops ++ map attr_token s.attrs)

pub encode_attrs-spaced : (as' : List Attr) → encode_attrs as' ≡ spaced (map attr_token as')
unfolding encode_attrs
encode_attrs-spaced [] = refl
encode_attrs-spaced ((k, v) ∷ as') = rw (encode_attrs-spaced as')

pub encode_ops-spaced :
    (os : List Op) (ts : List Text) → encode_ops os ++ spaced ts ≡ spaced (op_tokens os ++ ts)
unfolding encode_ops
encode_ops-spaced [] ts = refl
encode_ops-spaced (o ∷ os) ts = refl

pub encode_shell-spaced :
    (s : Shell) → encode_shell s ≡ Decimal.display s.r ++ spaced (shell_tokens s)
unfolding encode_shell
encode_shell-spaced s =
    rw (encode_attrs-spaced s.attrs, encode_ops-spaced s.ops (map attr_token s.attrs))

-- Wider tests that a separator fails.
No-quote : (s : Text) → No is_separator s → no_quote s ≡ false
No-quote [] h = refl
No-quote (c ∷ s) h = ground (arith, No-quote s)

No-blank : (s : Text) → No is_separator s → No is_blank s
No-blank [] h = refl
No-blank (c ∷ s) h = ground (arith, No-blank s)

No-equals : (s : Text) → No is_separator s → No (λ d. d == b'=') s
No-equals [] h = refl
No-equals (c ∷ s) h = ground (arith, No-equals s)

pub No-comma : (s : Text) → No is_separator s → No (λ d. d == b',') s
No-comma [] h = refl
No-comma (c ∷ s) h = ground (arith, No-comma s)

digits-No : (s : Text) → all is_digit s ≡ true → No is_separator s
digits-No [] h = refl
digits-No (c ∷ s) h = ground (arith, digits-No s)

pub display-No : (n : ℕ) → No is_separator (Decimal.display n)
display-No n = digits-No (Decimal.display n) (Decimal.display-all_digit n)

plain-IsToken : (s : Text) → s ≢ [] → No is_separator s → IsToken s
plain-IsToken s ne h = (ne, Closed-bare s (No-quote s h) (No-blank s h))

pub display-IsToken : (n : ℕ) → IsToken (Decimal.display n)
display-IsToken n = plain-IsToken (Decimal.display n) (Decimal.display-ne-nil n) (display-No n)

role_str-ne-nil : (r : Role) → role_str r ≢ []
unfolding role_str
role_str-ne-nil doc h = cc
role_str-ne-nil _ h = cc

pub role_str-IsToken : (r : Role) → IsToken (role_str r)
role_str-IsToken r = plain-IsToken (role_str r) (role_str-ne-nil r) (role_str-plain r)

op_str-ne-nil : (o : Op) → op_str o ≢ []
unfolding op_str
op_str-ne-nil click h = cc
op_str-ne-nil _ h = cc

-- A cluster holds commas, and no other separator.
abbrev pub not_comma : ℕ → Bool
not_comma c = is_blank c || c == dquote || c == b'='

No-not_comma : (s : Text) → No is_separator s → No not_comma s
No-not_comma [] h = refl
No-not_comma (c ∷ s) h = ground (arith, No-not_comma s)

more_ops-No : (os : List Op) → No not_comma (encode_more_ops os)
unfolding encode_more_ops
more_ops-No [] = refl
more_ops-No (o ∷ os) =
    No-append not_comma (op_str o) (encode_more_ops os) (No-not_comma (op_str o) (op_str-plain o))
      (more_ops-No os)

pub cluster-No : (o : Op) (os : List Op) → No not_comma (op_str o ++ encode_more_ops os)
cluster-No o os =
    No-append not_comma (op_str o) (encode_more_ops os) (No-not_comma (op_str o) (op_str-plain o))
      (more_ops-No os)

not_comma-quote : (s : Text) → No not_comma s → no_quote s ≡ false
not_comma-quote [] h = refl
not_comma-quote (c ∷ s) h = ground (arith, not_comma-quote s)

not_comma-blank : (s : Text) → No not_comma s → No is_blank s
not_comma-blank [] h = refl
not_comma-blank (c ∷ s) h = ground (arith, not_comma-blank s)

pub not_comma-equals : (s : Text) → No not_comma s → No (λ d. d == b'=') s
not_comma-equals [] h = refl
not_comma-equals (c ∷ s) h = ground (arith, not_comma-equals s)

append-ne-nil : (s t : Text) → s ≢ [] → s ++ t ≢ []
append-ne-nil [] t h = absurd (h refl)
append-ne-nil (c ∷ s) t h = cc

cluster-IsToken : (o : Op) (os : List Op) → IsToken (op_str o ++ encode_more_ops os)
cluster-IsToken o os =
    let s = op_str o ++ encode_more_ops os in
    (
      append-ne-nil (op_str o) (encode_more_ops os) (op_str-ne-nil o),
      Closed-bare s (not_comma-quote s (cluster-No o os)) (not_comma-blank s (cluster-No o os)),
    )

key-quote : (k : Text) → No breaks_key k → no_quote k ≡ false
key-quote [] h = refl
key-quote (c ∷ k) h = ground (arith, key-quote k)

key-blank : (k : Text) → No breaks_key k → No is_blank k
key-blank [] h = refl
key-blank (c ∷ k) h = ground (arith, key-blank k)

pub key-equals : (k : Text) → No breaks_key k → No (λ d. d == b'=') k
key-equals [] h = refl
key-equals (c ∷ k) h = ground (arith, key-equals k)

attr_token-IsToken : (a : Attr) → IsAttr a → IsToken (attr_token a)
attr_token-IsToken (k, v) h = (
  append-ne-nil k (b'=' ∷ quote_value v) h.0,
  Closed-append k (b'=' ∷ quote_value v) (key-quote k h.1) (key-blank k h.1)
      (refl, quote_value-Closed v),
)

pub attr_tokens-IsToken : (as' : List Attr) → All IsAttr as' → All IsToken (map attr_token as')
attr_tokens-IsToken [] h = tt
attr_tokens-IsToken (a ∷ as') h = (attr_token-IsToken a h.0, attr_tokens-IsToken as' h.1)

pub tail_tokens :
    (os : List Op) (as' : List Attr)
    → All IsAttr as'
    → All IsToken (op_tokens os ++ map attr_token as')
tail_tokens [] as' h = attr_tokens-IsToken as' h
tail_tokens (o ∷ os) as' h = (cluster-IsToken o os, attr_tokens-IsToken as' h)

-- ===== src/Protocol/Delta/Heads.antt =====
-- The one line of each operation is read back.
use vibesurfer.Prelude.{
  ℕ, List, [], ◌∷◌, ◌++◌, Option, none, some, ◌≡◌, refl, ◌≢◌, All, map, append-nil,
}
use vibesurfer.Text.{Text, trim}
use vibesurfer.Text.Laws.{split_once-append, split_once-none, trim_none}
use vibesurfer.Text.Decimal
use vibesurfer.Text.Decimal.{u32_mod, is_digit}
use vibesurfer.Sorted.{insert, insert_all, insert_all_sorted, IsSorted}
use vibesurfer.Protocol.Error.{ok, invalid_attribute}
use vibesurfer.Protocol.Codes.{role_str}
use vibesurfer.Protocol.Codes.RoundTrip.{role-from_str}
use vibesurfer.Protocol.Tokenize.{quote_label, quote_value, tokens, strip_quotes}
use vibesurfer.Protocol.Tokenize.Laws.{spaced, tokens-spaced, quote_label-IsToken}
use vibesurfer.Protocol.Tokenize.Safe.{strip_label, strip_value}
use vibesurfer.Protocol.Tree.Nodes.{Attr, Shell, attr_lt}
use vibesurfer.Protocol.Tree.{encode_attrs, parse_ref, parse_attr}
use vibesurfer.Protocol.Tree.Line
use vibesurfer.Protocol.Tree.Line.{
  IsAttr, attr_token, op_tokens, shell_tokens, encode_attrs-spaced, encode_ops-spaced,
  display-IsToken, role_str-IsToken, tail_tokens, attr_tokens-IsToken, key-equals,
}
use vibesurfer.Protocol.Tree.Line.Fields.{parse_ref-display, parse_tail-tokens, attr_lt_asymm}
use vibesurfer.Protocol.Delta.Ops.{add, remove, update, move, encode_pos, encode_place, encode_head}
use vibesurfer.Protocol.Delta.Parse.{
  parse_pos, split_pos, parse_ref_at_parent, add_fields, add_tokens, parse_add, parse_remove,
  parse_attrs, parse_update, parse_move,
}
use vibesurfer.Protocol.Delta.Places.{
  Fits, PosFits, digits-at, digits-colon, place-whitespace, display-place, encode_place-place,
  encode_place-ne-nil, encode_place-IsToken,
}

split_pos-encode_pos :
    (parent : ℕ) (pos : Option ℕ)
    → PosFits pos
    → (q : Option Text) × (split_pos (Decimal.display parent ++ encode_pos pos)
        ≡ (Decimal.display parent, q))
      × (parse_pos q ≡ ok pos)
unfolding encode_pos parse_pos
split_pos-encode_pos parent none h = (
  none,
  rw (
    append-nil,
    split_once-none b':' (Decimal.display parent)
        (digits-colon (Decimal.display parent) (Decimal.display-all_digit parent)),
  ),
  refl,
)
split_pos-encode_pos parent (some p) h = (
  some (Decimal.display p),
  rw (
      split_once-append b':' (Decimal.display parent) (Decimal.display p)
        (digits-colon (Decimal.display parent) (Decimal.display-all_digit parent))),
  rw (Decimal.parse-display u32_mod p h),
)

pub parse_ref_at_parent-encode_place :
    (r parent : ℕ) (pos : Option ℕ) (n : ℕ)
    → Fits r
    → Fits parent
    → PosFits pos
    → parse_ref_at_parent (encode_place r parent pos) n ≡ ok (r, parent, pos)
unfolding parse_ref_at_parent encode_place
parse_ref_at_parent-encode_place r parent pos n hr hp hq =
    let (q, e, k) = split_pos-encode_pos parent pos hq in
    rw (
      split_once-append b'@' (Decimal.display r) (Decimal.display parent ++ encode_pos pos)
          (digits-at (Decimal.display r) (Decimal.display-all_digit r)),
      parse_ref-display r hr,
      e,
      parse_ref-display parent hp,
      k,
    )

unfoldable pub add_body : Shell → ℕ → Option ℕ → Text
add_body s parent pos = encode_place s.r parent pos ++ spaced (shell_tokens s)

pub encode_head-add :
    (s : Shell) (parent : ℕ) (pos : Option ℕ)
    → encode_head (add s parent pos) ≡ b'+' ∷ add_body s parent pos
unfolding encode_head add_body
encode_head-add s parent pos =
    rw (encode_attrs-spaced s.attrs, encode_ops-spaced s.ops (map attr_token s.attrs))

add_fields-tokens :
    (s : Shell) (parent : ℕ) (pos : Option ℕ)
    → Line.IsWire s
    → add_fields
        (s.r, parent, pos)
        (role_str s.role)
        (quote_label s.label)
        (op_tokens s.ops ++ map attr_token s.attrs)
      ≡ ok (add s parent pos)
unfolding add_fields
add_fields-tokens s parent pos w = rw (
  role-from_str s.role,
  parse_tail-tokens invalid_attribute s.ops s.attrs w.ops_sorted w.attrs_fit w.attrs_sorted,
  strip_label s.label w.label_fits,
)

pub parse_add-head :
    (n : ℕ) (s : Shell) (parent : ℕ) (pos : Option ℕ)
    → Line.IsWire s
    → Fits parent
    → PosFits pos
    → parse_add n (tokens (add_body s parent pos)) ≡ ok (add s parent pos)
unfolding parse_add add_body add_tokens
parse_add-head n s parent pos w hp hq =
    rw
      (
        tokens-spaced (encode_place s.r parent pos) (shell_tokens s)
            (encode_place-IsToken s.r parent pos)
            (
              role_str-IsToken s.role,
              (quote_label-IsToken s.label, tail_tokens s.ops s.attrs w.attrs_fit),
            ),
        parse_ref_at_parent-encode_place s.r parent pos n w.ref_fits hp hq,
      )
      (add_fields-tokens s parent pos w)

parse_remove_nonempty :
    (n : ℕ) (s : Text) {r : ℕ} → s ≢ [] → parse_ref s ≡ ok r → parse_remove n s ≡ ok (remove r)
unfolding parse_remove
parse_remove_nonempty n [] ne e = absurd (ne refl)
parse_remove_nonempty n (c ∷ s) ne e = rw e

pub parse_remove-head :
    (n r : ℕ) → Fits r → parse_remove n (trim (Decimal.display r)) ≡ ok (remove r)
parse_remove-head n r h =
    rw (trim_none (Decimal.display r) (place-whitespace (Decimal.display r) (display-place r))) (
      parse_remove_nonempty n (Decimal.display r) (Decimal.display-ne-nil r)
        (parse_ref-display r h))

parse_move_nonempty :
    (n : ℕ) (s : Text) {r parent : ℕ} {pos : Option ℕ}
    → s ≢ []
    → parse_ref_at_parent s n ≡ ok (r, parent, pos)
    → parse_move n s ≡ ok (move r parent pos)
unfolding parse_move
parse_move_nonempty n [] ne e = absurd (ne refl)
parse_move_nonempty n (c ∷ s) ne e = rw e

pub parse_move-head :
    (n r parent : ℕ) (pos : Option ℕ)
    → Fits r
    → Fits parent
    → PosFits pos
    → parse_move n (trim (encode_place r parent pos)) ≡ ok (move r parent pos)
parse_move-head n r parent pos hr hp hq =
    rw
      (trim_none (encode_place r parent pos)
        (place-whitespace (encode_place r parent pos) (encode_place-place r parent pos)))
      (parse_move_nonempty n (encode_place r parent pos) (encode_place-ne-nil r parent pos)
        (parse_ref_at_parent-encode_place r parent pos n hr hp hq))

parse_attr_token :
    (tok k v : Text) (attrs : List Attr)
    → k ≢ []
    → parse_attr tok k v attrs ≡ ok (insert attr_lt (k, strip_quotes v) attrs)
unfolding parse_attr
parse_attr_token tok [] v attrs ne = absurd (ne refl)
parse_attr_token tok (c ∷ k) v attrs ne = refl

parse_attrs-tokens :
    (as' attrs : List Attr)
    → All IsAttr as'
    → parse_attrs (map attr_token as') attrs ≡ ok (insert_all attr_lt as' attrs)
unfolding parse_attrs insert_all
parse_attrs-tokens [] attrs h = refl
parse_attrs-tokens ((k, v) ∷ as') attrs h =
    rw
      (
        split_once-append b'=' k (quote_value v) (key-equals k h.0.1),
        parse_attr_token (attr_token (k, v)) k (quote_value v) attrs h.0.0,
        strip_value v h.0.2,
      )
      (parse_attrs-tokens as' (insert attr_lt (k, v) attrs) h.1)

pub parse_update-head :
    (n r : ℕ) (as' : List Attr)
    → Fits r
    → All IsAttr as'
    → IsSorted attr_lt as'
    → parse_update n (tokens (Decimal.display r ++ encode_attrs as')) ≡ ok (update r as')
unfolding parse_update
parse_update-head n r as' hr h so = rw (
  encode_attrs-spaced as',
  tokens-spaced (Decimal.display r) (map attr_token as') (display-IsToken r)
      (attr_tokens-IsToken as' h),
  parse_ref-display r hr,
  parse_attrs-tokens as' [] h,
  insert_all_sorted attr_lt attr_lt_asymm as' so,
)

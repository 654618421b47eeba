-- ===== src/Protocol/Request/Escape.antt =====
-- Escaping is undone by unescaping, and leaves nothing that ends a line.
use vibesurfer.Prelude.{
  ℕ, false, [], ◌∷◌, ◌≡◌, refl, ap, ◌∙◌, sym, arith, ◌==◌, any, Bool-cases, inl, inr,
}
use vibesurfer.Text.{Text}
use vibesurfer.Protocol.Tokenize.{strip_quotes}
use vibesurfer.Protocol.Tokenize.Laws.{strip_quotes-in_quotes}
use vibesurfer.Protocol.Request.{
  backslash, is_special, escape_char, escape_chars, escape_wire, unescape_chars, unescape_wire,
  quote_arg, needs_quotes,
}

escape_chars_self : (s : Text) → any is_special s ≡ false → escape_chars s ≡ s
unfolding escape_chars
escape_chars_self [] h = refl
escape_chars_self (c ∷ s) h = ground (arith, escape_chars_self s)

-- The early return is only a short cut.
pub escape_wire-escape_chars : (s : Text) → escape_wire s ≡ escape_chars s
unfolding escape_wire
escape_wire-escape_chars s = elim (Bool-cases (any is_special s)) [
  | inl e ↦ rw e
  | inr e ↦ rw e (sym (escape_chars_self s e))
]

unescape_chars_self : (s : Text) → any (λ c. c == backslash) s ≡ false → unescape_chars false s ≡ s
unfolding unescape_chars
unescape_chars_self [] h = refl
unescape_chars_self (c ∷ s) h = ground (arith, unescape_chars_self s)

pub unescape_wire-unescape_chars : (s : Text) → unescape_wire s ≡ unescape_chars false s
unfolding unescape_wire
unescape_wire-unescape_chars s = elim (Bool-cases (any (λ c. c == backslash) s)) [
  | inl e ↦ rw e
  | inr e ↦ rw e (sym (unescape_chars_self s e))
]

unescape-escape_char :
    (c : ℕ) (s : Text) → unescape_chars false (escape_char c s) ≡ c ∷ unescape_chars false s
unfolding unescape_chars escape_char
unescape-escape_char c s = ground arith

unescape-escape_chars : (s : Text) → unescape_chars false (escape_chars s) ≡ s
unfolding escape_chars
unescape-escape_chars [] = unfold unescape_chars in refl
unescape-escape_chars (c ∷ s) =
    unescape-escape_char c (escape_chars s) ∙ ap (◌∷◌ c) (unescape-escape_chars s)

-- Every text survives the escaping, whatever it holds.
pub unescape-escape : (s : Text) → unescape_wire (escape_wire s) ≡ s
unescape-escape s =
    rw (escape_wire-escape_chars s, unescape_wire-unescape_chars (escape_chars s))
      (unescape-escape_chars s)

strip_quotes_escaped : (s : Text) → strip_quotes (escape_chars s) ≡ escape_chars s
unfolding strip_quotes escape_chars
strip_quotes_escaped [] = refl
strip_quotes_escaped (c ∷ s) = ground arith

strip_quotes-quote_arg : (s : Text) → strip_quotes (quote_arg (escape_chars s)) ≡ escape_chars s
unfolding quote_arg
strip_quotes-quote_arg s = elim (Bool-cases (needs_quotes (escape_chars s))) [
  | inl e ↦ rw e (strip_quotes-in_quotes (escape_chars s))
  | inr e ↦ rw e (strip_quotes_escaped s)
]

-- Whatever text an argument is, escaping and quoting it for the wire and then stripping the quotes
-- and unescaping gives it back.
pub unescape-quote_arg : (s : Text) → unescape_wire (strip_quotes (quote_arg (escape_wire s))) ≡ s
unescape-quote_arg s =
    rw (escape_wire-escape_chars s, strip_quotes-quote_arg s, ← escape_wire-escape_chars s)
      (unescape-escape s)

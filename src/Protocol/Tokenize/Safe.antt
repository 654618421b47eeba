-- ===== src/Protocol/Tokenize/Safe.antt =====
-- Labels and values that the wire carries unchanged, and that stay on their line.
use vibesurfer.Prelude.{
  ℕ, Bool, false, ◌||◌, List, [], ◌∷◌, ◌≡◌, refl, ◌∙◌, arith, ◌==◌, any, All, Bool-cases, inl, inr,
}
use vibesurfer.Text.{Text}
use vibesurfer.Text.Laws.{No, No-append}
use vibesurfer.Text.Lines.{ends_line}
use vibesurfer.Protocol.Tokenize.{
  dquote, is_blank, clean, in_quotes, needs_quoting, quote_label, quote_value, strip_quotes,
}
use vibesurfer.Protocol.Tokenize.Laws.{
  spaced, no_quote, clean_self, strip_quotes-quote_label, strip_quotes-quote_value,
}

-- What a label or a value cannot hold: a quote is replaced, and the others end the line.
abbrev pub breaks_text : ℕ → Bool
breaks_text c = c == dquote || c == b'\n' || c == b'\r'

-- A label or a value with no quote is left as it is.
pub text-quote : (s : Text) → No breaks_text s → no_quote s ≡ false
text-quote [] h = refl
text-quote (c ∷ s) h = ground (arith, text-quote s)

pub strip_label : (s : Text) → No breaks_text s → strip_quotes (quote_label s) ≡ s
strip_label s h = strip_quotes-quote_label s ∙ clean_self s (text-quote s h)

pub strip_value : (s : Text) → No breaks_text s → strip_quotes (quote_value s) ≡ s
strip_value s h = strip_quotes-quote_value s ∙ clean_self s (text-quote s h)

pub clean-line : (s : Text) → No breaks_text s → No ends_line (clean s)
unfolding clean
clean-line [] h = refl
clean-line (c ∷ s) h = ground (arith, clean-line s)

pub in_quotes-line : (s : Text) → No ends_line s → No ends_line (in_quotes s)
unfolding in_quotes
in_quotes-line s h = No-append ends_line s (dquote ∷ []) h refl

pub label-line : (s : Text) → No breaks_text s → No ends_line (quote_label s)
unfolding quote_label
label-line s h = elim (Bool-cases (needs_quoting (clean s))) [
  | inl e ↦ rw e (in_quotes-line (clean s) (clean-line s h))
  | inr e ↦ rw e (clean-line s h)
]

pub value-line : (s : Text) → No breaks_text s → No ends_line (quote_value s)
unfolding quote_value
value-line s h = elim (Bool-cases (any is_blank (clean s))) [
  | inl e ↦ rw e (in_quotes-line (clean s) (clean-line s h))
  | inr e ↦ rw e (clean-line s h)
]

pub spaced-line : (ts : List Text) → All (No ends_line) ts → No ends_line (spaced ts)
spaced-line [] h = refl
spaced-line (t ∷ ts) h = No-append ends_line t (spaced ts) h.0 (spaced-line ts h.1)

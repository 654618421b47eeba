-- ===== src/Protocol/Tokenize/Laws.antt =====
-- What is quoted is one token, and stripping its quotes gives it back.
use vibesurfer.Prelude.{
  ℕ, zero, suc, ◌≤◌, Bool, true, false, not, ◌&&◌, List, [], ◌∷◌, ◌++◌, some, ◌≡◌, refl, ap, ◌∙◌,
  ◌≢◌, arith, ◌==◌, if◌then◌else◌, any, length, All, Bool-cases, inl, inr, length-append,
}
use vibesurfer.Text.{Text}
use vibesurfer.Protocol.Tokenize.{
  dquote, is_blank, cut_token, next, tokens_within, tokens, strip_quotes, clean, in_quotes,
  needs_quoting, quote_label, quote_value, unquote_end,
}

-- The cut goes through the whole text, and ends outside of quotes.
abbrev pub Closed : Bool → Text → Type 0
Closed quoted [] = quoted ≡ false
Closed quoted (c ∷ cs) =
    ((not quoted && is_blank c) ≡ false) × Closed (if c == dquote then not quoted else quoted) cs

-- A token of its own: not empty, and not cut in the middle.
abbrev pub IsToken : Text → Type 0
IsToken s = (s ≢ []) × Closed false s

abbrev pub at_blank : Text → Bool
at_blank [] = true
at_blank (c ∷ cs) = is_blank c

pub cut_token-Closed :
    (quoted : Bool) (s rest : Text)
    → Closed quoted s
    → at_blank rest ≡ true
    → cut_token quoted (s ++ rest) ≡ (s, rest)
unfolding cut_token
cut_token-Closed quoted [] [] h b = refl
cut_token-Closed quoted [] (c ∷ rest) h b = rw (h, b)
cut_token-Closed quoted (c ∷ s) rest h b =
    rw (cut_token-Closed (if c == dquote then not quoted else quoted) s rest h.1 b, h.0)

-- A list of tokens, each behind a space.
abbrev pub spaced : List Text → Text
spaced [] = []
spaced (t ∷ ts) = b' ' ∷ (t ++ spaced ts)

at_blank-spaced : (ts : List Text) → at_blank (spaced ts) ≡ true
at_blank-spaced [] = refl
at_blank-spaced (t ∷ ts) = refl

pub next-token :
    (t rest : Text) → IsToken t → at_blank rest ≡ true → next (t ++ rest) ≡ some (t, rest)
unfolding next
next-token [] rest h b = absurd (h.0 refl)
next-token (c ∷ t) rest h b = rw (h.1.0) (ap some (cut_token-Closed false (c ∷ t) rest h.1 b))

next_space : (s : Text) → next (b' ' ∷ s) ≡ next s
unfolding next
next_space s = refl

pub tokens_within-next :
    (n : ℕ) (s : Text) {t rest : Text}
    → next s ≡ some (t, rest)
    → tokens_within (suc n) s ≡ t ∷ tokens_within n rest
unfolding tokens_within
tokens_within-next n s e = rw (e, tokens_within)

pub tokens_within-spaced :
    (ts : List Text) (n : ℕ) → All IsToken ts → length ts ≤ n → tokens_within n (spaced ts) ≡ ts
unfolding tokens_within
tokens_within-spaced [] zero h k = refl
tokens_within-spaced [] (suc n) h k = unfold next in refl
tokens_within-spaced (t ∷ ts) zero h k = absurd (omega arith)
tokens_within-spaced (t ∷ ts) (suc n) h k =
    tokens_within-next n (spaced (t ∷ ts))
      (next_space (t ++ spaced ts) ∙ next-token t (spaced ts) h.0 (at_blank-spaced ts))
    ∙ ap (◌∷◌ t) (tokens_within-spaced ts n h.1 (omega arith))

pub length-spaced : (ts : List Text) → length ts ≤ length (spaced ts)
length-spaced [] = omega arith
length-spaced (t ∷ ts) = omega (arith, length-append {0} t (spaced ts), length-spaced ts)

-- A line of tokens, the first one given apart and each of the others behind one space, is cut into
-- those tokens, if each token is not empty, has no blank outside of quotes and closes its quotes.
pub tokens-spaced :
    (t : Text) (ts : List Text) → IsToken t → All IsToken ts → tokens (t ++ spaced ts) ≡ t ∷ ts
unfolding tokens
tokens-spaced [] ts h hs = absurd (h.0 refl)
tokens-spaced (c ∷ t) ts h hs =
    tokens_within-next (length (t ++ spaced ts)) (c ∷ (t ++ spaced ts))
      (next-token (c ∷ t) (spaced ts) h (at_blank-spaced ts))
    ∙ ap (◌∷◌ (c ∷ t)) (
        tokens_within-spaced ts _ hs
          (omega (arith, length-append {0} t (spaced ts), length-spaced ts)))

-- So is one that begins with a space.
pub tokens-spaced_rest : (ts : List Text) → All IsToken ts → tokens (spaced ts) ≡ ts
unfolding tokens
tokens-spaced_rest ts h = tokens_within-spaced ts (length (spaced ts)) h (length-spaced ts)

abbrev pub no_quote : Text → Bool
no_quote s = any (λ c. c == dquote) s

-- Inside quotes, everything but a quote is passed over.
Closed-in_quotes : (s : Text) → no_quote s ≡ false → Closed true (s ++ dquote ∷ [])
Closed-in_quotes [] h = (refl, refl)
Closed-in_quotes (c ∷ s) h = ground (arith, Closed-in_quotes s)

-- A text with no quote and no blank is never cut.
pub Closed-bare : (s : Text) → no_quote s ≡ false → any is_blank s ≡ false → Closed false s
Closed-bare [] h b = refl
Closed-bare (c ∷ s) h b = ground (arith, Closed-bare s)

-- A key and its value in front of a closed text.
pub Closed-append :
    (s t : Text)
    → no_quote s ≡ false
    → any is_blank s ≡ false
    → Closed false t
    → Closed false (s ++ t)
Closed-append [] t h b k = k
Closed-append (c ∷ s) t h b k = ground (arith, Closed-append s t)

clean-no_quote : (s : Text) → no_quote (clean s) ≡ false
unfolding clean
clean-no_quote [] = refl
clean-no_quote (c ∷ s) = ground (arith, clean-no_quote s)

-- Only quotes are replaced.
pub clean_self : (s : Text) → no_quote s ≡ false → clean s ≡ s
unfolding clean
clean_self [] h = refl
clean_self (c ∷ s) h = ground (arith, clean_self s)

Closed-quoted : (s : Text) → no_quote s ≡ false → Closed false (in_quotes s)
unfolding in_quotes
Closed-quoted s h = (refl, Closed-in_quotes s h)

pub in_quotes-ne-nil : (s : Text) → in_quotes s ≢ []
unfolding in_quotes
in_quotes-ne-nil s h = cc

-- A quoted label is one token of the wire, whatever the label holds.
pub quote_label-IsToken : (s : Text) → IsToken (quote_label s)
unfolding quote_label needs_quoting
quote_label-IsToken s = elim (Bool-cases (needs_quoting (clean s))) [
  | inl q ↦ rw q (in_quotes-ne-nil (clean s), Closed-quoted (clean s) (clean-no_quote s))
  | inr b ↦ rw b (ground (arith), Closed-bare (clean s) (clean-no_quote s) (ground arith))
]

-- A quoted value never breaks a token.
pub quote_value-Closed : (s : Text) → Closed false (quote_value s)
unfolding quote_value
quote_value-Closed s = elim (Bool-cases (any is_blank (clean s))) [
  | inl q ↦ rw q (Closed-quoted (clean s) (clean-no_quote s))
  | inr b ↦ rw b (Closed-bare (clean s) (clean-no_quote s) b)
]

-- A quoted value is a token of its own, unless it is empty.
pub quote_value-IsToken : (s : Text) → s ≢ [] → IsToken (quote_value s)
unfolding quote_value clean in_quotes
quote_value-IsToken [] h = absurd (h refl)
quote_value-IsToken (c ∷ s) h = (ground arith, quote_value-Closed (c ∷ s))

unquote_end-append : (s : Text) → unquote_end (s ++ dquote ∷ []) ≡ some s
unquote_end-append [] = refl
unquote_end-append (c ∷ []) = refl
unquote_end-append (c ∷ d ∷ s) = rw (unquote_end-append (d ∷ s))

pub strip_quotes-in_quotes : (s : Text) → strip_quotes (in_quotes s) ≡ s
unfolding strip_quotes in_quotes
strip_quotes-in_quotes s = rw (unquote_end-append s)

pub strip_quotes-bare : (s : Text) → no_quote s ≡ false → strip_quotes s ≡ s
unfolding strip_quotes
strip_quotes-bare [] h = refl
strip_quotes-bare (c ∷ s) h = ground arith

-- Stripping the quotes of any quoted label gives the label with each double quote replaced by a
-- single one.
pub strip_quotes-quote_label : (s : Text) → strip_quotes (quote_label s) ≡ clean s
unfolding quote_label
strip_quotes-quote_label s = elim (Bool-cases (needs_quoting (clean s))) [
  | inl q ↦ rw q (strip_quotes-in_quotes (clean s))
  | inr b ↦ rw b (strip_quotes-bare (clean s) (clean-no_quote s))
]

pub strip_quotes-quote_value : (s : Text) → strip_quotes (quote_value s) ≡ clean s
unfolding quote_value
strip_quotes-quote_value s = elim (Bool-cases (any is_blank (clean s))) [
  | inl q ↦ rw q (strip_quotes-in_quotes (clean s))
  | inr b ↦ rw b (strip_quotes-bare (clean s) (clean-no_quote s))
]

-- ===== src/Protocol/Request/Cut.antt =====
-- The splitter takes a written argument as one token.
use vibesurfer.Prelude.{
  ℕ, zero, suc, ◌≤◌, Bool, true, false, not, ◌&&◌, ◌||◌, List, [], ◌∷◌, ◌++◌, some, ◌≡◌, refl, ap,
  ◌∙◌, ◌≢◌, arith, ◌==◌, if◌then◌else◌, any, all, length, All, Bool-cases, inl, inr, length-append,
  append-nil,
}
use vibesurfer.Text.{Text}
use vibesurfer.Protocol.Tokenize.{dquote, is_blank, in_quotes}
use vibesurfer.Protocol.Tokenize.Laws.{spaced, at_blank, length-spaced}
use vibesurfer.Protocol.Request.{
  backslash, escape_char, escape_chars, quote_arg, needs_quotes, cut_raw, next_raw,
  raw_tokens_within, raw_tokens, is_valid_primitive,
}

-- The cut goes through the whole text, and ends outside of quotes and escapes.
abbrev pub Uncut : Bool → Bool → Text → Type 0
Uncut escaped quoted [] = (escaped ≡ false) × (quoted ≡ false)
Uncut escaped quoted (c ∷ cs) =
    ((not escaped && not quoted && is_blank c) ≡ false)
    × Uncut (not escaped && c == backslash)
        (if not escaped && c == dquote then not quoted else quoted) cs

abbrev pub IsRawToken : Text → Type 0
IsRawToken s = (s ≢ []) × Uncut false false s

cut_raw-Uncut :
    (escaped quoted : Bool) (s rest : Text)
    → Uncut escaped quoted s
    → at_blank rest ≡ true
    → cut_raw escaped quoted (s ++ rest) ≡ (s, rest)
unfolding cut_raw
cut_raw-Uncut escaped quoted [] [] h b = refl
cut_raw-Uncut escaped quoted [] (c ∷ rest) h b = rw (h.0, h.1, b)
cut_raw-Uncut escaped quoted (c ∷ s) rest h b = rw (
  cut_raw-Uncut (not escaped && c == backslash)
      (if not escaped && c == dquote then not quoted else quoted) s rest h.1 b,
  h.0,
)

at_blank-spaced : (ts : List Text) → at_blank (spaced ts) ≡ true
at_blank-spaced [] = refl
at_blank-spaced (t ∷ ts) = refl

next_raw-token :
    (t rest : Text) → IsRawToken t → at_blank rest ≡ true → next_raw (t ++ rest) ≡ some (t, rest)
unfolding next_raw
next_raw-token [] rest h b = absurd (h.0 refl)
next_raw-token (c ∷ t) rest h b =
    rw (h.1.0) (ap some (cut_raw-Uncut false false (c ∷ t) rest h.1 b))

next_raw_space : (s : Text) → next_raw (b' ' ∷ s) ≡ next_raw s
unfolding next_raw
next_raw_space s = refl

raw_tokens_within-next :
    (n : ℕ) (s : Text) {t rest : Text}
    → next_raw s ≡ some (t, rest)
    → raw_tokens_within (suc n) s ≡ t ∷ raw_tokens_within n rest
unfolding raw_tokens_within
raw_tokens_within-next n s e = rw (e, raw_tokens_within)

raw_tokens_within-spaced :
    (ts : List Text) (n : ℕ)
    → All IsRawToken ts
    → length ts ≤ n
    → raw_tokens_within n (spaced ts) ≡ ts
unfolding raw_tokens_within
raw_tokens_within-spaced [] zero h k = refl
raw_tokens_within-spaced [] (suc n) h k = unfold next_raw in refl
raw_tokens_within-spaced (t ∷ ts) zero h k = absurd (omega arith)
raw_tokens_within-spaced (t ∷ ts) (suc n) h k =
    raw_tokens_within-next n (spaced (t ∷ ts))
      (next_raw_space (t ++ spaced ts) ∙ next_raw-token t (spaced ts) h.0 (at_blank-spaced ts))
    ∙ ap (◌∷◌ t) (raw_tokens_within-spaced ts n h.1 (omega arith))

-- A line of raw tokens, the first one given apart and each of the others behind one space, is cut
-- into those tokens, if each token is not empty, has no blank that is neither quoted nor escaped,
-- and does not end within quotes or behind an escaping backslash.
pub raw_tokens-spaced :
    (t : Text) (ts : List Text)
    → IsRawToken t
    → All IsRawToken ts
    → raw_tokens (t ++ spaced ts) ≡ t ∷ ts
unfolding raw_tokens
raw_tokens-spaced [] ts h hs = absurd (h.0 refl)
raw_tokens-spaced (c ∷ t) ts h hs =
    raw_tokens_within-next (length (t ++ spaced ts)) (c ∷ (t ++ spaced ts))
      (next_raw-token (c ∷ t) (spaced ts) h (at_blank-spaced ts))
    ∙ ap (◌∷◌ (c ∷ t)) (
        raw_tokens_within-spaced ts (length (t ++ spaced ts)) hs
          (omega (arith, length-append {0} t (spaced ts), length-spaced ts)))

-- A character that neither quotes, escapes nor separates.
abbrev pub is_plain : ℕ → Bool
is_plain c = not (c == dquote) && not (c == backslash) && not (is_blank c)

pub Uncut-plain :
    (s t : Text) → all is_plain s ≡ true → Uncut false false t → Uncut false false (s ++ t)
Uncut-plain [] t h k = k
Uncut-plain (c ∷ s) t h k = ground (arith, Uncut-plain s t)

Uncut-escape_char :
    (quoted : Bool) (c : ℕ) (s : Text)
    → (not quoted && any is_blank (escape_char c [])) ≡ false
    → Uncut false quoted s
    → Uncut false quoted (escape_char c s)
unfolding escape_char
Uncut-escape_char true c s h k = ground arith
Uncut-escape_char false c s h k = ground arith

blank-escape_char :
    (c : ℕ) (s : Text)
    → any is_blank (escape_char c s) ≡ (any is_blank (escape_char c []) || any is_blank s)
unfolding escape_char
blank-escape_char c s = ground arith

escape_char-append : (c : ℕ) (s t : Text) → escape_char c s ++ t ≡ escape_char c (s ++ t)
unfolding escape_char
escape_char-append c s t = ground arith

Uncut-escape_chars :
    (quoted : Bool) (s t : Text)
    → (not quoted && any is_blank (escape_chars s)) ≡ false
    → Uncut false quoted t
    → Uncut false quoted (escape_chars s ++ t)
unfolding escape_chars
Uncut-escape_chars quoted [] t h k = k
Uncut-escape_chars quoted (c ∷ s) t h k =
    let parts = rw (blank-escape_char c (escape_chars s)) at h in
    rw (escape_char-append c (escape_chars s) t) (
      Uncut-escape_char quoted c (escape_chars s ++ t) (ground arith)
        (Uncut-escape_chars quoted s t (ground arith) k))

not_blank : (s : Text) → needs_quotes s ≡ false → (any is_blank s ≡ false) × (s ≢ [])
not_blank [] h = cc
not_blank (c ∷ s) h = (h, (cc))

Uncut-bare : (s : Text) → needs_quotes (escape_chars s) ≡ false → Uncut false false (escape_chars s)
Uncut-bare s e =
    rw append-nil at (Uncut-escape_chars false s [] (not_blank (escape_chars s) e).0 (refl, refl))

-- However it is written, an argument is not cut.
pub Uncut-quote_arg : (s : Text) → Uncut false false (quote_arg (escape_chars s))
unfolding quote_arg in_quotes
Uncut-quote_arg s = elim (Bool-cases (needs_quotes (escape_chars s))) [
  | inl e ↦ rw e (refl, Uncut-escape_chars true s (dquote ∷ []) refl (refl, (refl, refl)))
  | inr e ↦ rw e (Uncut-bare s e)
]

pub quote_arg-ne-nil : (s : Text) → quote_arg s ≢ []
unfolding quote_arg in_quotes
quote_arg-ne-nil [] h = cc
quote_arg-ne-nil (c ∷ s) h = ground arith

primitive-plain : (s : Text) → is_valid_primitive s ≡ true → (all is_plain s ≡ true) × (s ≢ [])
unfolding is_valid_primitive
primitive-plain [] h = cc
primitive-plain (c ∷ []) h = (ground arith, (cc))
primitive-plain (c ∷ d ∷ s) h =
    let rest = primitive-plain (d ∷ s) (ground arith) in (ground arith, (cc))

pub primitive-IsRawToken : (s : Text) → is_valid_primitive s ≡ true → IsRawToken s
primitive-IsRawToken s h =
    let (p, ne) = primitive-plain s h in (ne, rw append-nil at (Uncut-plain s [] p (refl, refl)))

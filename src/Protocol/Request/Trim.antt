-- ===== src/Protocol/Request/Trim.antt =====
-- Trimming takes nothing but the line feed off a written request.
use vibesurfer.Prelude.{
  ℕ, Bool, true, false, not, ◌&&◌, ◌||◌, List, [], ◌∷◌, ◌++◌, ◌≡◌, refl, ◌≢◌, arith, ◌==◌, any, All,
  Bool-cases, inl, inr, append-nil,
}
use vibesurfer.Text.{Text, trim, trim_end, trim_start, is_whitespace}
use vibesurfer.Text.Laws.{trim_end-drop}
use vibesurfer.Protocol.Tokenize.{dquote, is_blank, in_quotes}
use vibesurfer.Protocol.Tokenize.Laws.{spaced}
use vibesurfer.Protocol.Request.{
  escape_char, escape_chars, quote_arg, needs_quotes, is_valid_primitive,
}

-- The text ends in a character that `p` does not take.
abbrev pub EndsOutside : (ℕ → Bool) → Text → Type 0
EndsOutside p [] = ⊥
EndsOutside p (c ∷ []) = p c ≡ false
EndsOutside p (c ∷ d ∷ s) = EndsOutside p (d ∷ s)

pub trim_end-EndsOutside : (p : ℕ → Bool) (s : Text) → EndsOutside p s → trim_end p s ≡ s
unfolding trim_end
trim_end-EndsOutside p [] h = absurd h
trim_end-EndsOutside p (c ∷ []) h = rw h
trim_end-EndsOutside p (c ∷ d ∷ s) h = rw (trim_end-EndsOutside p (d ∷ s) h)

EndsOutside-cons : (p : ℕ → Bool) (c : ℕ) (t : Text) → EndsOutside p t → EndsOutside p (c ∷ t)
EndsOutside-cons p c [] h = absurd h
EndsOutside-cons p c (d ∷ t) h = h

pub EndsOutside-append : (p : ℕ → Bool) (s t : Text) → EndsOutside p t → EndsOutside p (s ++ t)
EndsOutside-append p [] t h = h
EndsOutside-append p (c ∷ s) t h = EndsOutside-cons p c (s ++ t) (EndsOutside-append p s t h)

EndsOutside-any : (p : ℕ → Bool) (s : Text) → s ≢ [] → any p s ≡ false → EndsOutside p s
EndsOutside-any p [] ne h = absurd (ne refl)
EndsOutside-any p (c ∷ []) ne h = ground arith
EndsOutside-any p (c ∷ d ∷ s) ne h = EndsOutside-any p (d ∷ s) (cc) (ground arith)

pub EndsOutside-spaced :
    (p : ℕ → Bool) (t : Text) (ts : List Text)
    → EndsOutside p t
    → All (EndsOutside p) ts
    → EndsOutside p (t ++ spaced ts)
EndsOutside-spaced p t [] h hs = rw append-nil h
EndsOutside-spaced p t (u ∷ ts) h hs =
    EndsOutside-append p t (spaced (u ∷ ts))
      (EndsOutside-cons p b' ' (u ++ spaced ts) (EndsOutside-spaced p u ts hs.0 hs.1))

whitespace_newline : (s : Text) → EndsOutside is_whitespace s → EndsOutside (λ c. c == b'\n') s
unfolding is_whitespace
whitespace_newline [] h = h
whitespace_newline (c ∷ []) h = ground arith
whitespace_newline (c ∷ d ∷ s) h = whitespace_newline (d ∷ s) h

abbrev pub StartsOutside : (ℕ → Bool) → Text → Type 0
StartsOutside p [] = ⊥
StartsOutside p (c ∷ s) = p c ≡ false

trim_start-StartsOutside : (p : ℕ → Bool) (s : Text) → StartsOutside p s → trim_start p s ≡ s
unfolding trim_start
trim_start-StartsOutside p [] h = absurd h
trim_start-StartsOutside p (c ∷ s) h = rw h

-- What `Request::parse` does to a line first.
pub trim_line :
    (s : Text)
    → StartsOutside is_whitespace s
    → EndsOutside is_whitespace s
    → trim (trim_end (λ c. c == b'\n') (s ++ b'\n' ∷ [])) ≡ s
unfolding trim
trim_line s h k =
    rw
      (
        trim_end-drop (λ c. c == b'\n') s b'\n' refl,
        trim_end-EndsOutside (λ c. c == b'\n') s (whitespace_newline s k),
        trim_end-EndsOutside is_whitespace s k,
      )
      (trim_start-StartsOutside is_whitespace s h)

-- White space that is neither quoted nor escaped on the wire.
abbrev pub is_exotic : ℕ → Bool
is_exotic c = is_whitespace c && not (c == b' ' || c == b'\t' || c == b'\n' || c == b'\r')

whitespace-escape_char :
    (c : ℕ) (s : Text)
    → is_exotic c ≡ false
    → any is_blank (escape_char c s) ≡ false
    → any is_whitespace s ≡ false
    → any is_whitespace (escape_char c s) ≡ false
unfolding escape_char is_whitespace
whitespace-escape_char c s x b h = ground arith

blank-escape_char :
    (c : ℕ) (s : Text) → any is_blank (escape_char c s) ≡ false → any is_blank s ≡ false
unfolding escape_char
blank-escape_char c s h = ground arith

whitespace-escape_chars :
    (s : Text)
    → any is_exotic s ≡ false
    → any is_blank (escape_chars s) ≡ false
    → any is_whitespace (escape_chars s) ≡ false
unfolding escape_chars
whitespace-escape_chars [] x b = refl
whitespace-escape_chars (c ∷ s) x b =
    whitespace-escape_char c (escape_chars s) (ground arith) b
      (whitespace-escape_chars s (ground arith) (blank-escape_char c (escape_chars s) b))

not_blank : (s : Text) → needs_quotes s ≡ false → (any is_blank s ≡ false) × (s ≢ [])
not_blank [] h = cc
not_blank (c ∷ s) h = (h, (cc))

-- Without such white space an argument ends, as it is written, in a character that is not trimmed.
pub EndsOutside-quote_arg :
    (s : Text) → any is_exotic s ≡ false → EndsOutside is_whitespace (quote_arg (escape_chars s))
unfolding quote_arg in_quotes
EndsOutside-quote_arg s x = elim (Bool-cases (needs_quotes (escape_chars s))) [
  | inl e ↦ rw e (
      EndsOutside-append is_whitespace (dquote ∷ escape_chars s) (dquote ∷ [])
        (unfold is_whitespace in refl))
  | inr e ↦ rw e (
      let (b, ne) = not_blank (escape_chars s) e in
      EndsOutside-any is_whitespace (escape_chars s) ne (whitespace-escape_chars s x b))
]

pub primitive_ends :
    (s : Text)
    → is_valid_primitive s ≡ true
    → StartsOutside is_whitespace s × EndsOutside is_whitespace s
unfolding is_valid_primitive is_whitespace
primitive_ends [] h = cc
primitive_ends (c ∷ []) h = (ground arith, ground arith)
primitive_ends (c ∷ d ∷ s) h = (ground arith, (primitive_ends (d ∷ s) (ground arith)).1)

-- ===== src/Protocol/Tokenize.antt =====
-- crates/vs-protocol/src/tokenize.rs. A `Tokenizer` is the rest of its input; iterating it to the
-- end is `tokens`.
pub mod Laws
pub mod Safe
use vibesurfer.Prelude.{
  ℕ, zero, suc, ◌/◌, Bool, true, false, not, ◌&&◌, ◌||◌, List, [], ◌∷◌, ◌++◌, Option, none, some,
  ltb, leb, ◌==◌, if◌then◌else◌, any, length, map,
}
use vibesurfer.Text.{Text}

abbrev pub dquote : ℕ
dquote = b'"'

abbrev pub is_blank : ℕ → Bool
is_blank c = c == b' ' || c == b'\t'

unfoldable pub trim_start_spaces : Text → Text
trim_start_spaces [] = []
trim_start_spaces (c ∷ cs) = let rest = trim_start_spaces cs in if is_blank c then rest else c ∷ cs

abbrev pub before_cut : ℕ → Text × Text → Text × Text
before_cut c (raw, rest) = (c ∷ raw, rest)

-- The loop over `end`: the flag is `in_quotes`. The token and what is behind it.
unfoldable pub cut_token : Bool → Text → Text × Text
cut_token quoted [] = ([], [])
cut_token quoted (c ∷ cs) =
    let more = before_cut c (cut_token (if c == dquote then not quoted else quoted) cs) in
    if not quoted && is_blank c then ([], c ∷ cs) else more

abbrev cut_trimmed : Text → Option (Text × Text)
cut_trimmed [] = none
cut_trimmed (c ∷ cs) = some (cut_token false (c ∷ cs))

-- `Tokenizer::next`, with the rest that the tokenizer then holds.
unfoldable pub next : Text → Option (Text × Text)
unfolding trim_start_spaces cut_token
next rest = cut_trimmed (trim_start_spaces rest)

-- `n` calls of `next` at most.
unfoldable pub tokens_within : ℕ → Text → List Text
tokens_within zero s = []
tokens_within (suc n) s = elim (next s) [
  | none ↦ []
  | some (raw, rest) ↦ raw ∷ tokens_within n rest
]

-- Each call takes a character at least.
unfoldable pub tokens : Text → List Text
unfolding tokens_within next
tokens s = tokens_within (length s) s

abbrev unquote_end : Text → Option Text
unquote_end [] = none
unquote_end (c ∷ []) = if c == dquote then some [] else none
unquote_end (c ∷ d ∷ ds) = elim (unquote_end (d ∷ ds)) [ none ↦ none | some s ↦ some (c ∷ s) ]

abbrev unquote_or : Text → Option Text → Text
unquote_or s none = s
unquote_or s (some t) = t

-- The slice between the quotes, if the text is of two bytes at least and stands in quotes.
unfoldable pub strip_quotes : Text → Text
strip_quotes [] = []
strip_quotes (c ∷ cs) = if c == dquote then unquote_or (c ∷ cs) (unquote_end cs) else c ∷ cs

-- What both quoting functions replace.
unfoldable pub clean : Text → Text
clean = map (λ c. if c == dquote then b'\'' else c)

unfoldable pub in_quotes : Text → Text
in_quotes s = dquote ∷ (s ++ dquote ∷ [])

abbrev is_empty : Text → Bool
is_empty [] = true
is_empty (c ∷ cs) = false

unfoldable pub needs_quoting : Text → Bool
needs_quoting s = is_empty s || any is_blank s

unfoldable pub quote_label : Text → Text
unfolding clean in_quotes needs_quoting
quote_label s =
    let cleaned = clean s in if needs_quoting cleaned then in_quotes cleaned else cleaned

unfoldable pub quote_value : Text → Text
unfolding clean in_quotes
quote_value s = let cleaned = clean s in if any is_blank cleaned then in_quotes cleaned else cleaned

-- The number of leading spaces, and what follows them.
unfoldable pub leading_spaces : Text → ℕ × Text
leading_spaces [] = (0, [])
leading_spaces (c ∷ cs) =
    let (n, rest) = leading_spaces cs in if c == b' ' then (suc n, rest) else (0, c ∷ cs)

unfoldable pub split_indent : Text → ℕ × Text
unfolding leading_spaces
split_indent line = let (n, rest) = leading_spaces line in (n / 2, rest)

-- ===== src/Text.antt =====
-- The operations of Rust's `str` that the sources call, over lists of Unicode scalar values.
-- Offsets into a `&str` are byte offsets in Rust; every split in the sources stands at an ASCII
-- character, so the pieces are the same.
pub mod Decimal
pub mod Laws
pub mod Lines
use Prim.Native.Char.{code}
use vibesurfer.Prelude.{
  ℕ, ◌+◌, Bool, true, false, not, ◌&&◌, ◌||◌, List, [], ◌∷◌, ◌++◌, Option, none, some, String, ltb,
  leb, ◌==◌, if◌then◌else◌, any,
}

abbrev pub Text : Type 0
Text = List ℕ

-- A literal of the sources.
abbrev pub codes : String → Text
codes String.[] = []
codes (String.◌∷◌ c s) = code c ∷ codes s

-- The Unicode property White_Space, which `str::trim` goes by.
unfoldable pub is_whitespace : ℕ → Bool
is_whitespace c =
    (leb 9 c && leb c 13)
    || c == 32
    || c == 0x85
    || c == 0xa0
    || c == 0x1680
    || (leb 0x2000 c && leb c 0x200a)
    || c == 0x2028
    || c == 0x2029
    || c == 0x202f
    || c == 0x205f
    || c == 0x3000

unfoldable pub text_eq : Text → Text → Bool
text_eq [] [] = true
text_eq (a ∷ s) (b ∷ t) = a == b && text_eq s t
text_eq _ _ = false

unfoldable pub trim_start : (ℕ → Bool) → Text → Text
trim_start p [] = []
trim_start p (c ∷ cs) = let rest = trim_start p cs in if p c then rest else c ∷ cs

-- `c` in front of a text whose end is trimmed.
unfoldable pub keep_before : (ℕ → Bool) → ℕ → Text → Text
keep_before p c [] = if p c then [] else c ∷ []
keep_before p c (d ∷ ds) = c ∷ d ∷ ds

unfoldable pub trim_end : (ℕ → Bool) → Text → Text
unfolding keep_before
trim_end p [] = []
trim_end p (c ∷ cs) = keep_before p c (trim_end p cs)

unfoldable pub trim : Text → Text
unfolding trim_start trim_end is_whitespace
trim s = trim_start is_whitespace (trim_end is_whitespace s)

unfoldable pub contains : ℕ → Text → Bool
contains c = any (λ d. d == c)

unfoldable pub starts_with : Text → Text → Bool
starts_with [] s = true
starts_with (p ∷ ps) [] = false
starts_with (p ∷ ps) (c ∷ cs) = p == c && starts_with ps cs

unfoldable pub strip_prefix : Text → Text → Option Text
strip_prefix [] s = some s
strip_prefix (p ∷ ps) [] = none
strip_prefix (p ∷ ps) (c ∷ cs) = if p == c then strip_prefix ps cs else none

abbrev pub before_split : ℕ → Option (Text × Text) → Option (Text × Text)
before_split c none = none
before_split c (some (l, r)) = some (c ∷ l, r)

-- `split_once`: at the first separator.
unfoldable pub split_once : ℕ → Text → Option (Text × Text)
split_once sep [] = none
split_once sep (c ∷ cs) = if c == sep then some ([], cs) else before_split c (split_once sep cs)

abbrev pub glue : ℕ → List Text → List Text
glue c [] = (c ∷ []) ∷ []
glue c (l ∷ ls) = (c ∷ l) ∷ ls

-- `split`: at every separator; a text has at least one piece.
unfoldable pub split : ℕ → Text → List Text
split sep [] = [] ∷ []
split sep (c ∷ cs) = if c == sep then [] ∷ split sep cs else glue c (split sep cs)

abbrev pub at_newline : Text → Bool
at_newline [] = false
at_newline (c ∷ cs) = c == b'\n'

-- `lines`: each line without its `\n` or `\r\n`; nothing after the last line end.
unfoldable pub lines : Text → List Text
lines [] = []
lines (c ∷ cs) =
    let rest = lines cs in
    if c == b'\n' then [] ∷ rest else if c == b'\r' && at_newline cs then rest else glue c rest

-- The order of `String`: lexicographic. UTF-8 keeps the order of the scalar values.
unfoldable pub text_lt : Text → Text → Bool
text_lt s [] = false
text_lt [] (b ∷ t) = true
text_lt (a ∷ s) (b ∷ t) = ltb a b || (a == b && text_lt s t)

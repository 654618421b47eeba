-- ===== src/Protocol/Request.antt =====
-- crates/vs-protocol/src/request.rs.
pub mod Escape
pub mod Cut
pub mod Trim
pub mod Tokens
pub mod RoundTrip
mod Examples
use vibesurfer.Prelude.{
  ℕ, zero, suc, Bool, true, false, not, ◌&&◌, ◌||◌, List, [], ◌∷◌, ◌++◌, Option, none, some, ltb,
  leb, ◌==◌, if◌then◌else◌, any, all, length, map,
}
use vibesurfer.Text.{
  Text, codes, trim, trim_end, trim_start, strip_prefix, split_once, text_lt, is_whitespace,
}
use vibesurfer.Sorted.{insert}
use vibesurfer.Protocol.Error.{Result, ok, err, invalid_request, ◌>>=◌, ◌>>◌, guard}
use vibesurfer.Protocol.Tokenize.{dquote, is_blank, strip_quotes, before_cut, in_quotes}

abbrev pub Flag : Type 0
Flag = Text × Option Text

-- `flags` is in the order of the names.
pub record Request : Type 0 where
  pub primitive : Text
  pub args : List Text
  pub flags : List Flag

abbrev pub flag_lt : Flag → Flag → Bool
flag_lt f g = text_lt f.0 g.0

unfoldable pub new_request : Text → Request
new_request p = record { primitive = p; args = []; flags = [] }

unfoldable pub arg : Request → Text → Request
arg r v = record r { args = r.args ++ v ∷ [] }

unfoldable pub flag : Request → Text → Request
unfolding insert text_lt
flag r name = record r { flags = insert flag_lt (name, none) r.flags }

unfoldable pub flag_value : Request → Text → Text → Request
unfolding insert text_lt
flag_value r name v = record r { flags = insert flag_lt (name, some v) r.flags }

abbrev pub backslash : ℕ
backslash = b'\\'

abbrev pub is_special : ℕ → Bool
is_special c = c == backslash || c == dquote || c == b'\n' || c == b'\r' || c == b'\t'

unfoldable pub escape_char : ℕ → Text → Text
escape_char c rest =
    if c == backslash
    then backslash ∷ backslash ∷ rest
    else if c == dquote
    then backslash ∷ dquote ∷ rest
    else if c == b'\n'
    then backslash ∷ b'n' ∷ rest
    else if c == b'\r'
    then backslash ∷ b'r' ∷ rest
    else if c == b'\t'
    then backslash ∷ b't' ∷ rest
    else c ∷ rest

unfoldable pub escape_chars : Text → Text
unfolding escape_char
escape_chars [] = []
escape_chars (c ∷ cs) = escape_char c (escape_chars cs)

unfoldable pub escape_wire : Text → Text
unfolding escape_chars
escape_wire s = if not (any is_special s) then s else escape_chars s

-- What a backslash and the character behind it stand for.
unfoldable pub unescape_char : ℕ → Text → Text
unescape_char c rest =
    if c == backslash
    then backslash ∷ rest
    else if c == dquote
    then dquote ∷ rest
    else if c == b'n'
    then b'\n' ∷ rest
    else if c == b'r'
    then b'\r' ∷ rest
    else if c == b't'
    then b'\t' ∷ rest
    else backslash ∷ c ∷ rest

-- The flag says that a backslash has just been taken from the iterator.
unfoldable pub unescape_chars : Bool → Text → Text
unfolding unescape_char
unescape_chars false [] = []
unescape_chars true [] = backslash ∷ []
unescape_chars true (c ∷ cs) = unescape_char c (unescape_chars false cs)
unescape_chars false (c ∷ cs) =
    let rest = unescape_chars (c == backslash) cs in if c == backslash then rest else c ∷ rest

unfoldable pub unescape_wire : Text → Text
unfolding unescape_chars
unescape_wire s = if not (any (λ c. c == backslash) s) then s else unescape_chars false s

abbrev pub needs_quotes : Text → Bool
needs_quotes [] = true
needs_quotes (c ∷ cs) = any is_blank (c ∷ cs)

unfoldable pub quote_arg : Text → Text
unfolding in_quotes
quote_arg escaped = if needs_quotes escaped then in_quotes escaped else escaped

-- The loop over `char_indices`. The flags: the last character was an escaping backslash; `in_quotes`.
unfoldable pub cut_raw : Bool → Bool → Text → Text × Text
cut_raw escaped quoted [] = ([], [])
cut_raw escaped quoted (c ∷ cs) =
    let bare = not escaped in
    let quoted' = if bare && c == dquote then not quoted else quoted in
    let more = before_cut c (cut_raw (bare && c == backslash) quoted' cs) in
    if bare && not quoted && is_blank c then ([], c ∷ cs) else more

abbrev cut_raw_trimmed : Text → Option (Text × Text)
cut_raw_trimmed [] = none
cut_raw_trimmed (c ∷ cs) = some (cut_raw false false (c ∷ cs))

-- One round of the outer loop: the token and the new `rest`, or the return.
unfoldable pub next_raw : Text → Option (Text × Text)
unfolding trim_start cut_raw
next_raw rest = cut_raw_trimmed (trim_start is_blank rest)

unfoldable pub raw_tokens_within : ℕ → Text → List Text
raw_tokens_within zero s = []
raw_tokens_within (suc n) s = elim (next_raw s) [
  | none ↦ []
  | some (raw, rest) ↦ raw ∷ raw_tokens_within n rest
]

-- Each round takes a character at least.
unfoldable pub raw_tokens : Text → List Text
unfolding raw_tokens_within next_raw
raw_tokens s = raw_tokens_within (length s) s

unfoldable pub is_valid_primitive : Text → Bool
is_valid_primitive [] = false
is_valid_primitive (c ∷ cs) =
    all (λ d. (leb b'a' d && leb d b'z') || (leb b'0' d && leb d b'9') || d == b'_') (c ∷ cs)

abbrev dashes : Text
dashes = b'-' ∷ b'-' ∷ []

unfoldable pub encode_args : List Text → Text
unfolding quote_arg escape_wire
encode_args [] = []
encode_args (a ∷ as') = b' ' ∷ (quote_arg (escape_wire a) ++ encode_args as')

unfoldable pub encode_flag_value : Option Text → Text
unfolding quote_arg escape_wire
encode_flag_value none = []
encode_flag_value (some v) = b'=' ∷ quote_arg (escape_wire v)

unfoldable pub encode_flags : List Flag → Text
unfolding encode_flag_value
encode_flags [] = []
encode_flags ((k, v) ∷ fs) = b' ' ∷ ((b'-' ∷ b'-' ∷ (k ++ encode_flag_value v)) ++ encode_flags fs)

unfoldable pub encode : Request → Text
unfolding encode_args encode_flags
encode r = r.primitive ++ (encode_args r.args ++ (encode_flags r.flags ++ b'\n' ∷ []))

unfoldable pub named_flag : Text → Option Text → List Flag → Result (List Flag)
unfolding insert text_lt
named_flag [] v flags = err (invalid_request "flag with empty name")
named_flag (c ∷ cs) v flags = ok (insert flag_lt (c ∷ cs, v) flags)

-- A token behind its `--`.
unfoldable pub parse_flag : Text → List Flag → Result (List Flag)
unfolding split_once unescape_wire strip_quotes named_flag
parse_flag [] flags = err (invalid_request "flag with no name")
parse_flag (c ∷ cs) flags = elim (split_once b'=' (c ∷ cs)) [
  | none ↦ ok (insert flag_lt (c ∷ cs, none) flags)
  | some (name, value) ↦ named_flag name (some (unescape_wire (strip_quotes value))) flags
]

-- The loop over the tokens behind the primitive.
unfoldable pub parse_rest : List Text → List Text → List Flag → Result (List Text × List Flag)
unfolding strip_prefix parse_flag unescape_wire strip_quotes
parse_rest [] args flags = ok (args, flags)
parse_rest (t ∷ ts) args flags = elim (strip_prefix dashes t) [
  | none ↦ parse_rest ts (args ++ unescape_wire (strip_quotes t) ∷ []) flags
  | some rest ↦ parse_flag rest flags >>= λ flags'. parse_rest ts args flags'
]

unfoldable pub parse_tokens : List Text → Result Request
unfolding parse_rest is_valid_primitive
parse_tokens [] = err (invalid_request "missing primitive")
parse_tokens (t ∷ ts) = do
  guard (is_valid_primitive t) (invalid_request "invalid primitive name")
  (args, flags) ← parse_rest ts [] []
  ok (record { primitive = t; args = args; flags = flags })

abbrev pub parse_trimmed : Text → Result Request
unfolding raw_tokens parse_tokens
parse_trimmed [] = err (invalid_request "empty request line")
parse_trimmed (c ∷ cs) = parse_tokens (raw_tokens (c ∷ cs))

unfoldable pub parse : Text → Result Request
unfolding trim trim_end parse_tokens raw_tokens
parse line = parse_trimmed (trim (trim_end (λ c. c == b'\n') line))

-- ===== src/Protocol/Envelope.antt =====
-- crates/vs-protocol/src/envelope.rs.
pub mod Token
pub mod Lines
pub mod RoundTrip
mod Examples
use vibesurfer.Prelude.{
  ℕ, zero, suc, ◌+◌, Bool, true, false, not, ◌&&◌, ◌||◌, List, [], ◌∷◌, ◌++◌, Option, none, some,
  ◌==◌, if◌then◌else◌, map,
}
use vibesurfer.Text.{Text, trim, trim_end, lines}
use vibesurfer.Protocol.Error.{Result, ok, err, invalid_envelope, ◌>>=◌}
use vibesurfer.Protocol.Codes.{
  ErrorCode, error_code, error_str, WarningCode, warning_code, warning_str, from_str,
}
use vibesurfer.Protocol.Tokenize.{tokens, quote_value, strip_quotes}
use Token.{StateToken}
use Token

pub record Warning : Type 0 where
  pub code : WarningCode
  pub args : List Text

pub data Envelope : Type 0 where
  success : StateToken → Envelope
  error : ErrorCode → List Text → Envelope

pub record ResponseHead : Type 0 where
  pub warnings : List Warning
  pub envelope : Envelope

-- Each argument behind a space.
unfoldable pub encode_args : List Text → Text
unfolding quote_value
encode_args [] = []
encode_args (a ∷ as') = b' ' ∷ (quote_value a ++ encode_args as')

unfoldable pub encode_warning : Warning → Text
unfolding encode_args warning_str
encode_warning w = b'?' ∷ b' ' ∷ (warning_str w.code ++ (encode_args w.args ++ b'\n' ∷ []))

abbrev pub trim_newlines : Text → Text
trim_newlines = trim_end (λ c. c == b'\n')

unfoldable pub warning_tokens : List Text → Result Warning
warning_tokens [] = err (invalid_envelope "warning missing code")
warning_tokens (code_tok ∷ toks) = do
  code ← from_str warning_code code_tok
  ok (record { code = code; args = map strip_quotes toks })

abbrev pub warning_body : Text → Result Warning
warning_body [] = err (invalid_envelope "warning line must start with `?`")
warning_body (c ∷ body) =
    if c == b'?'
    then warning_tokens (tokens body)
    else err (invalid_envelope "warning line must start with `?`")

unfoldable pub parse_warning : Text → Result Warning
parse_warning line = warning_body (trim_newlines line)

unfoldable pub encode_envelope : Envelope → Text
encode_envelope (success t) = b'@' ∷ (Token.display t ++ b'\n' ∷ [])
encode_envelope (error code args) =
    b'!' ∷ b' ' ∷ (error_str code ++ (encode_args args ++ b'\n' ∷ []))

unfoldable pub error_tokens : List Text → Result Envelope
error_tokens [] = err (invalid_envelope "error missing code")
error_tokens (code_tok ∷ toks) = do
  code ← from_str error_code code_tok
  ok (error code (map strip_quotes toks))

abbrev pub envelope_body : Text → Result Envelope
envelope_body [] = err (invalid_envelope "envelope must start with `@` or `!`")
envelope_body (c ∷ body) =
    if c == b'@'
    then (Token.from_str body >>= λ t. ok (success t))
    else if c == b'!'
    then error_tokens (tokens body)
    else err (invalid_envelope "envelope must start with `@` or `!`")

unfoldable pub parse_envelope : Text → Result Envelope
parse_envelope line = envelope_body (trim_newlines line)

unfoldable pub encode_warnings : List Warning → Text
encode_warnings [] = []
encode_warnings (w ∷ ws) = encode_warning w ++ encode_warnings ws

-- `ResponseHead::encode`.
unfoldable pub encode : ResponseHead → Text
encode h = encode_warnings h.warnings ++ encode_envelope h.envelope

unfoldable pub with_warning : ResponseHead → Warning → ResponseHead
with_warning h w = record h { warnings = h.warnings ++ w ∷ [] }

abbrev pub is_empty : Text → Bool
is_empty [] = true
is_empty (c ∷ cs) = false

abbrev pub starts : ℕ → Text → Bool
starts c [] = false
starts c (d ∷ ds) = d == c

-- The loop over the lines, with the warnings so far.
unfoldable pub parse_lines : List Text → List Warning → Result ResponseHead
parse_lines [] warnings = err (invalid_envelope "no envelope line found")
parse_lines (line ∷ rest) warnings =
    let skipped = parse_lines rest warnings in
    let warned = (parse_warning line >>= λ w. parse_lines rest (warnings ++ w ∷ [])) in
    if is_empty (trim line)
    then skipped
    else if starts b'?' line
    then warned
    else if starts b'@' line || starts b'!' line
    then (parse_envelope line >>= λ e. ok (record { warnings = warnings; envelope = e }))
    else err (invalid_envelope "expected `?`, `@`, or `!` at start of line")

-- `ResponseHead::parse`.
unfoldable pub parse : Text → Result ResponseHead
parse input = parse_lines (lines input) []

-- ===== src/Protocol/Envelope/Lines.antt =====
-- The lines of a response head and their tokens.
use vibesurfer.Prelude.{
  ℕ, true, false, List, [], ◌∷◌, ◌++◌, ◌≡◌, refl, ◌≢◌, arith, ◌==◌, all, All, map, append_assoc,
}
use vibesurfer.Text.{Text, keep_before, trim_end}
use vibesurfer.Text.Laws.{No}
use vibesurfer.Text.Lines.{ends_line}
use vibesurfer.Protocol.Codes.{
  ErrorCode, error_str, WarningCode, warning_str, stale_token, captcha_visible,
}
use vibesurfer.Protocol.Codes.RoundTrip.{is_separator, error_str-plain, warning_str-plain}
use vibesurfer.Protocol.Tokenize.{quote_value, strip_quotes, is_blank}
use vibesurfer.Protocol.Tokenize.Laws.{IsToken, Closed-bare, no_quote, spaced, quote_value-IsToken}
use vibesurfer.Protocol.Tokenize.Safe.{breaks_text, strip_value, value-line, spaced-line}
use vibesurfer.Protocol.Envelope.{
  Warning, Envelope, success, error, encode_args, encode_warning, trim_newlines, encode_envelope,
}
use vibesurfer.Protocol.Envelope.Token
use vibesurfer.Protocol.Envelope.Token.{StateToken, IsStateToken, is_lower_hex}

-- An argument that the wire carries: an empty one would vanish between its spaces.
abbrev pub IsArg : Text → Type 0
IsArg a = (a ≢ []) × No breaks_text a

abbrev pub IsWarning : Warning → Type 0
IsWarning w = All IsArg w.args

abbrev pub IsEnvelope : Envelope → Type 0
IsEnvelope (success t) = IsStateToken t
IsEnvelope (error code args) = All IsArg args

encode_args-spaced : (as' : List Text) → encode_args as' ≡ spaced (map quote_value as')
unfolding encode_args
encode_args-spaced [] = refl
encode_args-spaced (a ∷ as') = rw (encode_args-spaced as')

pub args-IsToken : (as' : List Text) → All IsArg as' → All IsToken (map quote_value as')
args-IsToken [] h = tt
args-IsToken (a ∷ as') h = (quote_value-IsToken a h.0.0, args-IsToken as' h.1)

args-line : (as' : List Text) → All IsArg as' → All (No ends_line) (map quote_value as')
args-line [] h = tt
args-line (a ∷ as') h = (value-line a h.0.1, args-line as' h.1)

pub args-strip : (as' : List Text) → All IsArg as' → map strip_quotes (map quote_value as') ≡ as'
args-strip [] h = refl
args-strip (a ∷ as') h = rw (strip_value a h.0.1, args-strip as' h.1)

separator-quote : (s : Text) → No is_separator s → no_quote s ≡ false
separator-quote [] h = refl
separator-quote (c ∷ s) h = ground (arith, separator-quote s)

separator-blank : (s : Text) → No is_separator s → No is_blank s
separator-blank [] h = refl
separator-blank (c ∷ s) h = ground (arith, separator-blank s)

separator-line : (s : Text) → No is_separator s → No ends_line s
separator-line [] h = refl
separator-line (c ∷ s) h = ground (arith, separator-line s)

pub plain-IsToken : (s : Text) → s ≢ [] → No is_separator s → IsToken s
plain-IsToken s ne h = (ne, Closed-bare s (separator-quote s h) (separator-blank s h))

pub error_str-ne-nil : (c : ErrorCode) → error_str c ≢ []
unfolding error_str
error_str-ne-nil stale_token h = cc
error_str-ne-nil _ h = cc

pub warning_str-ne-nil : (c : WarningCode) → warning_str c ≢ []
unfolding warning_str
warning_str-ne-nil captcha_visible h = cc
warning_str-ne-nil _ h = cc

keep_line : (c : ℕ) (s : Text) → ends_line c ≡ false → keep_before (λ d. d == b'\n') c s ≡ c ∷ s
unfolding keep_before
keep_line c [] h = ground arith
keep_line c (d ∷ s) h = refl

-- A line with no line end in it is not trimmed.
pub trim_newlines_line : (s : Text) → No ends_line s → trim_newlines s ≡ s
unfolding trim_end
trim_newlines_line [] h = refl
trim_newlines_line (c ∷ s) h =
    rw (trim_newlines_line s (ground arith)) (keep_line c s (ground arith))

unfoldable pub warning_line : Warning → Text
warning_line w = b'?' ∷ spaced (warning_str w.code ∷ map quote_value w.args)

unfoldable pub envelope_line : Envelope → Text
envelope_line (success t) = b'@' ∷ Token.display t
envelope_line (error code args) = b'!' ∷ spaced (error_str code ∷ map quote_value args)

pub encode_warning-line : (w : Warning) → encode_warning w ≡ warning_line w ++ b'\n' ∷ []
unfolding encode_warning warning_line
encode_warning-line w = rw (encode_args-spaced w.args) (simp append_assoc)

pub encode_envelope-line : (e : Envelope) → encode_envelope e ≡ envelope_line e ++ b'\n' ∷ []
unfolding encode_envelope envelope_line
encode_envelope-line (success t) = refl
encode_envelope-line (error code args) = rw (encode_args-spaced args) (simp append_assoc)

hex-line : (s : Text) → all is_lower_hex s ≡ true → No ends_line s
unfolding is_lower_hex
hex-line [] h = refl
hex-line (c ∷ s) h = ground (arith, hex-line s)

pub warning-line : (w : Warning) → IsWarning w → No ends_line (warning_line w)
unfolding warning_line
warning-line w h =
    spaced-line (warning_str w.code ∷ map quote_value w.args)
      (separator-line (warning_str w.code) (warning_str-plain w.code), args-line w.args h)

pub envelope-line : (e : Envelope) → IsEnvelope e → No ends_line (envelope_line e)
unfolding envelope_line
envelope-line (success t) h = hex-line (Token.display t) (Token.display-lower t h.bytes)
envelope-line (error code args) h =
    spaced-line (error_str code ∷ map quote_value args)
      (separator-line (error_str code) (error_str-plain code), args-line args h)

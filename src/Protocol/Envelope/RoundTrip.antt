-- ===== src/Protocol/Envelope/RoundTrip.antt =====
-- A response head is read back from its lines.
use vibesurfer.Prelude.{
  ℕ, true, false, ◌||◌, List, [], ◌∷◌, ◌++◌, ◌≡◌, refl, ap, ◌∙◌, ◌≢◌, arith, ◌==◌, All, map,
  append-nil, append_assoc,
}
use vibesurfer.Text.{Text, trim, lines, is_whitespace}
use vibesurfer.Text.Laws.{trim_end-drop, trim-ne-nil}
use vibesurfer.Text.Lines.{lines-append}
use vibesurfer.Protocol.Error.{ok}
use vibesurfer.Protocol.Codes.{error_str, warning_str}
use vibesurfer.Protocol.Codes.RoundTrip.{
  error-from_str, warning-from_str, error_str-plain, warning_str-plain,
}
use vibesurfer.Protocol.Tokenize.{quote_value}
use vibesurfer.Protocol.Tokenize.Laws.{spaced, tokens-spaced_rest}
use vibesurfer.Protocol.Envelope.{
  Warning, Envelope, success, error, ResponseHead, encode_warning, trim_newlines, warning_tokens,
  warning_body, parse_warning, encode_envelope, error_tokens, envelope_body, parse_envelope,
  encode_warnings, encode, parse_lines, parse, is_empty, starts,
}
use vibesurfer.Protocol.Envelope.Token
use vibesurfer.Protocol.Envelope.Token.{StateToken, IsStateToken, is_lower_hex}
use vibesurfer.Protocol.Envelope.Lines.{
  IsWarning, IsEnvelope, args-IsToken, args-strip, plain-IsToken, error_str-ne-nil,
  warning_str-ne-nil, trim_newlines_line, warning_line, envelope_line, encode_warning-line,
  encode_envelope-line, warning-line, envelope-line,
}

warning_body-line : (w : Warning) → IsWarning w → warning_body (warning_line w) ≡ ok w
unfolding warning_line warning_tokens
warning_body-line w h =
    ap warning_tokens (
      tokens-spaced_rest (warning_str w.code ∷ map quote_value w.args) (
        plain-IsToken (warning_str w.code) (warning_str-ne-nil w.code) (warning_str-plain w.code),
        args-IsToken w.args h,
      ))
    ∙ rw (warning-from_str w.code, args-strip w.args h)

envelope_body-line : (e : Envelope) → IsEnvelope e → envelope_body (envelope_line e) ≡ ok e
unfolding envelope_line error_tokens
envelope_body-line (success t) h = rw (Token.from_str-display t h)
envelope_body-line (error code args) h =
    ap error_tokens (
      tokens-spaced_rest (error_str code ∷ map quote_value args) (
        plain-IsToken (error_str code) (error_str-ne-nil code) (error_str-plain code),
        args-IsToken args h,
      ))
    ∙ rw (error-from_str code, args-strip args h)

parse_warning-line : (w : Warning) → IsWarning w → parse_warning (warning_line w) ≡ ok w
unfolding parse_warning
parse_warning-line w h =
    ap warning_body (trim_newlines_line (warning_line w) (warning-line w h)) ∙ warning_body-line w h

parse_envelope-line : (e : Envelope) → IsEnvelope e → parse_envelope (envelope_line e) ≡ ok e
unfolding parse_envelope
parse_envelope-line e h =
    ap envelope_body (trim_newlines_line (envelope_line e) (envelope-line e h))
    ∙ envelope_body-line e h

drop_newline : (s : Text) → trim_newlines (s ++ b'\n' ∷ []) ≡ trim_newlines s
drop_newline s = trim_end-drop (λ c. c == b'\n') s b'\n' refl

-- The line of a warning parses back to it, if no argument is empty or holds a double quote or a
-- line end.
pub parse_warning-encode_warning :
    (w : Warning) → IsWarning w → parse_warning (encode_warning w) ≡ ok w
unfolding parse_warning
parse_warning-encode_warning w h =
    rw (encode_warning-line w) (ap warning_body (drop_newline (warning_line w)))
    ∙ parse_warning-line w h

-- The line of an envelope parses back to it, if a token has eight bytes, and no argument of an
-- error is empty or holds a double quote or a line end.
pub parse_envelope-encode_envelope :
    (e : Envelope) → IsEnvelope e → parse_envelope (encode_envelope e) ≡ ok e
unfolding parse_envelope
parse_envelope-encode_envelope e h =
    rw (encode_envelope-line e) (ap envelope_body (drop_newline (envelope_line e)))
    ∙ parse_envelope-line e h

-- A line that begins with a sigil is not blank.
ne-nil-is_empty : (s : Text) → s ≢ [] → is_empty s ≡ false
ne-nil-is_empty [] h = absurd (h refl)
ne-nil-is_empty (c ∷ s) h = refl

visible : (c : ℕ) (s : Text) → (is_whitespace c) ≡ false → is_empty (trim (c ∷ s)) ≡ false
visible c s h = ne-nil-is_empty (trim (c ∷ s)) (trim-ne-nil (c ∷ s) (ground arith))

visible_warning : (w : Warning) → is_empty (trim (warning_line w)) ≡ false
unfolding warning_line is_whitespace
visible_warning w = visible b'?' (spaced (warning_str w.code ∷ map quote_value w.args)) refl

starts_warning : (w : Warning) → starts b'?' (warning_line w) ≡ true
unfolding warning_line
starts_warning w = refl

visible_envelope : (e : Envelope) → is_empty (trim (envelope_line e)) ≡ false
unfolding envelope_line is_whitespace
visible_envelope (success t) = visible b'@' (Token.display t) refl
visible_envelope (error code args) =
    visible b'!' (spaced (error_str code ∷ map quote_value args)) refl

starts_envelope :
    (e : Envelope)
    → (starts b'?' (envelope_line e) ≡ false)
      × ((starts b'@' (envelope_line e) || starts b'!' (envelope_line e)) ≡ true)
unfolding envelope_line
starts_envelope (success t) = (refl, refl)
starts_envelope (error code args) = (refl, refl)

parse_lines-warning :
    (w : Warning) (rest : List Text) (ws : List Warning)
    → IsWarning w
    → parse_lines (warning_line w ∷ rest) ws ≡ parse_lines rest (ws ++ w ∷ [])
unfolding parse_lines
parse_lines-warning w rest ws h = rw (visible_warning w, starts_warning w, parse_warning-line w h)

-- The envelope ends the head, whatever lines follow.
parse_lines-envelope :
    (e : Envelope) (rest : List Text) (ws : List Warning)
    → IsEnvelope e
    → parse_lines (envelope_line e ∷ rest) ws ≡ ok (record { warnings = ws; envelope = e })
unfolding parse_lines
parse_lines-envelope e rest ws h =
    rw (visible_envelope e, (starts_envelope e).0, (starts_envelope e).1, parse_envelope-line e h)

pub record IsWire (h : ResponseHead) : Type 0 where
  pub warnings_fit : All IsWarning h.warnings
  pub envelope_fits : IsEnvelope h.envelope

lines-encode_warnings :
    (ws : List Warning) (rest : Text)
    → All IsWarning ws
    → lines (encode_warnings ws ++ rest) ≡ map warning_line ws ++ lines rest
unfolding encode_warnings
lines-encode_warnings [] rest h = refl
lines-encode_warnings (w ∷ ws) rest h =
    ap lines regroup
    ∙ lines-append (warning_line w) (encode_warnings ws ++ rest) (warning-line w h.0)
    ∙ ap (◌∷◌ (warning_line w)) (lines-encode_warnings ws rest h.1)
  where
    regroup :
        encode_warnings (w ∷ ws) ++ rest ≡ warning_line w ++ b'\n' ∷ (encode_warnings ws ++ rest)
    regroup = rw (encode_warning-line w) (simp append_assoc)

parse_lines-head :
    (ws before : List Warning) (e : Envelope) (rest : List Text)
    → All IsWarning ws
    → IsEnvelope e
    → parse_lines (map warning_line ws ++ envelope_line e ∷ rest) before
      ≡ ok (record { warnings = before ++ ws; envelope = e })
parse_lines-head [] before e rest h k = rw append-nil (parse_lines-envelope e rest before k)
parse_lines-head (w ∷ ws) before e rest h k =
    parse_lines-warning w (map warning_line ws ++ envelope_line e ∷ rest) before h.0
    ∙ parse_lines-head ws (before ++ w ∷ []) e rest h.1 k
    ∙ ap (λ x. ok (record { warnings = x; envelope = e })) (append_assoc before (w ∷ []) ws)

-- A response head, followed by whatever body, parses back to the head, if its token has eight
-- bytes, and no argument of its warnings or of its error is empty or holds a double quote or a
-- line end.
pub parse-encode_head :
    (h : ResponseHead) (body : Text) → IsWire h → parse (encode h ++ body) ≡ ok h
unfolding parse encode
parse-encode_head h body w =
    ap (λ ls. parse_lines ls [])
      (ap lines regroup
        ∙ lines-encode_warnings h.warnings (envelope_line h.envelope ++ b'\n' ∷ body) w.warnings_fit
        ∙ ap (◌++◌ (map warning_line h.warnings)) (
            lines-append (envelope_line h.envelope) body
              (envelope-line h.envelope w.envelope_fits)))
    ∙ parse_lines-head h.warnings [] h.envelope (lines body) w.warnings_fit w.envelope_fits
  where
    regroup :
        (encode_warnings h.warnings ++ encode_envelope h.envelope) ++ body
        ≡ encode_warnings h.warnings ++ (envelope_line h.envelope ++ b'\n' ∷ body)
    regroup = rw (encode_envelope-line h.envelope) (simp append_assoc)

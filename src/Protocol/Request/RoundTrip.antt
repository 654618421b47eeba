-- ===== src/Protocol/Request/RoundTrip.antt =====
-- A request is read back from the line that it is written as.
use vibesurfer.Prelude.{
  true, false, List, [], ◌∷◌, ◌++◌, Option, none, some, ◌≡◌, refl, ap, ◌∙◌, ◌≢◌, arith, ◌==◌, all,
  map, All, append-nil,
}
use vibesurfer.Text.{trim, trim_end, Text, is_whitespace}
use vibesurfer.Text.Laws.{text_lt_asymm}
use vibesurfer.Sorted.{insert_all_sorted}
use vibesurfer.Protocol.Error.{ok}
use vibesurfer.Protocol.Tokenize.Laws.{spaced}
use vibesurfer.Protocol.Request.{
  Request, Flag, flag_lt, escape_chars, escape_wire, quote_arg, encode_flag_value, encode,
  parse_tokens, parse_trimmed, parse, raw_tokens,
}
use vibesurfer.Protocol.Request.Escape.{escape_wire-escape_chars}
use vibesurfer.Protocol.Request.Cut.{
  IsRawToken, is_plain, Uncut, Uncut-plain, Uncut-quote_arg, quote_arg-ne-nil, primitive-IsRawToken,
  raw_tokens-spaced,
}
use vibesurfer.Protocol.Request.Trim.{
  EndsOutside, EndsOutside-append, EndsOutside-spaced, EndsOutside-quote_arg, StartsOutside,
  primitive_ends, trim_line,
}
use vibesurfer.Protocol.Request.Tokens.{
  arg_token, flag_token, is_name_char, IsArg, IsFlag, IsWire, request_tokens, encode-spaced,
  parse_rest-args, parse_rest-flags,
}

flag_lt_asymm : (f g : Flag) → flag_lt f g ≡ true → flag_lt g f ≡ false
flag_lt_asymm (f, v) (g, w) h = text_lt_asymm f g h

arg_token-IsRawToken : (a : Text) → IsRawToken (arg_token a)
arg_token-IsRawToken a =
    rw (escape_wire-escape_chars a) (quote_arg-ne-nil (escape_chars a), Uncut-quote_arg a)

name-plain : (k : Text) → all is_name_char k ≡ true → all is_plain k ≡ true
name-plain [] h = refl
name-plain (c ∷ k) h = ground (arith, name-plain k)

value-Uncut : (v : Option Text) → Uncut false false (encode_flag_value v)
unfolding encode_flag_value
value-Uncut none = (refl, refl)
value-Uncut (some v) = (refl, rw (escape_wire-escape_chars v) (Uncut-quote_arg v))

flag_token-IsRawToken : (f : Flag) → IsFlag f → IsRawToken (flag_token f)
flag_token-IsRawToken (k, v) h =
    ((cc), (refl, (refl, Uncut-plain k (encode_flag_value v) (name-plain k h.1) (value-Uncut v))))

name_ends : (k : Text) → k ≢ [] → all is_name_char k ≡ true → EndsOutside is_whitespace k
name_ends [] ne h = absurd (ne refl)
name_ends (c ∷ []) ne h = ground arith
name_ends (c ∷ d ∷ k) ne h = name_ends (d ∷ k) (cc) (ground arith)

flag_token_ends : (f : Flag) → IsFlag f → EndsOutside is_whitespace (flag_token f)
unfolding encode_flag_value
flag_token_ends (k, none) h =
    rw append-nil (EndsOutside-append is_whitespace (b'-' ∷ b'-' ∷ []) k (name_ends k h.0 h.1))
flag_token_ends (k, some v) h =
    EndsOutside-append is_whitespace (b'-' ∷ b'-' ∷ []) (k ++ b'=' ∷ quote_arg (escape_wire v)) (
      EndsOutside-append is_whitespace k (b'=' ∷ quote_arg (escape_wire v)) (
        EndsOutside-append is_whitespace (b'=' ∷ []) (quote_arg (escape_wire v))
          (rw (escape_wire-escape_chars v) (EndsOutside-quote_arg v h.2))))

arg_token_ends : (a : Text) → IsArg a → EndsOutside is_whitespace (arg_token a)
arg_token_ends a h = rw (escape_wire-escape_chars a) (EndsOutside-quote_arg a h.1)

-- A property of each kind of token holds of all tokens of a request.
All-request_tokens {κ} :
    (P : Text → Type κ) (as' : List Text) (fs : List Flag)
    → ((a : Text) → IsArg a → P (arg_token a))
    → ((f : Flag) → IsFlag f → P (flag_token f))
    → All IsArg as'
    → All IsFlag fs
    → All P (map arg_token as' ++ map flag_token fs)
All-request_tokens P [] [] pa pf ha hf = tt
All-request_tokens P [] (f ∷ fs) pa pf ha hf = (pf f hf.0, All-request_tokens P [] fs pa pf ha hf.1)
All-request_tokens P (a ∷ as') fs pa pf ha hf =
    (pa a ha.0, All-request_tokens P as' fs pa pf ha.1 hf)

StartsOutside-append :
    (s t : Text) → StartsOutside is_whitespace s → StartsOutside is_whitespace (s ++ t)
StartsOutside-append [] t h = absurd h
StartsOutside-append (c ∷ s) t h = h

module _ (r : Request) (w : IsWire r) where
  trimmed : trim (trim_end (λ c. c == b'\n') (encode r)) ≡ r.primitive ++ spaced (request_tokens r)
  trimmed =
      let (starts, ends) = primitive_ends r.primitive w.primitive_valid in
      rw (encode-spaced r) (
        trim_line (r.primitive ++ spaced (request_tokens r))
          (StartsOutside-append r.primitive (spaced (request_tokens r)) starts)
          (EndsOutside-spaced is_whitespace r.primitive (request_tokens r) ends (
            All-request_tokens (EndsOutside is_whitespace) r.args r.flags arg_token_ends
              flag_token_ends w.args_valid w.flags_valid)))

  cut_into_tokens :
      raw_tokens (r.primitive ++ spaced (request_tokens r)) ≡ r.primitive ∷ request_tokens r
  cut_into_tokens =
      raw_tokens-spaced r.primitive (request_tokens r)
        (primitive-IsRawToken r.primitive w.primitive_valid)
        (All-request_tokens IsRawToken r.args r.flags (λ a _. arg_token-IsRawToken a)
          flag_token-IsRawToken w.args_valid w.flags_valid)

  parse_request_tokens : parse_tokens (r.primitive ∷ request_tokens r) ≡ ok r
  unfolding parse_tokens
  parse_request_tokens = rw (
    w.primitive_valid,
    parse_rest-args r.args [] (map flag_token r.flags) [] w.args_valid,
    parse_rest-flags r.flags r.args [] w.flags_valid,
    insert_all_sorted flag_lt flag_lt_asymm r.flags w.flags_sorted,
  )

parse_trimmed-tokens :
    (s : Text) → StartsOutside is_whitespace s → parse_trimmed s ≡ parse_tokens (raw_tokens s)
unfolding parse
parse_trimmed-tokens [] h = absurd h
parse_trimmed-tokens (c ∷ s) h = refl

-- The line of a request parses back to it, if the primitive is valid, no argument begins with
-- `--`, no argument and no flag's value holds white space other than space, tab, line feed and
-- carriage return, each flag's name is not empty and holds no white space, quote, backslash or
-- `=`, and the flags are in the strict order of their names.
pub parse-encode_request : (r : Request) → IsWire r → parse (encode r) ≡ ok r
unfolding parse
parse-encode_request r w = rw (trimmed r w) (
    parse_trimmed-tokens (r.primitive ++ spaced (request_tokens r)) (
      StartsOutside-append r.primitive (spaced (request_tokens r))
        (primitive_ends r.primitive w.primitive_valid).0)
    ∙ ap parse_tokens (cut_into_tokens r w)
    ∙ parse_request_tokens r w)

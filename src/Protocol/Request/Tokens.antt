-- ===== src/Protocol/Request/Tokens.antt =====
-- The tokens of a request, and what is parsed from them.
use vibesurfer.Prelude.{
  ℕ, Bool, true, false, not, ◌&&◌, List, [], ◌∷◌, ◌++◌, Option, none, some, ◌≡◌, refl, ap, ◌∙◌, ◌≢◌,
  arith, ◌==◌, any, all, map, All, Bool-cases, inl, inr, append_assoc, append-nil,
}
use vibesurfer.Text.{Text, is_whitespace, starts_with, strip_prefix}
use vibesurfer.Text.Laws.{split_once-append, split_once-none}
use vibesurfer.Protocol.Tokenize.{strip_quotes}
use vibesurfer.Sorted.{insert, insert_all, IsSorted}
use vibesurfer.Protocol.Error.{ok}
use vibesurfer.Protocol.Tokenize.{in_quotes}
use vibesurfer.Protocol.Tokenize.Laws.{spaced}
use vibesurfer.Protocol.Request.{
  unescape_wire, Request, Flag, flag_lt, escape_char, escape_chars, escape_wire, quote_arg,
  needs_quotes, encode_args, encode_flag_value, encode_flags, encode, parse_flag, parse_rest,
  is_valid_primitive,
}
use vibesurfer.Protocol.Request.Escape.{escape_wire-escape_chars, unescape-quote_arg}
use vibesurfer.Protocol.Request.Cut.{is_plain}
use vibesurfer.Protocol.Request.Trim.{is_exotic}

abbrev pub arg_token : Text → Text
arg_token a = quote_arg (escape_wire a)

abbrev pub flag_token : Flag → Text
flag_token (k, v) = b'-' ∷ b'-' ∷ (k ++ encode_flag_value v)

-- A character of a flag's name.
abbrev pub is_name_char : ℕ → Bool
is_name_char c = is_plain c && not (is_whitespace c) && not (c == b'=')

abbrev pub IsArg : Text → Type 0
IsArg a = (starts_with (b'-' ∷ b'-' ∷ []) a ≡ false) × (any is_exotic a ≡ false)

abbrev pub IsValue : Option Text → Type 0
IsValue none = Unit
IsValue (some v) = any is_exotic v ≡ false

abbrev pub IsFlag : Flag → Type 0
IsFlag (k, v) = (k ≢ []) × (all is_name_char k ≡ true) × IsValue v

-- What the line format can carry.
pub record IsWire (r : Request) : Type 0 where
  pub primitive_valid : is_valid_primitive r.primitive ≡ true
  pub args_valid : All IsArg r.args
  pub flags_valid : All IsFlag r.flags
  pub flags_sorted : IsSorted flag_lt r.flags

encode_args-spaced :
    (as' ts : List Text) → encode_args as' ++ spaced ts ≡ spaced (map arg_token as' ++ ts)
unfolding encode_args
encode_args-spaced [] ts = refl
encode_args-spaced (a ∷ as') ts = rw append_assoc (rw (encode_args-spaced as' ts))

encode_flags-spaced : (fs : List Flag) → encode_flags fs ≡ spaced (map flag_token fs)
unfolding encode_flags
encode_flags-spaced [] = refl
encode_flags-spaced ((k, v) ∷ fs) = rw (encode_flags-spaced fs)

abbrev pub request_tokens : Request → List Text
request_tokens r = map arg_token r.args ++ map flag_token r.flags

pub encode-spaced :
    (r : Request) → encode r ≡ (r.primitive ++ spaced (request_tokens r)) ++ b'\n' ∷ []
unfolding encode
encode-spaced r =
    rw (← encode_args-spaced r.args (map flag_token r.flags), ← encode_flags-spaced r.flags)
      (simp append_assoc)

strip_dashes :
    (a : Text)
    → starts_with (b'-' ∷ b'-' ∷ []) a ≡ false
    → strip_prefix (b'-' ∷ b'-' ∷ []) (escape_chars a) ≡ none
unfolding starts_with strip_prefix escape_chars escape_char
strip_dashes [] h = refl
strip_dashes (c ∷ []) h = ground arith
strip_dashes (c ∷ d ∷ s) h = ground arith

arg_token-dashes : (a : Text) → IsArg a → strip_prefix (b'-' ∷ b'-' ∷ []) (arg_token a) ≡ none
unfolding quote_arg in_quotes strip_prefix
arg_token-dashes a h =
    rw (escape_wire-escape_chars a) (elim (Bool-cases (needs_quotes (escape_chars a))) [
      | inl e ↦ rw e
      | inr e ↦ rw e (strip_dashes a h.0)
    ])

pub parse_rest-args :
    (as' args ts : List Text) (flags : List Flag)
    → All IsArg as'
    → parse_rest (map arg_token as' ++ ts) args flags ≡ parse_rest ts (args ++ as') flags
unfolding parse_rest
parse_rest-args [] args ts flags h = rw append-nil
parse_rest-args (a ∷ as') args ts flags h =
    rw (arg_token-dashes a h.0, parse_rest, unescape-quote_arg a)
      (parse_rest-args as' (args ++ a ∷ []) ts flags h.1 ∙ rw append_assoc)

no_equals : (k : Text) → all is_name_char k ≡ true → any (λ d. d == b'=') k ≡ false
no_equals [] h = refl
no_equals (c ∷ k) h = ground (arith, no_equals k)

parse_flag_bare :
    (c : ℕ) (k : Text) (flags : List Flag)
    → all is_name_char (c ∷ k) ≡ true
    → parse_flag (c ∷ k) flags ≡ ok (insert flag_lt (c ∷ k, none) flags)
unfolding parse_flag
parse_flag_bare c k flags h = rw (split_once-none b'=' (c ∷ k) (no_equals (c ∷ k) h), parse_flag)

parse_flag_valued :
    (c : ℕ) (k x : Text) (flags : List Flag)
    → all is_name_char (c ∷ k) ≡ true
    → parse_flag (c ∷ (k ++ b'=' ∷ x)) flags
      ≡ ok (insert flag_lt (c ∷ k, some (unescape_wire (strip_quotes x))) flags)
unfolding parse_flag
parse_flag_valued c k x flags h =
    rw (split_once-append b'=' (c ∷ k) x (no_equals (c ∷ k) h), parse_flag)

parse_flag-token :
    (k : Text) (v : Option Text) (flags : List Flag)
    → IsFlag (k, v)
    → parse_flag (k ++ encode_flag_value v) flags ≡ ok (insert flag_lt (k, v) flags)
unfolding encode_flag_value
parse_flag-token [] v flags h = absurd (h.0 refl)
parse_flag-token (c ∷ k) none flags h =
    ap (λ x. parse_flag (c ∷ x) flags) (append-nil k) ∙ parse_flag_bare c k flags h.1
parse_flag-token (c ∷ k) (some v) flags h =
    parse_flag_valued c k (quote_arg (escape_wire v)) flags h.1
    ∙ ap (λ x. ok (insert flag_lt (c ∷ k, some x) flags)) (unescape-quote_arg v)

pub parse_rest-flags :
    (fs : List Flag) (args : List Text) (flags : List Flag)
    → All IsFlag fs
    → parse_rest (map flag_token fs) args flags ≡ ok (args, insert_all flag_lt fs flags)
unfolding parse_rest insert_all strip_prefix
parse_rest-flags [] args flags h = refl
parse_rest-flags ((k, v) ∷ fs) args flags h =
    rw (parse_flag-token k v flags h.0) (parse_rest-flags fs args (insert flag_lt (k, v) flags) h.1)

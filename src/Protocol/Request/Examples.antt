-- ===== src/Protocol/Request/Examples.antt =====
-- Tests of the request line, and instances of its theorems.
use vibesurfer.Prelude.{[], ◌∷◌, none, some, ◌≡◌, refl}
use vibesurfer.Text.{codes, is_whitespace, text_lt, starts_with}
use vibesurfer.Protocol.Error.{ok}
use vibesurfer.Protocol.Tokenize.{strip_quotes}
use vibesurfer.Protocol.Request.{
  Request, encode, parse, quote_arg, escape_wire, unescape_wire, is_valid_primitive,
}
use vibesurfer.Protocol.Request.Escape.{unescape-quote_arg}
use vibesurfer.Protocol.Request.Tokens.{IsWire}
use vibesurfer.Protocol.Request.RoundTrip.{parse-encode_request}

abbrev sample : Request
sample = record {
  primitive = codes "vs_act";
  args = codes "p_1" ∷ codes "say \"hi\"" ∷ [];
  flags = (codes "depth", some (codes "a b")) ∷ (codes "quiet", none) ∷ [];
}

sample-IsWire : IsWire sample
unfolding is_valid_primitive text_lt starts_with is_whitespace
sample-IsWire = record {
  primitive_valid = refl;
  args_valid = ((refl, refl), ((refl, refl), tt));
  flags_valid = (((λ e. cc), refl, refl), (((λ e. cc), refl, tt), tt));
  flags_sorted = ((refl, tt), (tt, tt));
}

parse-encode_request_example : parse (encode sample) ≡ ok sample
parse-encode_request_example = parse-encode_request sample sample-IsWire

unescape-quote_arg_example :
    unescape_wire (strip_quotes (quote_arg (escape_wire (codes "a\n\"b\" c")))) ≡ codes "a\n\"b\" c"
unescape-quote_arg_example = unescape-quote_arg (codes "a\n\"b\" c")

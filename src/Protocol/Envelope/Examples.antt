-- ===== src/Protocol/Envelope/Examples.antt =====
-- Tests of the response head, and instances of its theorems.
use vibesurfer.Prelude.{[], ◌∷◌, ◌++◌, ◌≡◌, refl, arith}
use vibesurfer.Text.{Text, codes}
use vibesurfer.Protocol.Error.{ok}
use vibesurfer.Protocol.Codes.{nav, not_found}
use vibesurfer.Protocol.Envelope.{Warning, Envelope, success, error, ResponseHead, encode, parse}
use vibesurfer.Protocol.Envelope.Token.{
  StateToken, IsStateToken, display, from_str, from_str-display, display-from_str,
}
use vibesurfer.Protocol.Envelope.Lines.{IsWarning, IsEnvelope}
use vibesurfer.Protocol.Envelope.RoundTrip.{IsWire, parse-encode_head}

abbrev sample_token : StateToken
sample_token = 0 ∷ 18 ∷ 255 ∷ 160 ∷ 7 ∷ 99 ∷ 200 ∷ 31 ∷ []

sample-IsStateToken : IsStateToken sample_token
sample-IsStateToken = record {
  eight = refl;
  bytes = (
    omega arith,
    (
      omega arith,
      (omega arith, (omega arith, (omega arith, (omega arith, (omega arith, (omega arith, tt)))))),
    ),
  );
}

abbrev sample_warning : Warning
sample_warning = record { code = nav; args = codes "to /login page" ∷ codes "x" ∷ [] }

sample-IsWarning : IsWarning sample_warning
sample-IsWarning = (((λ e. cc), refl), (((λ e. cc), refl), tt))

abbrev sample_error : Envelope
sample_error = error not_found (codes "no such page" ∷ [])

sample-IsEnvelope : IsEnvelope sample_error
sample-IsEnvelope = (((λ e. cc), refl), tt)

abbrev sample : ResponseHead
sample = record { warnings = sample_warning ∷ []; envelope = success sample_token }

sample-IsWire : IsWire sample
sample-IsWire = record {
  warnings_fit = (sample-IsWarning, tt);
  envelope_fits = sample-IsStateToken;
}

parse-encode_head_example : parse (encode sample ++ codes "@1 doc x\n") ≡ ok sample
parse-encode_head_example = parse-encode_head sample (codes "@1 doc x\n") sample-IsWire

from_str-display_example : from_str (display sample_token) ≡ ok sample_token
from_str-display_example = from_str-display sample_token sample-IsStateToken

abbrev sample_digits : Text
sample_digits = codes "0012ffa00763c81f"

sample_digits-from_str : from_str sample_digits ≡ ok sample_token
unfolding from_str
sample_digits-from_str = refl

display-from_str_example : display sample_token ≡ sample_digits
display-from_str_example = display-from_str sample_digits {t = sample_token} sample_digits-from_str

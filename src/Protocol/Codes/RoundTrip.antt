-- ===== src/Protocol/Codes/RoundTrip.antt =====
-- Parsing and printing the codes.
use vibesurfer.Prelude.{
  ℕ, ◌≡◌, refl, arith, List, [], ◌∷◌, Bool-cases, inl, inr, ap, ◌∙◌, String, Bool, false, any, ◌||◌,
  ◌==◌,
}
use vibesurfer.Text.{Text, text_eq}
use vibesurfer.Text.Laws.{text_eq_iff}
use vibesurfer.Protocol.Error.{ok}
use vibesurfer.Protocol.Codes.{
  CodeEnum, from_str, match_arms, Role, doc, role_str, role_code, Op, click, op_str, op_code,
  ErrorCode, stale_token, error_str, error_code, WarningCode, captcha_visible, warning_str,
  warning_code,
}

pub role-from_str : (r : Role) → from_str role_code (role_str r) ≡ ok r
unfolding from_str role_str text_eq
role-from_str doc = refl
role-from_str _ = refl

pub op-from_str : (o : Op) → from_str op_code (op_str o) ≡ ok o
unfolding from_str op_str text_eq
op-from_str click = refl
op-from_str _ = refl

pub error-from_str : (c : ErrorCode) → from_str error_code (error_str c) ≡ ok c
unfolding from_str error_str text_eq
error-from_str stale_token = refl
error-from_str _ = refl

pub warning-from_str : (c : WarningCode) → from_str warning_code (warning_str c) ≡ ok c
unfolding from_str warning_str text_eq
warning-from_str captcha_visible = refl
warning-from_str _ = refl

-- Every role, operation, error code and warning code is read back from its wire form.
pub from_str-codes :
    ((r : Role) → from_str role_code (role_str r) ≡ ok r)
    × ((o : Op) → from_str op_code (op_str o) ≡ ok o)
    × ((c : ErrorCode) → from_str error_code (error_str c) ≡ ok c)
    × ((c : WarningCode) → from_str warning_code (warning_str c) ≡ ok c)
from_str-codes = (role-from_str, op-from_str, error-from_str, warning-from_str)

match_arms-as_str :
    {A : Type 0} (as_str : A → Text) (l : List A) (kind : String) (s : Text) {a : A}
    → match_arms as_str l kind s ≡ ok a
    → s ≡ as_str a
unfolding match_arms
match_arms-as_str as_str [] kind s h = cc
match_arms-as_str as_str (b ∷ l) kind s h = elim (Bool-cases (text_eq s (as_str b))) [
  | inl e ↦ (text_eq_iff s (as_str b)).0 e ∙ ap as_str (ground arith)
  | inr e ↦ match_arms-as_str as_str l kind s (rw e at h)
]

-- If a text parses as a code of an enumeration, it is that code's wire form.
pub from_str-as_str :
    {A : Type 0} (e : CodeEnum A) (s : Text) {a : A} → from_str e s ≡ ok a → s ≡ e.as_str a
unfolding from_str
from_str-as_str e s h = match_arms-as_str e.as_str e.variants e.kind s h

-- No wire form holds a separator of the wire format.
abbrev pub is_separator : ℕ → Bool
is_separator c =
    c == b' ' || c == b'\t' || c == b'\n' || c == b'\r' || c == b'"' || c == b',' || c == b'='

pub role_str-plain : (r : Role) → any is_separator (role_str r) ≡ false
unfolding role_str
role_str-plain doc = refl
role_str-plain _ = refl

pub op_str-plain : (o : Op) → any is_separator (op_str o) ≡ false
unfolding op_str
op_str-plain click = refl
op_str-plain _ = refl

pub error_str-plain : (c : ErrorCode) → any is_separator (error_str c) ≡ false
unfolding error_str
error_str-plain stale_token = refl
error_str-plain _ = refl

pub warning_str-plain : (c : WarningCode) → any is_separator (warning_str c) ≡ false
unfolding warning_str
warning_str-plain captcha_visible = refl
warning_str-plain _ = refl

-- ===== src/Protocol/Envelope/Token.antt =====
-- `StateToken` of envelope.rs: eight bytes, written as sixteen lowercase hexadecimal digits.
use vibesurfer.Prelude.{
  ℕ, ◌+◌, ◌-◌, ◌*◌, ◌/◌, ◌%◌, ◌<◌, Bool, true, not, ◌&&◌, ◌||◌, List, [], ◌∷◌, ◌≡◌, refl, ap, ◌∙◌,
  arith, ltb, leb, ◌==◌, if◌then◌else◌, length, all, All, Bool-cases, inl, inr,
}
use vibesurfer.Text.{Text}
use vibesurfer.Protocol.Error.{Result, ok, err, invalid_token}

abbrev pub StateToken : Type 0
StateToken = List ℕ

-- `[u8; 8]`.
pub record IsStateToken (t : StateToken) : Type 0 where
  pub eight : length t ≡ 8
  pub bytes : All (λ b. b < 256) t

unfoldable pub hex_digit : ℕ → ℕ
hex_digit d = if ltb d 10 then b'0' + d else b'a' + (d - 10)

unfoldable pub display : StateToken → Text
unfolding hex_digit
display [] = []
display (b ∷ bs) = hex_digit (b / 16) ∷ hex_digit (b % 16) ∷ display bs

-- `is_ascii_hexdigit() && !is_ascii_uppercase()`.
unfoldable pub is_lower_hex : ℕ → Bool
is_lower_hex c = (leb b'0' c && leb c b'9') || (leb b'a' c && leb c b'f')

unfoldable pub hex_value : ℕ → ℕ
hex_value c = if leb c b'9' then c - b'0' else c - b'a' + 10

-- `from_str_radix` on each chunk of two.
unfoldable pub chunks : Text → StateToken
unfolding hex_value
chunks [] = []
chunks (a ∷ []) = []
chunks (a ∷ b ∷ rest) = (hex_value a * 16 + hex_value b) ∷ chunks rest

unfoldable pub from_str : Text → Result StateToken
unfolding is_lower_hex chunks
from_str s =
    if not (length s == 16) || not (all is_lower_hex s)
    then err (invalid_token s)
    else ok (chunks s)

length-display : (t : StateToken) → length (display t) ≡ length t * 2
unfolding display
length-display [] = refl
length-display (b ∷ bs) = omega (arith, length-display bs)

hex_digit-lower : (d : ℕ) → d < 16 → is_lower_hex (hex_digit d) ≡ true
unfolding hex_digit is_lower_hex
hex_digit-lower d h = ground arith

hex_value-digit : (d : ℕ) → d < 16 → hex_value (hex_digit d) ≡ d
unfolding hex_digit hex_value
hex_value-digit d h = ground arith

hex_digit-value :
    (c : ℕ) → is_lower_hex c ≡ true → (hex_digit (hex_value c) ≡ c) × (hex_value c < 16)
unfolding hex_digit hex_value is_lower_hex
hex_digit-value c h = ground arith

pub display-lower : (t : StateToken) → All (λ b. b < 256) t → all is_lower_hex (display t) ≡ true
unfolding display
display-lower [] h = refl
display-lower (b ∷ bs) h = rw (
  hex_digit-lower (b / 16) (omega arith),
  hex_digit-lower (b % 16) (omega arith),
  display-lower bs h.1,
)

chunks-display : (t : StateToken) → All (λ b. b < 256) t → chunks (display t) ≡ t
unfolding display chunks
chunks-display [] h = refl
chunks-display (b ∷ bs) h =
    rw
      (
        hex_value-digit (b / 16) (omega arith),
        hex_value-digit (b % 16) (omega arith),
        chunks-display bs h.1,
      )
      (ap (λ x. x ∷ bs) (omega arith))

-- The digits of a state token of eight bytes parse back to it.
pub from_str-display : (t : StateToken) → IsStateToken t → from_str (display t) ≡ ok t
unfolding from_str
from_str-display t h =
    rw (length-display t, h.eight, display-lower t h.bytes, chunks-display t h.bytes)

abbrev IsEven : ℕ → Type 0
IsEven n = n % 2 ≡ 0

display-chunks : (s : Text) → IsEven (length s) → all is_lower_hex s ≡ true → display (chunks s) ≡ s
unfolding display chunks
display-chunks [] e h = refl
display-chunks (a ∷ []) e h = absurd (omega arith)
display-chunks (a ∷ b ∷ rest) e h =
    let (ha, la) = hex_digit-value a (ground arith) in
    let (hb, lb) = hex_digit-value b (ground arith) in
    let high : (hex_value a * 16 + hex_value b) / 16 ≡ hex_value a = omega arith in
    let low : (hex_value a * 16 + hex_value b) % 16 ≡ hex_value b = omega arith in
    rw (high, low, ha, hb, display-chunks rest (omega arith) (ground arith))

-- If a text parses as a state token, the token prints as that very text.
pub display-from_str : (s : Text) {t : StateToken} → from_str s ≡ ok t → display t ≡ s
unfolding from_str
display-from_str s h = elim (Bool-cases (length s == 16 && all is_lower_hex s)) [
  | inl e ↦
      let parts : (length s ≡ 16) × (all is_lower_hex s ≡ true) = ground arith in
      ap display (ground arith) ∙ display-chunks s (omega arith) parts.1
  | inr e ↦ absurd (ground arith)
]

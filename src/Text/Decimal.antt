-- ===== src/Text/Decimal.antt =====
-- `Display` and `FromStr` of the unsigned integers.
use vibesurfer.Prelude.{
  ℕ, zero, suc, ◌+◌, ◌-◌, ◌*◌, ◌/◌, ◌%◌, ◌^◌, ◌<◌, Bool, true, ◌&&◌, [], ◌∷◌, ◌≡◌, refl, ◌≢◌,
  Option, none, some, arith, ltb, leb, ◌==◌, if◌then◌else◌, all, List,
}

abbrev pub u32_mod : ℕ
u32_mod = 2 ^ 32

abbrev pub u64_mod : ℕ
u64_mod = 2 ^ 64

-- The digits of `n` in front of `out`; each round divides by ten, so `n + 1` rounds are enough.
unfoldable pub digits : ℕ → ℕ → List ℕ → List ℕ
digits zero n out = out
digits (suc f) n out =
    let more = digits f (n / 10) ((b'0' + n % 10) ∷ out) in
    if ltb n 10 then (b'0' + n % 10) ∷ out else more

unfoldable pub display : ℕ → List ℕ
unfolding digits
display n = digits (suc n) n []

abbrev pub is_digit : ℕ → Bool
is_digit c = leb b'0' c && leb c b'9'

-- `checked_mul` and `checked_add` fail as soon as the value leaves the type.
unfoldable pub scan : ℕ → List ℕ → ℕ → Option ℕ
scan bound [] n = some n
scan bound (c ∷ cs) n =
    let m = n * 10 + (c - b'0') in
    let rest = scan bound cs m in if is_digit c && ltb m bound then rest else none

-- `str::parse`: an optional `+`, then at least one digit.
unfoldable pub parse : ℕ → List ℕ → Option ℕ
unfolding scan
parse bound [] = none
parse bound (c ∷ []) = if c == b'+' then none else scan bound (c ∷ []) 0
parse bound (c ∷ d ∷ ds) = if c == b'+' then scan bound (d ∷ ds) 0 else scan bound (c ∷ d ∷ ds) 0

scan-digits :
    (bound f n : ℕ) (out : List ℕ)
    → n < f
    → n < bound
    → scan bound (digits f n out) 0 ≡ scan bound out n
unfolding scan digits
scan-digits bound zero n out h k = absurd (omega arith)
scan-digits bound (suc f) n out h k =
    ground (arith, scan-digits bound f (n / 10) ((b'0' + n % 10) ∷ out))

digits-all_digit :
    (f n : ℕ) (out : List ℕ) → all is_digit out ≡ true → all is_digit (digits f n out) ≡ true
unfolding digits
digits-all_digit zero n out h = h
digits-all_digit (suc f) n out h =
    ground (arith, digits-all_digit f (n / 10) ((b'0' + n % 10) ∷ out))

digits-ne-nil : (f n c : ℕ) (out : List ℕ) → digits f n (c ∷ out) ≢ []
unfolding digits
digits-ne-nil zero n c out h = cc
digits-ne-nil (suc f) n c out h = ground (arith, digits-ne-nil f (n / 10) (b'0' + n % 10) (c ∷ out))

-- A number is written with digits only.
pub display-all_digit : (n : ℕ) → all is_digit (display n) ≡ true
unfolding display
display-all_digit n = digits-all_digit (suc n) n [] refl

-- It is written with at least one digit.
pub display-ne-nil : (n : ℕ) → display n ≢ []
unfolding display digits
display-ne-nil n h = ground (arith, digits-ne-nil n (n / 10) (b'0' + n % 10) [])

parse-scan :
    (bound : ℕ) (s : List ℕ) → s ≢ [] → all is_digit s ≡ true → parse bound s ≡ scan bound s 0
unfolding parse
parse-scan bound [] ne h = absurd (ne refl)
parse-scan bound (c ∷ []) ne h = ground arith
parse-scan bound (c ∷ d ∷ ds) ne h = ground arith

-- Reading what was written gives the number back, if it fits the type.
pub parse-display : (bound n : ℕ) → n < bound → parse bound (display n) ≡ some n
unfolding display scan
parse-display bound n h =
    rw (parse-scan bound (display n) (display-ne-nil n) (display-all_digit n))
      (scan-digits bound (suc n) n [] (omega arith) h)

-- A number that was read is below its bound.
scan-lt : (bound : ℕ) (s : List ℕ) (acc n : ℕ) → acc < bound → scan bound s acc ≡ some n → n < bound
unfolding scan
scan-lt bound [] acc n fits h = ground arith
scan-lt bound (c ∷ cs) acc n fits h = ground (arith, scan-lt bound cs (acc * 10 + (c - b'0')) n)

pub parse-lt : (bound : ℕ) (s : List ℕ) (n : ℕ) → 0 < bound → parse bound s ≡ some n → n < bound
unfolding parse
parse-lt bound [] n fits h = cc
parse-lt bound (c ∷ []) n fits h = ground (arith, scan-lt bound (c ∷ []) 0 n fits)
parse-lt bound (c ∷ d ∷ ds) n fits h =
    ground (arith, scan-lt bound (d ∷ ds) 0 n fits, scan-lt bound (c ∷ d ∷ ds) 0 n fits)

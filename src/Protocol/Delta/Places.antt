-- ===== src/Protocol/Delta/Places.antt =====
-- The place of an operation on its line.
use vibesurfer.Prelude.{
  ℕ, ◌<◌, Bool, true, false, not, ◌||◌, [], ◌∷◌, ◌++◌, Option, none, some, ◌≡◌, refl, ◌≢◌, arith,
  ◌==◌, all,
}
use vibesurfer.Text.{Text, trim, is_whitespace}
use vibesurfer.Text.Laws.{No, No-append, trim_none}
use vibesurfer.Text.Lines.{ends_line}
use vibesurfer.Text.Decimal
use vibesurfer.Text.Decimal.{u32_mod, is_digit}
use vibesurfer.Protocol.Tokenize.{is_blank}
use vibesurfer.Protocol.Tokenize.Laws.{IsToken, Closed-bare, no_quote}
use vibesurfer.Protocol.Delta.Ops.{encode_pos, encode_place}

abbrev pub Fits : ℕ → Type 0
Fits n = n < u32_mod

abbrev pub PosFits : Option ℕ → Type 0
PosFits none = Unit
PosFits (some p) = Fits p

-- The characters of a place.
abbrev is_place_char : ℕ → Bool
is_place_char c = is_digit c || c == b'@' || c == b':'

digits-place : (s : Text) → all is_digit s ≡ true → No (λ c. not (is_place_char c)) s
digits-place [] h = refl
digits-place (c ∷ s) h = ground (arith, digits-place s)

pub digits-at : (s : Text) → all is_digit s ≡ true → No (λ d. d == b'@') s
digits-at [] h = refl
digits-at (c ∷ s) h = ground (arith, digits-at s)

pub digits-colon : (s : Text) → all is_digit s ≡ true → No (λ d. d == b':') s
digits-colon [] h = refl
digits-colon (c ∷ s) h = ground (arith, digits-colon s)

pub place-whitespace : (s : Text) → No (λ c. not (is_place_char c)) s → No is_whitespace s
unfolding is_whitespace
place-whitespace [] h = refl
place-whitespace (c ∷ s) h = ground (arith, place-whitespace s)

place-quote : (s : Text) → No (λ c. not (is_place_char c)) s → no_quote s ≡ false
place-quote [] h = refl
place-quote (c ∷ s) h = ground (arith, place-quote s)

place-blank : (s : Text) → No (λ c. not (is_place_char c)) s → No is_blank s
place-blank [] h = refl
place-blank (c ∷ s) h = ground (arith, place-blank s)

place-line : (s : Text) → No (λ c. not (is_place_char c)) s → No ends_line s
place-line [] h = refl
place-line (c ∷ s) h = ground (arith, place-line s)

pub display-place : (n : ℕ) → No (λ c. not (is_place_char c)) (Decimal.display n)
display-place n = digits-place (Decimal.display n) (Decimal.display-all_digit n)

pos-place : (pos : Option ℕ) → No (λ c. not (is_place_char c)) (encode_pos pos)
unfolding encode_pos
pos-place none = refl
pos-place (some p) = display-place p

pub encode_place-place :
    (r parent : ℕ) (pos : Option ℕ) → No (λ c. not (is_place_char c)) (encode_place r parent pos)
unfolding encode_place
encode_place-place r parent pos =
    No-append (λ c. not (is_place_char c)) (Decimal.display r)
      (b'@' ∷ (Decimal.display parent ++ encode_pos pos)) (display-place r)
      (No-append (λ c. not (is_place_char c)) (Decimal.display parent) (encode_pos pos)
        (display-place parent) (pos-place pos))

pub encode_place-line : (r parent : ℕ) (pos : Option ℕ) → No ends_line (encode_place r parent pos)
encode_place-line r parent pos =
    place-line (encode_place r parent pos) (encode_place-place r parent pos)

pub display-line : (n : ℕ) → No ends_line (Decimal.display n)
display-line n = place-line (Decimal.display n) (display-place n)

pub trim-display : (n : ℕ) → trim (Decimal.display n) ≡ Decimal.display n
trim-display n =
    trim_none (Decimal.display n) (place-whitespace (Decimal.display n) (display-place n))

append-ne-nil : (s t : Text) → s ≢ [] → s ++ t ≢ []
append-ne-nil [] t h = absurd (h refl)
append-ne-nil (c ∷ s) t h = cc

pub encode_place-ne-nil : (r parent : ℕ) (pos : Option ℕ) → encode_place r parent pos ≢ []
unfolding encode_place
encode_place-ne-nil r parent pos =
    append-ne-nil (Decimal.display r) (b'@' ∷ (Decimal.display parent ++ encode_pos pos))
      (Decimal.display-ne-nil r)

pub encode_place-IsToken : (r parent : ℕ) (pos : Option ℕ) → IsToken (encode_place r parent pos)
encode_place-IsToken r parent pos =
    let h = encode_place-place r parent pos in
    (
      encode_place-ne-nil r parent pos,
      Closed-bare (encode_place r parent pos) (place-quote (encode_place r parent pos) h)
          (place-blank (encode_place r parent pos) h),
    )

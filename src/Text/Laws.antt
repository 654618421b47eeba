-- ===== src/Text/Laws.antt =====
-- Laws of the text operations.
use vibesurfer.Prelude.{
  not, ◌⊎◌, inl, inr, Bool-cases, ◌≢◌, ℕ, Bool, true, false, [], ◌∷◌, ◌++◌, none, some, ◌≡◌, refl,
  ap, ◌↔◌, arith, ◌==◌, any,
}
use vibesurfer.Text.{
  trim, trim_start, is_whitespace, text_lt, Text, text_eq, split_once, split, trim_end, keep_before,
}

pub text_eq_iff : (s t : Text) → (text_eq s t ≡ true) ↔ (s ≡ t)
unfolding text_eq
text_eq_iff (a ∷ s) (b ∷ t) = ground (arith, text_eq_iff s t)
text_eq_iff _ _ = ground arith

pub text_eq_refl : (s : Text) → text_eq s s ≡ true
text_eq_refl s = (text_eq_iff s s).1 refl

-- The first separator is found behind a piece that has none.
pub split_once-append :
    (sep : ℕ) (l r : Text)
    → any (λ d. d == sep) l ≡ false
    → split_once sep (l ++ sep ∷ r) ≡ some (l, r)
unfolding split_once
split_once-append sep [] r h = ground arith
split_once-append sep (c ∷ l) r h = ground (arith, split_once-append sep l r)

pub split_once-none : (sep : ℕ) (s : Text) → any (λ d. d == sep) s ≡ false → split_once sep s ≡ none
unfolding split_once
split_once-none sep [] h = refl
split_once-none sep (c ∷ s) h = ground (arith, split_once-none sep s)

pub split_single : (sep : ℕ) (s : Text) → any (λ d. d == sep) s ≡ false → split sep s ≡ s ∷ []
unfolding split
split_single sep [] h = refl
split_single sep (c ∷ s) h = ground (arith, split_single sep s)

pub split-append :
    (sep : ℕ) (s t : Text)
    → any (λ d. d == sep) s ≡ false
    → split sep (s ++ sep ∷ t) ≡ s ∷ split sep t
unfolding split
split-append sep [] t h = ground arith
split-append sep (c ∷ s) t h = ground (arith, split-append sep s t)

-- Nothing is trimmed behind a character that stays.
pub trim_end-concat :
    (p : ℕ → Bool) (s : Text) (c : ℕ) → p c ≡ false → trim_end p (s ++ c ∷ []) ≡ s ++ c ∷ []
unfolding trim_end
trim_end-concat p [] c h = rw h
trim_end-concat p (d ∷ []) c h = rw h
trim_end-concat p (d ∷ e ∷ s) c h = rw (trim_end-concat p (e ∷ s) c h)

-- A trimmed character at the end changes nothing.
pub trim_end-drop :
    (p : ℕ → Bool) (s : Text) (c : ℕ) → p c ≡ true → trim_end p (s ++ c ∷ []) ≡ trim_end p s
unfolding trim_end
trim_end-drop p [] c h = rw h
trim_end-drop p (d ∷ s) c h = ap (keep_before p d) (trim_end-drop p s c h)

pub text_lt_asymm : (s t : Text) → text_lt s t ≡ true → text_lt t s ≡ false
unfolding text_lt
text_lt_asymm (a ∷ s) (b ∷ t) h = ground (arith, text_lt_asymm s t)
text_lt_asymm _ _ h = ground arith

-- The order is total: two texts that neither precedes are equal.
pub text_lt_total : (s t : Text) → text_lt s t ≡ false → text_lt t s ≡ false → s ≡ t
unfolding text_lt
text_lt_total (a ∷ s) (b ∷ t) h k = ground (arith, text_lt_total s t)
text_lt_total _ _ h k = ground arith

-- No character of the text passes the test.
abbrev pub No : (ℕ → Bool) → Text → Type 0
No p s = any p s ≡ false

pub No-append : (p : ℕ → Bool) (s t : Text) → No p s → No p t → No p (s ++ t)
No-append p [] t h k = k
No-append p (c ∷ s) t h k = ground (arith, No-append p s t)

keep_before-keeps :
    (p : ℕ → Bool) (c : ℕ) (s : Text)
    → (p c ≡ false) ⊎ (any (λ d. not (p d)) s ≡ true)
    → any (λ d. not (p d)) (keep_before p c s) ≡ true
unfolding keep_before
keep_before-keeps p c [] h = ground arith
keep_before-keeps p c (d ∷ s) h = ground arith

trim_end-keeps :
    (p : ℕ → Bool) (s : Text)
    → any (λ c. not (p c)) s ≡ true
    → any (λ c. not (p c)) (trim_end p s) ≡ true
unfolding trim_end
trim_end-keeps p [] h = cc
trim_end-keeps p (c ∷ s) h =
    keep_before-keeps p c (trim_end p s)
      (elim (Bool-cases (p c)) [ inl e ↦ inr (trim_end-keeps p s (ground arith)) | inr e ↦ inl e ])

trim_start-ne-nil : (p : ℕ → Bool) (s : Text) → any (λ c. not (p c)) s ≡ true → trim_start p s ≢ []
unfolding trim_start
trim_start-ne-nil p [] h = cc
trim_start-ne-nil p (c ∷ s) h = ground (arith, trim_start-ne-nil p s)

-- A text with a character that is not trimmed does not vanish.
pub trim-ne-nil : (s : Text) → any (λ c. not (is_whitespace c)) s ≡ true → trim s ≢ []
unfolding trim
trim-ne-nil s h e =
    trim_start-ne-nil is_whitespace (trim_end is_whitespace s) (trim_end-keeps is_whitespace s h) e

keep_before_none : (p : ℕ → Bool) (c : ℕ) (s : Text) → p c ≡ false → keep_before p c s ≡ c ∷ s
unfolding keep_before
keep_before_none p c [] h = ground arith
keep_before_none p c (d ∷ s) h = refl

trim_start_none : (p : ℕ → Bool) (s : Text) → No p s → trim_start p s ≡ s
unfolding trim_start
trim_start_none p [] h = refl
trim_start_none p (c ∷ s) h = ground arith

trim_end_none : (p : ℕ → Bool) (s : Text) → No p s → trim_end p s ≡ s
unfolding trim_end
trim_end_none p [] h = refl
trim_end_none p (c ∷ s) h =
    rw (trim_end_none p s (ground arith)) (keep_before_none p c s (ground arith))

-- A text with no white space is not trimmed.
pub trim_none : (s : Text) → No is_whitespace s → trim s ≡ s
unfolding trim
trim_none s h = rw (trim_end_none is_whitespace s h) (trim_start_none is_whitespace s h)

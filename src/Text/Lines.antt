-- ===== src/Text/Lines.antt =====
-- Splitting a text into lines.
use vibesurfer.Prelude.{ℕ, Bool, false, ◌||◌, [], ◌∷◌, ◌++◌, ◌≡◌, refl, arith, ◌==◌, any}
use vibesurfer.Text.{Text, lines}

abbrev pub ends_line : ℕ → Bool
ends_line c = c == b'\n' || c == b'\r'

-- A line that is followed by a line feed is split off.
pub lines-append :
    (l rest : Text) → any ends_line l ≡ false → lines (l ++ b'\n' ∷ rest) ≡ l ∷ lines rest
unfolding lines
lines-append [] rest h = refl
lines-append (c ∷ l) rest h = ground (arith, lines-append l rest)

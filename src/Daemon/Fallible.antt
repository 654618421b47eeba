-- ===== src/Daemon/Fallible.antt =====
-- A step that changes a state of type `S` and returns a value or an error: the body of a Rust method
-- on `&self` or `&mut self`. Changes made before an error stay.
pub mod Keeps
use vibesurfer.Prelude.{
  Bool, true, false, Option, none, some, ◌⊎◌, ℕ, zero, suc, ◌+◌, ◌-◌, ◌*◌, ◌/◌, ◌%◌, ◌^◌, ◌<◌, ◌≤◌,
  not, ◌&&◌, ◌||◌, List, [], ◌∷◌, ◌++◌, ◌≡◌, refl, sym, ap, ◌∙◌, ◌≢◌, ◌↔◌, arith, ◌==◌, any, all,
  All, map, length, if◌then◌else◌, ltb, leb, filterb, Bool-cases, Option-cases, inl, inr,
  append_assoc, append-nil, drop, take, or_else, max, min, length-append,
}
use vibesurfer.Text.{Text, codes, text_eq, text_lt, split_once}
use vibesurfer.Table.{get, put, remove, write}

pub data Outcome (E A : Type 0) : Type 0 where
  ok : A → Outcome E A
  err : E → Outcome E A

abbrev pub M : Type 0 → Type 0 → Type 0 → Type 0
M S E A = S → Outcome E A × S

module _ {S E A : Type 0} where
  abbrev pub pure : A → M S E A
  pure a s = (ok a, s)

  abbrev pub fail : E → M S E A
  fail e s = (err e, s)

  -- A result that was computed without a change.
  abbrev pub give : Outcome E A → M S E A
  give r s = (r, s)

  -- `let _ = …`: the change stays, the result is dropped.
  abbrev pub ignore : M S E A → M S E (Unit {0})
  ignore m s = (ok tt, (m s).1)

abbrev pub go_on : {S E A B : Type 0} → Outcome E A × S → (A → M S E B) → Outcome E B × S
go_on (ok a, s) f = f a s
go_on (err e, s) f = (err e, s)

infixl 5 ◌>>=◌ ◌>>◌
abbrev pub ◌>>=◌ : {S E A B : Type 0} → M S E A → (A → M S E B) → M S E B
◌>>=◌ m f s = go_on (m s) f

abbrev pub ◌>>◌ : {S E B : Type 0} → M S E (Unit {0}) → M S E B → M S E B
m >> k = m >>= λ _. k

abbrev pub ok_or : {E A : Type 0} → Option A → E → Outcome E A
ok_or none e = err e
ok_or (some a) e = ok a

abbrev pub then_try : {E A B : Type 0} → Outcome E A → (A → Outcome E B) → Outcome E B
then_try (ok a) f = f a
then_try (err e) f = err e

abbrev pub is_ok : {E A : Type 0} → Outcome E A → Bool
is_ok (ok a) = true
is_ok (err e) = false

pub Outcome-cases :
    {E A : Type 0} (x : Outcome E A) → ((a : A) × (x ≡ ok a)) ⊎ ((e : E) × (x ≡ err e))
Outcome-cases (ok a) = inl (a, refl)
Outcome-cases (err e) = inr (e, refl)

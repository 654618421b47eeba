-- ===== src/Daemon/Pending/Values.antt =====
-- The values of a form in the queue.
use vibesurfer.Prelude.{
  ◌≤◌, false, not, List, [], ◌∷◌, none, ◌≡◌, refl, ap, ◌∙◌, arith, All, Bool-cases, inl, inr,
}
use vibesurfer.Text.{Text, text_eq}
use vibesurfer.Table.{get, get-filterb-none, text_eq-swap}
use vibesurfer.Daemon.Pending.{
  PendingEntry, FulfillState, pending, cancelled, fulfilled, Value, Queue, Filled, place, sort,
  is_form, in_form, index_lt, without_form,
}
use vibesurfer.Daemon.Pending.Queues.{IsQueue, HasId}
use vibesurfer.Daemon.Pending.Wait.{All-place, IsOrdered, filled, values}

abbrev pub Apart : Filled → Filled → Type 0
Apart x y = text_eq x.0.id y.0.id ≡ false

abbrev pub AllApart : List Filled → Type 0
AllApart [] = Unit
AllApart (x ∷ xs) = All (Apart x) xs × AllApart xs

abbrev pub Absent : Queue → Filled → Type 0
Absent q y = get q y.0.id ≡ none

abbrev Unlike : Text → Filled → Type 0
Unlike k y = text_eq k y.0.id ≡ false

place-AllApart :
    (x : Filled) (ys : List Filled)
    → All (Apart x) ys
    → AllApart ys
    → AllApart (place index_lt x ys)
unfolding place
place-AllApart x [] h k = (tt, tt)
place-AllApart x (y ∷ ys) h k = elim (Bool-cases (index_lt y x)) [
  | inl m ↦
      rw m
        (All-place (Apart y) x ys (text_eq-swap x.0.id y.0.id h.0) k.0, place-AllApart x ys h.1 k.1)
  | inr m ↦ rw m (h, k)
]

pub All-sort : (P : Filled → Type 0) (xs : List Filled) → All P xs → All P (sort index_lt xs)
unfolding sort
All-sort P [] h = tt
All-sort P (x ∷ xs) h = All-place P x (sort index_lt xs) h.0 (All-sort P xs h.1)

pub sort-AllApart : (xs : List Filled) → AllApart xs → AllApart (sort index_lt xs)
unfolding sort
sort-AllApart [] h = tt
sort-AllApart (x ∷ xs) h =
    place-AllApart x (sort index_lt xs) (All-sort (Apart x) xs h.0) (sort-AllApart xs h.1)

-- A sorted list is left as it is.
pub sort_self : (xs : List Filled) → IsOrdered xs → sort index_lt xs ≡ xs
unfolding sort IsOrdered
sort_self [] h = refl
sort_self (x ∷ xs) h = ap (place index_lt x) (sort_self xs h.1) ∙ place_first x xs h.0
  where
    place_first :
        (x : Filled) (ys : List Filled)
        → All (λ y. x.0.form_index ≤ y.0.form_index) ys
        → place index_lt x ys ≡ x ∷ ys
    place_first x [] h = unfold place in refl
    place_first x (y ∷ ys) h = unfold place in ground arith

pub All-filled :
    (P : Filled → Type 0) (e : PendingEntry) (s : FulfillState) (later : List Filled)
    → ((v : Text) → P (e, v))
    → All P later
    → All P (filled e s later)
All-filled P e pending later h k = k
All-filled P e cancelled later h k = k
All-filled P e (fulfilled v) later h k = (h v, k)

-- A key that is not in the queue is no value's id.
values-Unlike :
    (form k : Text) (q : Queue) → All HasId q → get q k ≡ none → All (Unlike k) (values form q)
unfolding values get
values-Unlike form k [] h x = tt
values-Unlike form k ((l, (e, s)) ∷ q) h x = elim (Bool-cases (text_eq l k)) [
  | inl m ↦ absurd (ground arith)
  | inr m ↦
      let later : All (Unlike k) (values form q) = values-Unlike form k q h.1 (rw m at x) in
      let here : text_eq k e.id ≡ false = rw h.0 at (text_eq-swap l k m) in
      elim (Bool-cases (is_form form e.form)) [
        | inl i ↦ rw i (All-filled (Unlike k) e s (values form q) (λ v. here) later)
        | inr i ↦ rw i later
      ]
]

filled-AllApart :
    (e : PendingEntry) (s : FulfillState) (later : List Filled)
    → All (Unlike e.id) later
    → AllApart later
    → AllApart (filled e s later)
filled-AllApart e pending later h k = k
filled-AllApart e cancelled later h k = k
filled-AllApart e (fulfilled v) later h k = (h, k)

pub values-AllApart : (form : Text) (q : Queue) → IsQueue q → AllApart (values form q)
unfolding values
values-AllApart form [] h = tt
values-AllApart form ((l, (e, s)) ∷ q) h =
    let later : AllApart (values form q) = values-AllApart form q (h.0.1, h.1.1) in
    let unlike : All (Unlike e.id) (values form q) =
      rw h.1.0 at (values-Unlike form l q h.1.1 h.0.0) in
    elim (Bool-cases (is_form form e.form)) [
      | inl i ↦ rw i (filled-AllApart e s (values form q) unlike later)
      | inr i ↦ rw i later
    ]

Absent-behind :
    (l : Text) (w : Value) (q : Queue) (xs : List Filled)
    → All (Unlike l) xs
    → All (Absent q) xs
    → All (Absent ((l, w) ∷ q)) xs
unfolding get
Absent-behind l w q [] h k = tt
Absent-behind l w q (x ∷ xs) h k = (rw (h.0, k.0), Absent-behind l w q xs h.1 k.1)

-- No value of the form is left in the queue without the form.
pub values-Absent :
    (form : Text) (q : Queue) → IsQueue q → All (Absent (without_form form q)) (values form q)
unfolding values without_form
values-Absent form [] h = tt
values-Absent form ((l, (e, s)) ∷ q) h = elim (Bool-cases (is_form form e.form)) [
  | inl i ↦ rw i (
      All-filled (Absent (without_form form q)) e s (values form q)
        (λ v. rw h.1.0 at (get-filterb-none (λ x. not (in_form form x)) q l h.0.0))
        (values-Absent form q (h.0.1, h.1.1)))
  | inr i ↦ rw i (
      Absent-behind l (e, s) (without_form form q) (values form q)
        (values-Unlike form l q h.1.1 h.0.0) (values-Absent form q (h.0.1, h.1.1)))
]

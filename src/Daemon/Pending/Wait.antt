-- ===== src/Daemon/Pending/Wait.antt =====
-- What a wait on a form gives, and when it gives up.
use vibesurfer.Daemon.Pending.{Option}
use vibesurfer.Daemon.Pending.{or_park}
use vibesurfer.Daemon.Pending.{FormWait}
use vibesurfer.Daemon.Pending.{wait_form}
use vibesurfer.Prelude.{
  ◌⊎◌, ℕ, suc, ◌≤◌, Bool, true, false, List, [], ◌∷◌, ◌++◌, none, some, ◌≡◌, refl, sym, ap, ◌∙◌,
  arith, ◌==◌, All, length, if◌then◌else◌, Bool-cases, inl, inr,
}
use vibesurfer.Text.{Text}
use vibesurfer.Daemon.Pending.{
  PendingEntry, FulfillState, pending, cancelled, fulfilled, Queue, Filled, ready, still_pending,
  place, sort, is_form, in_form, Scan, scan_entry, scan, index_lt, without_form, wait_round, Action,
  act, act_all,
}

abbrev pub filled : PendingEntry → FulfillState → List Filled → List Filled
filled e (fulfilled v) later = (e, v) ∷ later
filled e _ later = later

-- The fulfilled entries of a form with their values.
unfoldable pub values : Text → Queue → List Filled
values form [] = []
values form ((k, (e, s)) ∷ q) =
    let later = values form q in if is_form form e.form then filled e s later else later

unfoldable pub count : (Filled → Bool) → List Filled → ℕ
count p [] = 0
count p (x ∷ xs) = if p x then suc (count p xs) else count p xs

-- The order of the fields within their form.
unfoldable pub IsOrdered : List Filled → Type 0
IsOrdered [] = Unit
IsOrdered (x ∷ xs) = All (λ y. x.0.form_index ≤ y.0.form_index) xs × IsOrdered xs

abbrev pub IsFilled : FulfillState → Type 0
IsFilled s = (v : Text) × (s ≡ fulfilled v)

-- Every entry of the form is fulfilled.
unfoldable pub AllFilled : Text → Queue → Type 0
AllFilled form q = All (λ x. in_form form x ≡ true → IsFilled x.1.1) q

pub scan-done : (form : Text) (q : Queue) → (scan form q).done ≡ values form q
unfolding scan values
scan-done form [] = refl
scan-done form ((k, (e, s)) ∷ q) = elim (Bool-cases (is_form form e.form)) [
  | inl m ↦ rw m (entry e s q (scan-done form q))
  | inr m ↦ rw m (scan-done form q)
]
  where
    entry :
        (e : PendingEntry) (s : FulfillState) (q : Queue)
        → (scan form q).done ≡ values form q
        → (scan_entry e s (scan form q)).done ≡ filled e s (values form q)
    entry e pending q h = h
    entry e cancelled q h = h
    entry e (fulfilled v) q h = ap (◌∷◌ (e, v)) h

scan_entry-cancelled :
    (e : PendingEntry) (s : FulfillState) (later : Scan)
    → (scan_entry e s later).has_cancelled ≡ false
    → (scan_entry e s later).still_open ≡ 0
    → IsFilled s × (later.has_cancelled ≡ false) × (later.still_open ≡ 0)
scan_entry-cancelled e pending later h k = absurd (omega arith)
scan_entry-cancelled e cancelled later h k = absurd (ground arith)
scan_entry-cancelled e (fulfilled v) later h k = ((v, refl), h, k)

scan-AllFilled :
    (form : Text) (q : Queue)
    → (scan form q).has_cancelled ≡ false
    → (scan form q).still_open ≡ 0
    → AllFilled form q
unfolding scan AllFilled
scan-AllFilled form [] h k = tt
scan-AllFilled form ((key, (e, s)) ∷ q) h k = elim (Bool-cases (is_form form e.form)) [
  | inl m ↦
      let parts = scan_entry-cancelled e s (scan form q) (rw m at h) (rw m at k) in
      ((λ _. parts.0), scan-AllFilled form q parts.1 parts.2)
  | inr m ↦ ((λ yes. absurd (ground arith)), scan-AllFilled form q (rw m at h) (rw m at k))
]

count-place :
    (p : Filled → Bool) (x : Filled) (ys : List Filled)
    → count p (place index_lt x ys) ≡ count p (x ∷ ys)
unfolding count place
count-place p x [] = refl
count-place p x (y ∷ ys) = ground (arith, count-place p x ys)

count_tail :
    (p : Filled → Bool) (x : Filled) (xs ys : List Filled)
    → count p xs ≡ count p ys
    → count p (x ∷ xs) ≡ count p (x ∷ ys)
unfolding count
count_tail p x xs ys h = rw h

count-sort : (p : Filled → Bool) (xs : List Filled) → count p (sort index_lt xs) ≡ count p xs
unfolding sort
count-sort p [] = refl
count-sort p (x ∷ xs) = count-place p x (sort index_lt xs) ∙ count_tail p x _ _ (count-sort p xs)

-- An element is put among others.
pub All-place :
    (P : Filled → Type 0) (x : Filled) (ys : List Filled)
    → P x
    → All P ys
    → All P (place index_lt x ys)
unfolding place
All-place P x [] h k = (h, tt)
All-place P x (y ∷ ys) h k = elim (Bool-cases (index_lt y x)) [
  | inl m ↦ rw m (k.0, All-place P x ys h k.1)
  | inr m ↦ rw m (h, k)
]

abbrev Above : Filled → Filled → Type 0
Above x y = x.0.form_index ≤ y.0.form_index

Above-All : (x y : Filled) (ys : List Filled) → Above x y → All (Above y) ys → All (Above x) ys
Above-All x y [] h k = tt
Above-All x y (z ∷ ys) h k = (omega (arith, h, k.0), Above-All x y ys h k.1)

place-IsOrdered : (x : Filled) (ys : List Filled) → IsOrdered ys → IsOrdered (place index_lt x ys)
unfolding place IsOrdered
place-IsOrdered x [] h = (tt, tt)
place-IsOrdered x (y ∷ ys) h = elim (Bool-cases (index_lt y x)) [
  | inl m ↦ rw m (All-place (Above y) x ys (ground arith) h.0, place-IsOrdered x ys h.1)
  | inr m ↦
      let below : x.0.form_index ≤ y.0.form_index = ground arith in
      rw m ((below, Above-All x y ys below h.0), h)
]

pub sort-IsOrdered : (xs : List Filled) → IsOrdered (sort index_lt xs)
unfolding sort
sort-IsOrdered [] = unfold IsOrdered in tt
sort-IsOrdered (x ∷ xs) = place-IsOrdered x (sort index_lt xs) (sort-IsOrdered xs)

-- What a round that ends in `ready` has seen.
pub scan_at_ready :
    (form : Text) (expired : Bool) (q : Queue) {done : List Filled} {left : Queue}
    → wait_round form expired q ≡ (some (ready done), left)
    → ((scan form q).has_cancelled ≡ false)
      × ((scan form q).still_open ≡ 0)
      × (sort index_lt (scan form q).done ≡ done)
      × (without_form form q ≡ left)
      × ((length (scan form q).done == 0) ≡ false)
unfolding wait_round
scan_at_ready form expired q h = ground arith

-- If a round of a wait on a form ends in `ready`, every entry of the form in the queue was
-- fulfilled; what it returns is in the order of the fields and, under every test, has as many
-- entries as the form's values in the queue; and the queue that it leaves is the one without the
-- form's entries.
pub wait_round-ready :
    (form : Text) (expired : Bool) (q : Queue) {done : List Filled} {left : Queue}
    → wait_round form expired q ≡ (some (ready done), left)
    → AllFilled form q
      × IsOrdered done
      × ((p : Filled → Bool) → count p done ≡ count p (values form q))
      × (left ≡ without_form form q)
wait_round-ready form expired q {done} h =
    let (a, b, c, d, _) = scan_at_ready form expired q h in
    (
      scan-AllFilled form q a b,
      rw (← c) (sort-IsOrdered (scan form q).done),
      (λ p. rw (← c) (count-sort p (scan form q).done ∙ ap (count p) (scan-done form q))),
      sym d,
    )

abbrev pub concat : List (List Action) → List Action
concat [] = []
concat (as' ∷ rest) = as' ++ concat rest

act_all-append :
    (as' bs : List Action) (q : Queue) → act_all (as' ++ bs) q ≡ act_all bs (act_all as' q)
unfolding act_all
act_all-append [] bs q = refl
act_all-append (a ∷ as') bs q = act_all-append as' bs (act a q)

timeout_leaves :
    (form : Text) (expired : Bool) (q : Queue) {left : Queue}
    → wait_round form expired q ≡ (some still_pending, left)
    → (left ≡ q) × (expired ≡ true)
unfolding wait_round
timeout_leaves form expired q h = ground arith

timeout_or_later :
    (form : Text) (expired : Bool) (q left : Queue) (later : FormWait × Queue)
    → or_park (wait_round form expired q) later ≡ (still_pending, left)
    → ((left ≡ q) × (expired ≡ true)) ⊎ (later ≡ (still_pending, left))
timeout_or_later form expired q left later h = go (wait_round form expired q) refl h
  where
    go :
        (r : Option FormWait × Queue)
        → wait_round form expired q ≡ r
        → or_park r later ≡ (still_pending, left)
        → ((left ≡ q) × (expired ≡ true)) ⊎ (later ≡ (still_pending, left))
    go (none, q') e k = inr k
    go (some w, q') e k = inl (timeout_leaves form expired q (e ∙ ap (λ x. (some x.0, x.1)) k))

-- If a wait on a form ends in `still_pending`, the queue is what the other threads alone would have
-- made of it: a waiter whose time has run out leaves the form in place.
pub wait_form-still_pending :
    (form : Text) (schedule : List (List Action)) (q left : Queue)
    → wait_form form schedule q ≡ (still_pending, left)
    → left ≡ act_all (concat schedule) q
unfolding wait_form
wait_form-still_pending form [] q left h =
    elim (timeout_or_later form true q left (still_pending, q) h) [
      | inl k ↦ unfold act_all in k.0
      | inr k ↦ unfold act_all in sym (ap (λ x. x.1) k)
    ]
wait_form-still_pending form (actions ∷ schedule) q left h =
    elim (timeout_or_later form false q left (wait_form form schedule (act_all actions q)) h) [
      | inl k ↦ absurd (let no = k.1 in ground arith)
      | inr k ↦
          wait_form-still_pending form schedule (act_all actions q) left k
          ∙ sym (act_all-append actions (concat schedule) q)
    ]

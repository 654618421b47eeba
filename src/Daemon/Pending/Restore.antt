-- ===== src/Daemon/Pending/Restore.antt =====
-- A collected form that is handed back is collected again.
use vibesurfer.Prelude.{
  ◌+◌, Bool, true, false, List, [], ◌∷◌, ◌++◌, some, ◌≡◌, refl, sym, ap, ◌∙◌, arith, ◌==◌, All, map,
  length, Bool-cases, inl, inr, append_assoc, append-nil,
}
use vibesurfer.Text.{Text}
use vibesurfer.Table.{put, get-put_other, put-new}
use vibesurfer.Daemon.Pending.{
  fulfilled, Value, Queue, Filled, ready, place, sort, is_form, scan, index_lt, without_form,
  wait_round, restore,
}
use vibesurfer.Daemon.Pending.Reordered.{Reordered, AllFields, wait_round-Reordered}
use vibesurfer.Daemon.Pending.Queues.{IsQueue}
use vibesurfer.Daemon.Pending.Wait.{IsOrdered, values, scan_at_ready, scan-done, sort-IsOrdered}
use vibesurfer.Daemon.Pending.Values.{
  Apart, AllApart, Absent, All-sort, sort-AllApart, sort_self, All-filled, values-AllApart,
  values-Absent,
}

abbrev back : Filled → Text × Value
back (e, v) = (e.id, (e, fulfilled v))

Absent-put :
    (x : Filled) (q : Queue) (ys : List Filled)
    → All (Apart x) ys
    → All (Absent q) ys
    → All (Absent (put x.0.id (x.0, fulfilled x.1) q)) ys
Absent-put x q [] h k = tt
Absent-put x q (y ∷ ys) h k =
    (get-put_other q x.0.id y.0.id (x.0, fulfilled x.1) h.0 ∙ k.0, Absent-put x q ys h.1 k.1)

restore-append :
    (done : List Filled) (q : Queue)
    → All (Absent q) done
    → AllApart done
    → restore done q ≡ q ++ map back done
unfolding restore
restore-append [] q h k = sym (append-nil q)
restore-append ((e, v) ∷ done) q h k =
    restore-append done (put e.id (e, fulfilled v) q) (Absent-put (e, v) q done k.0 h.1) k.1
    ∙ ap (λ t. t ++ map back done) (put-new q e.id (e, fulfilled v) h.0)
    ∙ append_assoc q (back (e, v) ∷ []) (map back done)

abbrev InForm : Text → Filled → Type 0
InForm form x = is_form form x.0.form ≡ true

values-InForm : (form : Text) (q : Queue) → All (InForm form) (values form q)
unfolding values
values-InForm form [] = tt
values-InForm form ((l, (e, s)) ∷ q) = elim (Bool-cases (is_form form e.form)) [
  | inl i ↦ rw i (All-filled (InForm form) e s (values form q) (λ v. i) (values-InForm form q))
  | inr i ↦ rw i (values-InForm form q)
]

scan-back :
    (form : Text) (xs : List Filled)
    → All (InForm form) xs
    → scan form (map back xs) ≡ record { done = xs; still_open = 0; has_cancelled = false }
unfolding scan
scan-back form [] h = refl
scan-back form ((e, v) ∷ xs) h = rw (h.0, scan-back form xs h.1)

scan-without_form : (form : Text) (q t : Queue) → scan form (without_form form q ++ t) ≡ scan form t
unfolding scan without_form
scan-without_form form [] t = refl
scan-without_form form ((l, (e, s)) ∷ q) t = elim (Bool-cases (is_form form e.form)) [
  | inl i ↦ rw i (scan-without_form form q t)
  | inr i ↦ rw (i, i) (scan-without_form form q t)
]

without_form-back :
    (form : Text) (xs : List Filled) → All (InForm form) xs → without_form form (map back xs) ≡ []
unfolding without_form
without_form-back form [] h = refl
without_form-back form ((e, v) ∷ xs) h = rw h.0 (without_form-back form xs h.1)

without_form-append :
    (form : Text) (q t : Queue)
    → without_form form t ≡ []
    → without_form form (without_form form q ++ t) ≡ without_form form q
unfolding without_form
without_form-append form [] t h = h
without_form-append form ((l, (e, s)) ∷ q) t h = elim (Bool-cases (is_form form e.form)) [
  | inl i ↦ rw i (without_form-append form q t h)
  | inr i ↦ rw (i, i) (ap (◌∷◌ (l, (e, s))) (without_form-append form q t h))
]

place-filled : (x : Filled) (ys : List Filled) → (length (place index_lt x ys) == 0) ≡ false
unfolding place
place-filled x [] = refl
place-filled x (y ∷ ys) = ground arith

sort-filled :
    (xs : List Filled) → (length xs == 0) ≡ false → (length (sort index_lt xs) == 0) ≡ false
unfolding sort
sort-filled [] h = absurd (ground arith)
sort-filled (x ∷ xs) h = place-filled x (sort index_lt xs)

wait_round-back :
    (form : Text) (again : Bool) (q : Queue) (xs : List Filled)
    → All (InForm form) xs
    → IsOrdered xs
    → (length xs == 0) ≡ false
    → wait_round form again (without_form form q ++ map back xs)
      ≡ (some (ready xs), without_form form q)
unfolding wait_round
wait_round-back form again q xs inside ordered full =
    let some_done : (length xs + 0 == 0) ≡ false = ground arith in
    rw (
      scan-without_form form q (map back xs),
      scan-back form xs inside,
      some_done,
      sort_self xs ordered,
      without_form-append form q (map back xs) (without_form-back form xs inside),
    )

wait_round-values :
    (form : Text) (again : Bool) (q : Queue)
    → IsQueue q
    → (length (values form q) == 0) ≡ false
    → wait_round form again (restore (sort index_lt (values form q)) (without_form form q))
      ≡ (some (ready (sort index_lt (values form q))), without_form form q)
wait_round-values form again q h full =
    ap (wait_round form again) (
      restore-append (sort index_lt (values form q)) (without_form form q)
        (All-sort (Absent (without_form form q)) (values form q) (values-Absent form q h))
        (sort-AllApart (values form q) (values-AllApart form q h)))
    ∙ wait_round-back form again q (sort index_lt (values form q))
        (All-sort (InForm form) (values form q) (values-InForm form q))
        (sort-IsOrdered (values form q)) (sort-filled (values form q) full)

-- The form comes back in the order in which the lists keep the queue.
restored_in_order :
    (form : Text) (expired again : Bool) (q : Queue) {done : List Filled} {left : Queue}
    → IsQueue q
    → wait_round form expired q ≡ (some (ready done), left)
    → wait_round form again (restore done left) ≡ (some (ready done), left)
restored_in_order form expired again q h x =
    let (_, _, sorted, rest, full) = scan_at_ready form expired q x in
    rw (← sorted, ← rest, scan-done form q)
      (wait_round-values form again q h (rw (scan-done form q) at full))

-- If a queue has one entry for each key, each key is its entry's id, and a wait has collected a form
-- whose fields all have different places in it, then, once the caller has handed the form back,
-- the next wait collects it again, with the same values in the same order, whatever the order in
-- which the `HashMap` then gives its entries; and what it leaves is what the first wait left, in some
-- order.
pub wait_round-restore :
    (form : Text) (expired again : Bool) (q t : Queue) {done : List Filled} {left : Queue}
    → IsQueue q
    → AllFields done
    → wait_round form expired q ≡ (some (ready done), left)
    → Reordered (restore done left) t
    → (other : Queue) × (wait_round form again t ≡ (some (ready done), other))
      × Reordered left other
wait_round-restore form expired again q t h differ x order =
    wait_round-Reordered form again differ order (restored_in_order form expired again q h x)

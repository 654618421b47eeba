-- ===== src/Daemon/Pending/Reordered.antt =====
-- A `HashMap` gives its entries in any order: what a round of a wait makes of another order.
use vibesurfer.Prelude.{
  suc, ◌+◌, Bool, false, not, List, [], ◌∷◌, some, ◌≡◌, refl, sym, ap, ◌∙◌, arith, ◌==◌, All,
  length, filterb, Bool-cases, inl, inr,
}
use vibesurfer.Text.{Text}
use vibesurfer.Daemon.Pending.Wait.{scan_at_ready}
use vibesurfer.Daemon.Pending.{
  PendingEntry, FulfillState, pending, cancelled, fulfilled, Value, Queue, Filled, place, sort,
  is_form, in_form, Scan, scan_entry, scan, index_lt, without_form, wait_round, ready,
}

-- The same elements in another order.
pub data Reordered {A : Type 0} : List A → List A → Type 0 where
  same : {xs : List A} → Reordered xs xs
  below : {x : A} {xs ys : List A} → Reordered xs ys → Reordered (x ∷ xs) (x ∷ ys)
  swaps : {x y : A} {xs : List A} → Reordered (x ∷ y ∷ xs) (y ∷ x ∷ xs)
  again : {xs ys zs : List A} → Reordered xs ys → Reordered ys zs → Reordered xs zs

module _ {A : Type 0} where
  All-Reordered : (P : A → Type 0) {xs ys : List A} → Reordered xs ys → All P xs → All P ys
  All-Reordered P same h = h
  All-Reordered P (below r) h = (h.0, All-Reordered P r h.1)
  All-Reordered P swaps h = (h.1.0, (h.0, h.1.1))
  All-Reordered P (again r t) h = All-Reordered P t (All-Reordered P r h)

  length-Reordered : {xs ys : List A} → Reordered xs ys → length xs ≡ length ys
  length-Reordered same = refl
  length-Reordered (below r) = ap suc (length-Reordered r)
  length-Reordered swaps = refl
  length-Reordered (again r t) = length-Reordered r ∙ length-Reordered t

  kept-swaps :
      (p : A → Bool) (x y : A) (xs : List A)
      → Reordered (filterb p (x ∷ y ∷ xs)) (filterb p (y ∷ x ∷ xs))
  kept-swaps p x y xs = elim (Bool-cases (p x)) [
    | inl e ↦ elim (Bool-cases (p y)) [ inl f ↦ rw (e, f) swaps | inr f ↦ rw (e, f) same ]
    | inr e ↦ elim (Bool-cases (p y)) [ inl f ↦ rw (e, f) same | inr f ↦ rw (e, f) same ]
  ]

  pub filterb-Reordered :
      (p : A → Bool) {xs ys : List A} → Reordered xs ys → Reordered (filterb p xs) (filterb p ys)
  filterb-Reordered p same = same
  filterb-Reordered p (below {x = x} r) = elim (Bool-cases (p x)) [
    | inl e ↦ rw e (below (filterb-Reordered p r))
    | inr e ↦ rw e (filterb-Reordered p r)
  ]
  filterb-Reordered p (swaps {x = x} {y = y} {xs = xs}) = kept-swaps p x y xs
  filterb-Reordered p (again r t) = again (filterb-Reordered p r) (filterb-Reordered p t)

-- The fields have different places in their form.
abbrev Differs : Filled → Filled → Type 0
Differs x y = (x.0.form_index == y.0.form_index) ≡ false

abbrev pub AllFields : List Filled → Type 0
AllFields [] = Unit
AllFields (x ∷ xs) = All (Differs x) xs × AllFields xs

pub AllFields-Reordered : {xs ys : List Filled} → Reordered xs ys → AllFields xs → AllFields ys
AllFields-Reordered same h = h
AllFields-Reordered (below {x = x} r) h =
    (All-Reordered (Differs x) r h.0, AllFields-Reordered r h.1)
AllFields-Reordered (swaps {x = x} {y = y}) h =
    let other : Differs y x = (let one = h.0.0 in ground (arith, one)) in
    ((other, h.1.0), (h.0.1, h.1.1))
AllFields-Reordered (again r t) h = AllFields-Reordered t (AllFields-Reordered r h)

place-swaps :
    (x y : Filled) (zs : List Filled)
    → Differs x y
    → place index_lt x (place index_lt y zs) ≡ place index_lt y (place index_lt x zs)
unfolding place
place-swaps x y [] d = ground (arith, d)
place-swaps x y (z ∷ zs) d = ground (arith, d, place-swaps x y zs d)

pub sort_any_order :
    {xs ys : List Filled} → Reordered xs ys → AllFields xs → sort index_lt xs ≡ sort index_lt ys
unfolding sort
sort_any_order same h = refl
sort_any_order (below {x = x} r) h = ap (place index_lt x) (sort_any_order r h.1)
sort_any_order (swaps {x = x} {y = y} {xs = xs}) h = place-swaps x y (sort index_lt xs) h.0.0
sort_any_order (again r t) h = sort_any_order r h ∙ sort_any_order t (AllFields-Reordered r h)

place-Reordered : (x : Filled) (ys : List Filled) → Reordered (place index_lt x ys) (x ∷ ys)
unfolding place
place-Reordered x [] = same
place-Reordered x (y ∷ ys) = elim (Bool-cases (index_lt y x)) [
  | inl e ↦ rw e (again (below (place-Reordered x ys)) swaps)
  | inr e ↦ rw e same
]

pub sort-Reordered : (xs : List Filled) → Reordered (sort index_lt xs) xs
unfolding sort
sort-Reordered [] = same
sort-Reordered (x ∷ xs) = again (place-Reordered x (sort index_lt xs)) (below (sort-Reordered xs))

-- Two scans that differ in the order of what they collected.
abbrev pub SameScan : Scan → Scan → Type 0
SameScan a b =
    Reordered a.done b.done × (a.still_open ≡ b.still_open) × (a.has_cancelled ≡ b.has_cancelled)

scan_entry-below :
    (e : PendingEntry) (s : FulfillState) (a b : Scan)
    → SameScan a b
    → SameScan (scan_entry e s a) (scan_entry e s b)
scan_entry-below e pending a b h = (h.0, ap suc h.1, h.2)
scan_entry-below e cancelled a b h = (h.0, h.1, refl)
scan_entry-below e (fulfilled v) a b h = (below h.0, h.1, h.2)

scan_entry-swaps :
    (e f : PendingEntry) (s t : FulfillState) (a : Scan)
    → SameScan (scan_entry e s (scan_entry f t a)) (scan_entry f t (scan_entry e s a))
scan_entry-swaps e f (fulfilled v) (fulfilled w) a = (swaps, refl, refl)
scan_entry-swaps e f (fulfilled v) pending a = (same, refl, refl)
scan_entry-swaps e f (fulfilled v) cancelled a = (same, refl, refl)
scan_entry-swaps e f pending (fulfilled w) a = (same, refl, refl)
scan_entry-swaps e f pending pending a = (same, refl, refl)
scan_entry-swaps e f pending cancelled a = (same, refl, refl)
scan_entry-swaps e f cancelled (fulfilled w) a = (same, refl, refl)
scan_entry-swaps e f cancelled pending a = (same, refl, refl)
scan_entry-swaps e f cancelled cancelled a = (same, refl, refl)

scan-below :
    (form : Text) (x : Text × Value) (q t : Queue)
    → SameScan (scan form q) (scan form t)
    → SameScan (scan form (x ∷ q)) (scan form (x ∷ t))
unfolding scan
scan-below form (k, (e, s)) q t h = elim (Bool-cases (is_form form e.form)) [
  | inl i ↦ rw i (scan_entry-below e s (scan form q) (scan form t) h)
  | inr i ↦ rw i h
]

scan-swaps :
    (form : Text) (x y : Text × Value) (q : Queue)
    → SameScan (scan form (x ∷ y ∷ q)) (scan form (y ∷ x ∷ q))
unfolding scan
scan-swaps form (k, (e, s)) (l, (f, t)) q = elim (Bool-cases (is_form form e.form)) [
  | inl i ↦ elim (Bool-cases (is_form form f.form)) [
    | inl j ↦ rw (i, j) (scan_entry-swaps e f s t (scan form q))
    | inr j ↦ rw (i, j) (same, refl, refl)
  ]
  | inr i ↦ elim (Bool-cases (is_form form f.form)) [
    | inl j ↦ rw (i, j) (same, refl, refl)
    | inr j ↦ rw (i, j) (same, refl, refl)
  ]
]

pub scan-Reordered :
    (form : Text) {q t : Queue} → Reordered q t → SameScan (scan form q) (scan form t)
scan-Reordered form same = (same, refl, refl)
scan-Reordered form (below {x = x} {xs = q} {ys = t} r) =
    scan-below form x q t (scan-Reordered form r)
scan-Reordered form (swaps {x = x} {y = y} {xs = q}) = scan-swaps form x y q
scan-Reordered form (again r t) =
    let one = scan-Reordered form r in
    let two = scan-Reordered form t in (again one.0 two.0, one.1 ∙ two.1, one.2 ∙ two.2)

wait_round_ends :
    (form : Text) (expired : Bool) (q : Queue)
    → (scan form q).has_cancelled ≡ false
    → (scan form q).still_open ≡ 0
    → (length (scan form q).done == 0) ≡ false
    → wait_round form expired q
      ≡ (some (ready (sort index_lt (scan form q).done)), without_form form q)
unfolding wait_round
wait_round_ends form expired q none_cancelled none_open full =
    let some_done : (length (scan form q).done + 0 == 0) ≡ false = ground arith in
    rw (none_cancelled, none_open, some_done)

-- A round that ends in `ready` with fields of different places ends so on every order of the queue,
-- with the same fields in the same order.
pub wait_round-Reordered :
    (form : Text) (expired : Bool) {q t : Queue} {done : List Filled} {left : Queue}
    → AllFields done
    → Reordered q t
    → wait_round form expired q ≡ (some (ready done), left)
    → (other : Queue) × (wait_round form expired t ≡ (some (ready done), other))
      × Reordered left other
unfolding without_form
wait_round-Reordered form expired {q} {t} {done} {left} differ r x =
    let (none_cancelled, none_open, sorted, rest, full) = scan_at_ready form expired q x in
    let (order, opened, stopped) = scan-Reordered form r in
    let fields : AllFields (scan form q).done =
      AllFields-Reordered (sort-Reordered (scan form q).done) (rw sorted differ) in
    let equal : sort index_lt (scan form t).done ≡ done =
      sym (sort_any_order order fields) ∙ sorted in
    let counted = length-Reordered order in
    (
      without_form form t,
      wait_round_ends form expired t (sym stopped ∙ none_cancelled) (sym opened ∙ none_open)
            (rw (sym counted) full)
          ∙ ap (λ fs. (some (ready fs), without_form form t)) equal,
      rw (sym rest) (filterb-Reordered (λ e. not (in_form form e)) r),
    )

-- ===== src/Daemon/Pending/Queues.antt =====
-- Every operation on the queue keeps it a map from the ids of its entries.
use vibesurfer.Prelude.{
  ◌+◌, Bool, not, List, [], ◌∷◌, none, some, ◌≡◌, refl, sym, ap, ◌∙◌, arith, ◌==◌, All, length,
  filterb, Bool-cases, Option-cases, inl, inr, Option,
}
use vibesurfer.Text.{Text, text_eq}
use vibesurfer.Table.{get, put, remove, write, IsTable, put-IsTable, write-IsTable, filterb-IsTable}
use vibesurfer.Daemon.Pending.{
  Option, PendingEntry, FulfillState, pending, cancelled, fulfilled, Value, Queue, Filled,
  is_pending, is_live, gc, enqueue, answer, fulfill, cancel, list, in_form, scan, without_form,
  wait_round, restore, bury_all, supersede, Action, enqueues, fulfills, cancels, supersedes, lists,
  collects, restores, parks, leaves, act, act_all,
}
use vibesurfer.Text.Laws.{text_eq_iff}

abbrev pub HasId : Text × Value → Type 0
HasId x = x.0 ≡ x.1.0.id

-- One entry for each key, and the key is the entry's id.
abbrev pub IsQueue : Queue → Type 0
IsQueue q = IsTable q × All HasId q

abbrev value_id : Option Value → Text
value_id none = []
value_id (some (e, s)) = e.id

pub get-HasId :
    (q : Queue) (k : Text) {e : PendingEntry} {s : FulfillState}
    → All HasId q
    → get q k ≡ some (e, s)
    → k ≡ e.id
unfolding get
get-HasId [] k h x = cc
get-HasId ((l, (f, t)) ∷ q) k h x = elim (Bool-cases (text_eq l k)) [
  | inl e ↦ sym ((text_eq_iff l k).0 e) ∙ (h.0 ∙ ap value_id (rw e at x))
  | inr e ↦ get-HasId q k h.1 (rw e at x)
]

pub filterb-HasId : (p : Text × Value → Bool) (q : Queue) → All HasId q → All HasId (filterb p q)
filterb-HasId p [] h = tt
filterb-HasId p (x ∷ q) h = elim (Bool-cases (p x)) [
  | inl e ↦ rw e (h.0, filterb-HasId p q h.1)
  | inr e ↦ rw e (filterb-HasId p q h.1)
]

put-HasId :
    (q : Queue) (e : PendingEntry) (s : FulfillState) → All HasId q → All HasId (put e.id (e, s) q)
unfolding put
put-HasId [] e s h = (refl, tt)
put-HasId ((l, w) ∷ q) e s h = elim (Bool-cases (text_eq l e.id)) [
  | inl x ↦ rw x ((text_eq_iff l e.id).0 x, h.1)
  | inr x ↦ rw x (h.0, put-HasId q e s h.1)
]

write-HasId :
    (q : Queue) (k : Text) (e : PendingEntry) (s : FulfillState)
    → k ≡ e.id
    → All HasId q
    → All HasId (write k (e, s) q)
unfolding write
write-HasId [] k e s same h = tt
write-HasId ((l, w) ∷ q) k e s same h = elim (Bool-cases (text_eq l k)) [
  | inl x ↦ rw x ((text_eq_iff l k).0 x ∙ same, h.1)
  | inr x ↦ rw x (h.0, write-HasId q k e s same h.1)
]

pub filterb-IsQueue : (p : Text × Value → Bool) (q : Queue) → IsQueue q → IsQueue (filterb p q)
filterb-IsQueue p q h = (filterb-IsTable p q h.0, filterb-HasId p q h.1)

pub put-IsQueue :
    (q : Queue) (e : PendingEntry) (s : FulfillState) → IsQueue q → IsQueue (put e.id (e, s) q)
put-IsQueue q e s h = (put-IsTable q e.id (e, s) h.0, put-HasId q e s h.1)

answer-IsQueue :
    (new : FulfillState) (k : Text) (q : Queue) → IsQueue q → IsQueue (answer new k q).1
unfolding answer
answer-IsQueue new k q h = elim (Option-cases (get q k)) [
  | inl x ↦ rw (x, answer) h
  | inr ((e, s), x) ↦
      rw (x, answer)
        (elim (Bool-cases (is_pending s)) [
          | inl p ↦
              rw p (write-IsTable q k (e, new) h.0, write-HasId q k e new (get-HasId q k h.1 x) h.1)
          | inr p ↦ rw p h
        ])
]

get-bury_all-none :
    (dead : List Text) (q : Queue) (k : Text) → get q k ≡ none → get (bury_all dead q) k ≡ none
unfolding get bury_all
get-bury_all-none dead [] k h = refl
get-bury_all-none dead ((l, v) ∷ q) k h = ground (arith, get-bury_all-none dead q k)

bury_all-IsQueue : (dead : List Text) (q : Queue) → IsQueue q → IsQueue (bury_all dead q)
unfolding bury_all
bury_all-IsQueue dead [] h = h
bury_all-IsQueue dead ((k, (e, s)) ∷ q) h =
    let rest = bury_all-IsQueue dead q (h.0.1, h.1.1) in
    ((get-bury_all-none dead q k h.0.0, rest.0), (h.1.0, rest.1))

restore-IsQueue : (entries : List Filled) (q : Queue) → IsQueue q → IsQueue (restore entries q)
unfolding restore
restore-IsQueue [] q h = h
restore-IsQueue ((e, v) ∷ entries) q h =
    restore-IsQueue entries (put e.id (e, fulfilled v) q) (put-IsQueue q e (fulfilled v) h)

pub wait_round-IsQueue :
    (form : Text) (expired : Bool) (q : Queue) → IsQueue q → IsQueue (wait_round form expired q).1
unfolding wait_round without_form
wait_round-IsQueue form expired q h =
    let left = filterb-IsQueue (λ x. not (in_form form x)) q h in
    elim (Bool-cases (scan form q).has_cancelled) [
      | inl a ↦ rw a left
      | inr a ↦
          rw a (elim (Bool-cases (length (scan form q).done + (scan form q).still_open == 0)) [
            | inl b ↦ rw b h
            | inr b ↦ rw b (elim (Bool-cases ((scan form q).still_open == 0)) [
              | inl c ↦ rw c left
              | inr c ↦ rw c (elim (Bool-cases expired) [ inl d ↦ rw d h | inr d ↦ rw d h ])
            ])
          ])
    ]

act-IsQueue : (a : Action) (q : Queue) → IsQueue q → IsQueue (act a q)
unfolding act enqueue gc fulfill cancel supersede list remove
act-IsQueue (enqueues now e) q h =
    put-IsQueue (filterb (λ x. is_live now x.1.0) q) e pending (filterb-IsQueue _ q h)
act-IsQueue (fulfills id v) q h = answer-IsQueue (fulfilled v) id q h
act-IsQueue (cancels id) q h = answer-IsQueue cancelled id q h
act-IsQueue (supersedes page refs) q h = bury_all-IsQueue _ q h
act-IsQueue (lists now) q h = filterb-IsQueue _ q h
act-IsQueue (collects form expired) q h = wait_round-IsQueue form expired q h
act-IsQueue (restores entries) q h = restore-IsQueue entries q h
act-IsQueue (parks e) q h = put-IsQueue q e pending h
act-IsQueue (leaves id) q h = filterb-IsQueue (λ x. not (text_eq x.0 id)) q h

-- If in a queue each entry is filed under its own id, and under no other key, then so it is after
-- any sequence of operations of any threads, the two ends of `enqueue_and_wait` included. That no
-- key has two entries is what a `HashMap` grants; here it shows that the lists keep to it.
pub act_all-IsQueue : (actions : List Action) (q : Queue) → IsQueue q → IsQueue (act_all actions q)
unfolding act_all
act_all-IsQueue [] q h = h
act_all-IsQueue (a ∷ actions) q h = act_all-IsQueue actions (act a q) (act-IsQueue a q h)

-- ===== src/Daemon/Pending/Answers.antt =====
-- An entry is answered once.
use vibesurfer.Prelude.{
  ap, sym, All, ◌∙◌, arith, true, false, List, [], ◌∷◌, none, some, ◌≡◌, refl, Bool-cases,
  Option-cases, inl, inr,
}
use vibesurfer.Text.{Text, text_eq}
use vibesurfer.Table.{get, put, write, get-write, get-write_other, get-remove}
use vibesurfer.Text.Laws.{text_eq_iff}
use vibesurfer.Daemon.Pending.{
  PendingEntry, FulfillState, pending, cancelled, fulfilled, Queue, is_pending, answer, fulfill,
  cancel, peek, Action, act, act_all, fulfills, cancels, woken, wait_entry, enqueue_and_wait,
}

answer-settled :
    (new : FulfillState) (id : Text) (q : Queue) {e : PendingEntry} {s : FulfillState}
    → get q id ≡ some (e, s)
    → is_pending s ≡ false
    → answer new id q ≡ (false, q)
unfolding answer
answer-settled new id q x p = rw (x, answer, p)

answer-pending :
    (new : FulfillState) (id : Text) (q : Queue) {e : PendingEntry} {s : FulfillState}
    → get q id ≡ some (e, s)
    → is_pending s ≡ true
    → answer new id q ≡ (true, write id (e, new) q)
unfolding answer
answer-pending new id q x p = rw (x, answer, p)

answer_missing :
    (new : FulfillState) (id : Text) (q : Queue) → get q id ≡ none → answer new id q ≡ (false, q)
unfolding answer
answer_missing new id q x = rw (x, answer)

peek-pending :
    (id : Text) (q : Queue) {e : PendingEntry} {s : FulfillState}
    → get q id ≡ some (e, s)
    → is_pending s ≡ true
    → peek id q ≡ some e
unfolding peek
peek-pending id q x p = rw (x, peek, p)

answer-final :
    (new : FulfillState) (id : Text) (q : Queue)
    → is_pending new ≡ false
    → (answer new id q).0 ≡ true
    → (e : PendingEntry) × (peek id q ≡ some e) × (get (answer new id q).1 id ≡ some (e, new))
answer-final new id q settled h = elim (Option-cases (get q id)) [
  | inl x ↦
      let failed : false ≡ true = sym (ap (λ r. r.0) (answer_missing new id q x)) ∙ h in
      absurd (ground arith)
  | inr ((e, s), x) ↦ elim (Bool-cases (is_pending s)) [
    | inr p ↦
        let failed : false ≡ true = sym (ap (λ r. r.0) (answer-settled new id q x p)) ∙ h in
        absurd (ground arith)
    | inl p ↦ rw (answer-pending new id q x p) (e, peek-pending id q x p, get-write q id (e, new) x)
  ]
]

answer-others :
    (new : FulfillState) (k id : Text) (q : Queue)
    → text_eq k id ≡ false
    → get (answer new k q).1 id ≡ get q id
unfolding answer
answer-others new k id q other = elim (Option-cases (get q k)) [
  | inl x ↦ rw (answer_missing new k q x)
  | inr ((e, s), x) ↦ elim (Bool-cases (is_pending s)) [
    | inl p ↦ rw (answer-pending new k q x p) (get-write_other q k id (e, new) other)
    | inr p ↦ rw (answer-settled new k q x p)
  ]
]

-- An attempt to answer an entry, this one or another.
abbrev pub IsAttempt : Action → Type 0
IsAttempt (fulfills id v) = Unit
IsAttempt (cancels id) = Unit
IsAttempt _ = ⊥

answer-keeps :
    (new : FulfillState) (k id : Text) (q : Queue) {e : PendingEntry} {s : FulfillState}
    → get q id ≡ some (e, s)
    → is_pending s ≡ false
    → get (answer new k q).1 id ≡ some (e, s)
answer-keeps new k id q {e} {s} x settled = elim (Bool-cases (text_eq k id)) [
  | inl same ↦ rw ((text_eq_iff k id).0 same, answer-settled new id q x settled) x
  | inr other ↦ rw (answer-others new k id q other) x
]

attempts-keep :
    (attempts : List Action) (id : Text) (q : Queue) {e : PendingEntry} {s : FulfillState}
    → All IsAttempt attempts
    → get q id ≡ some (e, s)
    → is_pending s ≡ false
    → get (act_all attempts q) id ≡ some (e, s)
unfolding act_all act fulfill cancel
attempts-keep [] id q h x settled = x
attempts-keep (fulfills k v ∷ attempts) id q h x settled =
    attempts-keep attempts id (fulfill k v q).1 h.1 (answer-keeps (fulfilled v) k id q x settled)
      settled
attempts-keep (cancels k ∷ attempts) id q h x settled =
    attempts-keep attempts id (cancel k q).1 h.1 (answer-keeps cancelled k id q x settled) settled
attempts-keep (_ ∷ attempts) id q h x settled = absurd (h.0)

-- If a fulfilment reports success, then the entry was pending before; and after any further attempts
-- to fulfil or to cancel this entry or others, the entry still holds the value, and neither a
-- fulfilment nor a cancellation of it succeeds or changes the queue.
pub fulfill-final :
    (id v : Text) (q : Queue) (attempts : List Action)
    → All IsAttempt attempts
    → (fulfill id v q).0 ≡ true
    → let after = act_all attempts (fulfill id v q).1 in
      (e : PendingEntry) × (peek id q ≡ some e)
      × (get after id ≡ some (e, fulfilled v))
      × ((w : Text) → fulfill id w after ≡ (false, after))
      × (cancel id after ≡ (false, after))
unfolding fulfill cancel
fulfill-final id v q attempts h done =
    let (e, was, is) = answer-final (fulfilled v) id q refl done in
    let kept = attempts-keep attempts id (fulfill id v q).1 h is refl in
    let after = act_all attempts (fulfill id v q).1 in
    (
      e,
      was,
      kept,
      (λ w. answer-settled (fulfilled w) id after kept refl),
      answer-settled cancelled id after kept refl,
    )

get-wait_entry :
    (e : PendingEntry) (schedule : List (List Action)) (q : Queue)
    → get (wait_entry e.id schedule q).1 e.id ≡ none
unfolding wait_entry
get-wait_entry e [] q = get-remove q e.id
get-wait_entry e (actions ∷ schedule) q =
    elim (Option-cases (woken (get (act_all actions q) e.id))) [
      | inl x ↦ rw (x, wait_entry) (get-wait_entry e schedule (act_all actions q))
      | inr (a, x) ↦ rw (x, wait_entry) (get-remove (act_all actions q) e.id)
    ]

-- However `enqueue_and_wait` ends, and whatever the other threads do, its entry is not in the queue
-- when it returns.
pub get-enqueue_and_wait :
    (e : PendingEntry) (schedule : List (List Action)) (q : Queue)
    → get (enqueue_and_wait e schedule q).1 e.id ≡ none
unfolding enqueue_and_wait
get-enqueue_and_wait e schedule q = get-wait_entry e schedule (put e.id (e, pending) q)

-- ===== src/Daemon/Pending.antt =====
-- crates/vs-daemon/src/daemon/pending.rs. The lock makes each operation one step on the queue. An
-- `Instant` is a number of nanoseconds. A wait on the condition variable is given what the other
-- threads do to the queue before it wakes; when the list of these is at its end, the deadline has
-- passed.
pub mod Queues
pub mod Answers
pub mod Supersede
pub mod Wait
pub mod Values
pub mod Reordered
pub mod Restore
mod Examples
use vibesurfer.Prelude.{
  ℕ, zero, suc, ◌+◌, ◌-◌, ◌*◌, ◌^◌, ◌%◌, ◌<◌, ◌≤◌, Bool, true, false, not, ◌&&◌, ◌||◌, List, [],
  ◌∷◌, ◌++◌, Option, none, some, ◌≡◌, refl, sym, ap, ◌∙◌, ◌≢◌, arith, ◌==◌, any, all, All, map,
  length, if◌then◌else◌, ltb, leb, filterb, Bool-cases, inl, inr, append_assoc, append-nil,
}
use vibesurfer.Text.{Text, codes, text_eq, text_lt}
use vibesurfer.Table.{get, put, remove, write}

pub record PendingEntry : Type 0 where
  pub id : Text
  pub page : Text
  pub r : ℕ
  pub message : Text
  pub secret : Bool
  pub token : Text
  pub group : Option Text
  pub form : Option Text
  pub form_index : ℕ
  pub created_at : ℕ

abbrev pub orphan_ttl : ℕ
orphan_ttl = 30 * 60 * 10 ^ 9

pub data FulfillState : Type 0 where
  pending cancelled : FulfillState
  fulfilled : Text → FulfillState

abbrev pub Value : Type 0
Value = PendingEntry × FulfillState

abbrev pub Queue : Type 0
Queue = List (Text × Value)

abbrev pub Filled : Type 0
Filled = PendingEntry × Text

pub data FormWait : Type 0 where
  ready : List Filled → FormWait
  still_pending cancelled_form unknown : FormWait

abbrev pub is_pending : FulfillState → Bool
is_pending pending = true
is_pending _ = false

-- `elapsed` is zero for a time to come.
unfoldable pub is_live : ℕ → PendingEntry → Bool
is_live now e = ltb (now - e.created_at) orphan_ttl

unfoldable pub gc : ℕ → Queue → Queue
gc now q = filterb (λ x. is_live now x.1.0) q

unfoldable pub enqueue : ℕ → PendingEntry → Queue → Queue
enqueue now e q = put e.id (e, pending) (gc now q)

-- The change of state that `fulfill` and `cancel` make to a pending entry.
unfoldable pub answer : FulfillState → Text → Queue → Bool × Queue
answer new id q = elim (get q id) [
  | none ↦ (false, q)
  | some (e, s) ↦ if is_pending s then (true, write id (e, new) q) else (false, q)
]

unfoldable pub fulfill : Text → Text → Queue → Bool × Queue
fulfill id v q = answer (fulfilled v) id q

unfoldable pub cancel : Text → Queue → Bool × Queue
cancel id q = answer cancelled id q

unfoldable pub peek : Text → Queue → Option PendingEntry
peek id q = elim (get q id) [ none ↦ none | some (e, s) ↦ if is_pending s then some e else none ]

-- `sort_by`: stable, so an element stays in front of the later ones that are not below it.
module _ {ℓ} {A : Type ℓ} (lt : A → A → Bool) where
  unfoldable pub place : A → List A → List A
  place x [] = x ∷ []
  place x (y ∷ ys) = let later = y ∷ place x ys in if lt y x then later else x ∷ y ∷ ys

  unfoldable pub sort : List A → List A
  sort [] = []
  sort (x ∷ xs) = place x (sort xs)

-- The order of `Option<&str>`.
abbrev pub form_lt : Option Text → Option Text → Bool
form_lt none none = false
form_lt none (some g) = true
form_lt (some f) none = false
form_lt (some f) (some g) = text_lt f g

-- The order of the triples that `list` compares.
unfoldable pub entry_lt : PendingEntry → PendingEntry → Bool
entry_lt a b =
    form_lt a.form b.form
    || (not (form_lt b.form a.form)
        && (ltb a.form_index b.form_index || (a.form_index == b.form_index && text_lt a.id b.id)))

abbrev pub pending_entries : Queue → List PendingEntry
pending_entries [] = []
pending_entries ((k, (e, s)) ∷ q) =
    let later = pending_entries q in if is_pending s then e ∷ later else later

unfoldable pub list : ℕ → Queue → List PendingEntry × Queue
list now q = (sort entry_lt (pending_entries (gc now q)), gc now q)

abbrev pub is_form : Text → Option Text → Bool
is_form form none = false
is_form form (some f) = text_eq f form

abbrev pub in_form : Text → Text × Value → Bool
in_form form x = is_form form x.1.0.form

-- What the loop of `wait_form` collects.
pub record Scan : Type 0 where
  pub done : List Filled
  pub still_open : ℕ
  pub has_cancelled : Bool

abbrev pub scan_entry : PendingEntry → FulfillState → Scan → Scan
scan_entry e pending later = record later { still_open = suc later.still_open }
scan_entry e (fulfilled v) later = record later { done = (e, v) ∷ later.done }
scan_entry e cancelled later = record later { has_cancelled = true }

unfoldable pub scan : Text → Queue → Scan
scan form [] = record { done = []; still_open = 0; has_cancelled = false }
scan form ((k, (e, s)) ∷ q) =
    let later = scan form q in if is_form form e.form then scan_entry e s later else later

abbrev pub index_lt : Filled → Filled → Bool
index_lt a b = ltb a.0.form_index b.0.form_index

unfoldable pub without_form : Text → Queue → Queue
without_form form q = filterb (λ x. not (in_form form x)) q

-- One round of the loop; no answer means that it parks.
unfoldable pub wait_round : Text → Bool → Queue → Option FormWait × Queue
wait_round form expired q =
    let s = scan form q in
    if s.has_cancelled
    then (some cancelled_form, without_form form q)
    else if length s.done + s.still_open == 0
    then (some unknown, q)
    else if s.still_open == 0
    then (some (ready (sort index_lt s.done)), without_form form q)
    else if expired
    then (some still_pending, q)
    else (none, q)

unfoldable pub restore : List Filled → Queue → Queue
restore [] q = q
restore ((e, v) ∷ entries) q = restore entries (put e.id (e, fulfilled v) q)

-- The map from forms to their fields, and the forms that are left alone.
abbrev pub Forms : Type 0
Forms = List (Text × List (ℕ × ℕ))

unfoldable pub add_field : Text → ℕ × ℕ → Forms → Forms
add_field form field forms = elim (get forms form) [
  | none ↦ put form (field ∷ []) forms
  | some fields ↦ put form (fields ++ field ∷ []) forms
]

abbrev pub survey_state : FulfillState → Text → ℕ × ℕ → Forms × List Text → Forms × List Text
survey_state pending form field (forms, touched) = (add_field form field forms, touched)
survey_state _ form field (forms, touched) = (forms, touched ++ form ∷ [])

abbrev pub survey_form :
    Option Text → Bool → FulfillState → ℕ × ℕ → Forms × List Text → Forms × List Text
survey_form none here s field acc = acc
survey_form (some form) here s field acc = if here then survey_state s form field acc else acc

unfoldable pub survey : Text → Queue → Forms × List Text → Forms × List Text
survey page [] acc = acc
survey page ((k, (e, s)) ∷ q) acc =
    survey page q (survey_form e.form (text_eq e.page page) s (e.form_index, e.r) acc)

abbrev pub has_text : Text → List Text → Bool
has_text f = any (λ d. text_eq d f)

abbrev pub field_lt : ℕ × ℕ → ℕ × ℕ → Bool
field_lt a b = ltb a.0 b.0 || (a.0 == b.0 && ltb a.1 b.1)

abbrev pub same_refs : List (ℕ × ℕ) → List ℕ → Bool
same_refs [] [] = true
same_refs ((i, r) ∷ fields) (s ∷ refs) = r == s && same_refs fields refs
same_refs _ _ = false

unfoldable pub dead_forms : List ℕ → Forms × List Text → List Text
dead_forms refs ([], touched) = []
dead_forms refs ((form, fields) ∷ forms, touched) =
    let later = dead_forms refs (forms, touched) in
    if not (has_text form touched) && same_refs (sort field_lt fields) refs
    then form ∷ later
    else later

abbrev pub is_dead : List Text → Option Text → Bool
is_dead dead none = false
is_dead dead (some f) = has_text f dead

abbrev pub bury : List Text → Value → Value
bury dead (e, s) = (e, if is_dead dead e.form then cancelled else s)

unfoldable pub bury_all : List Text → Queue → Queue
bury_all dead [] = []
bury_all dead ((k, v) ∷ q) = (k, bury dead v) ∷ bury_all dead q

unfoldable pub supersede : Text → List ℕ → Queue → List Text × Queue
supersede page refs q =
    let dead = dead_forms refs (survey page q ([], [])) in (dead, bury_all dead q)

-- What another thread does to the queue.
pub data Action : Type 0 where
  enqueues : ℕ → PendingEntry → Action
  fulfills : Text → Text → Action
  cancels : Text → Action
  supersedes : Text → List ℕ → Action
  lists : ℕ → Action
  collects : Text → Bool → Action
  restores : List Filled → Action
  -- The two ends of `enqueue_and_wait`.
  parks : PendingEntry → Action
  leaves : Text → Action

unfoldable pub act : Action → Queue → Queue
act (enqueues now e) q = enqueue now e q
act (fulfills id v) q = (fulfill id v q).1
act (cancels id) q = (cancel id q).1
act (supersedes page refs) q = (supersede page refs q).1
act (lists now) q = (list now q).1
act (collects form expired) q = (wait_round form expired q).1
act (restores entries) q = restore entries q
act (parks e) q = put e.id (e, pending) q
act (leaves id) q = remove id q

unfoldable pub act_all : List Action → Queue → Queue
act_all [] q = q
act_all (a ∷ actions) q = act_all actions (act a q)

abbrev pub or_park : Option FormWait × Queue → FormWait × Queue → FormWait × Queue
or_park (some w, q) later = (w, q)
or_park (none, q) later = later

unfoldable pub wait_form : Text → List (List Action) → Queue → FormWait × Queue
wait_form form [] q = or_park (wait_round form true q) (still_pending, q)
wait_form form (actions ∷ schedule) q =
    let later = wait_form form schedule (act_all actions q) in
    or_park (wait_round form false q) later

-- What `enqueue_and_wait` finds when it wakes; no answer means that it waits again.
abbrev pub woken : Option Value → Option (Option Text)
woken none = some none
woken (some (e, pending)) = none
woken (some (e, fulfilled v)) = some (some v)
woken (some (e, cancelled)) = some none

unfoldable pub wait_entry : Text → List (List Action) → Queue → Option Text × Queue
wait_entry id [] q = (none, remove id q)
wait_entry id (actions ∷ schedule) q =
    let q' = act_all actions q in
    let later = wait_entry id schedule q' in
    elim (woken (get q' id)) [ none ↦ later | some answer ↦ (answer, remove id q') ]

unfoldable pub enqueue_and_wait : PendingEntry → List (List Action) → Queue → Option Text × Queue
enqueue_and_wait e schedule q = wait_entry e.id schedule (put e.id (e, pending) q)

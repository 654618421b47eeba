-- ===== src/Daemon/Store/Laws.antt =====
-- What a statement does to the rows.
use vibesurfer.Prelude.{
  List, [], ◌∷◌, Option, none, some, ◌≡◌, refl, ◌+◌, ◌++◌, length, drop, ℕ, Bool, true, any,
  filterb, ltb,
}
use vibesurfer.Text.{Text}
use vibesurfer.Daemon.Store.{first, length, update_rows, Page, ActionInsert, Store, statement, fate}
use vibesurfer.Daemon.Fallible.{ok}
use vibesurfer.Daemon.Store.Actions.{record_action, is_repeat, lookup_idempotent}
use vibesurfer.Daemon.Store.Pages.{update_page}
use vibesurfer.Daemon.Pending.{sort}

-- The next statement goes through.
abbrev pub first_fate : List (Option Text) → Option Text
first_fate [] = none
first_fate (f ∷ fs) = f

fate_ok :
    (fs : List (Option Text)) (s : Store)
    → first_fate fs ≡ none
    → fate fs s ≡ (ok tt, record s { faults = drop 1 fs })
fate_ok [] s h = refl
fate_ok (none ∷ fs) s h = refl
fate_ok (some message ∷ fs) s h = cc

pub statement_ok :
    (s : Store)
    → first_fate s.faults ≡ none
    → statement s ≡ (ok tt, record s { faults = drop 1 s.faults })
unfolding statement
statement_ok s h = fate_ok s.faults s h

fate-rows :
    (fs : List (Option Text)) (s : Store)
    → ((fate fs s).1.sessions ≡ s.sessions)
      × ((fate fs s).1.pages ≡ s.pages)
      × ((fate fs s).1.actions ≡ s.actions)
fate-rows [] s = (refl, refl, refl)
fate-rows (none ∷ fs) s = (refl, refl, refl)
fate-rows (some message ∷ fs) s = (refl, refl, refl)

pub statement-rows :
    (s : Store)
    → ((statement s).1.sessions ≡ s.sessions)
      × ((statement s).1.pages ≡ s.pages)
      × ((statement s).1.actions ≡ s.actions)
unfolding statement
statement-rows s = fate-rows s.faults s

pub statement-actions : (s : Store) → (statement s).1.actions ≡ s.actions
statement-actions s = (statement-rows s).2

pub record_action_ok :
    (insert : ActionInsert) (s : Store)
    → first_fate s.faults ≡ none
    → record_action insert s ≡ (
      ok (length s.actions + 1),
      record s {
        actions = s.actions ++ record { id = length s.actions + 1; insert = insert } ∷ [];
        faults = drop 1 s.faults;
      },
    )
unfolding record_action
record_action_ok insert s h = rw (statement_ok s h)

-- Nothing in the log repeats the call.
pub lookup_idempotent-none :
    (pid before hash : Text) (now ttl : ℕ) (s : Store)
    → first_fate s.faults ≡ none
    → filterb (is_repeat pid before hash now ttl) s.actions ≡ []
    → lookup_idempotent pid before hash now ttl s ≡ (ok none, record s { faults = drop 1 s.faults })
unfolding lookup_idempotent sort
lookup_idempotent-none pid before hash now ttl s fault new = rw (statement_ok s fault, new)

pub update_page_ok :
    (p : Page → Bool) (f : Page → Page) (id : Text) (s : Store)
    → first_fate s.faults ≡ none
    → any p s.pages ≡ true
    → update_page p f id s
      ≡ (ok tt, record s { pages = update_rows p f s.pages; faults = drop 1 s.faults })
unfolding update_page
update_page_ok p f id s fault found = rw (statement_ok s fault, found)

-- What the lookup gives when the store works.
pub lookup_idempotent-found :
    (pid before hash : Text) (now ttl : ℕ) (s : Store)
    → first_fate s.faults ≡ none
    → lookup_idempotent pid before hash now ttl s ≡ (
      ok (
          first (
            sort
              (λ a b. ltb b.insert.started_at a.insert.started_at)
              (filterb (is_repeat pid before hash now ttl) s.actions))),
      record s { faults = drop 1 s.faults },
    )
unfolding lookup_idempotent
lookup_idempotent-found pid before hash now ttl s fault = rw (statement_ok s fault)

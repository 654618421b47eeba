-- ===== src/Daemon/Pending/Examples.antt =====
-- Runs of the queue, and instances of its theorems.
use vibesurfer.Prelude.{ℕ, Bool, true, false, List, [], ◌∷◌, none, some, ◌≡◌, refl}
use vibesurfer.Text.{Text, codes, text_eq}
use vibesurfer.Table.{get, put, write}
use vibesurfer.Daemon.Pending.{
  cancels, PendingEntry, pending, cancelled, fulfilled, Queue, Filled, ready, still_pending, answer,
  fulfill, cancel, peek, place, sort, scan, without_form, wait_round, restore, add_field, survey,
  dead_forms, bury_all, supersede, Action, fulfills, act, act_all, wait_form, enqueue_and_wait,
}
use vibesurfer.Daemon.Pending.Queues.{IsQueue, act_all-IsQueue}
use vibesurfer.Daemon.Pending.Answers.{fulfill-final, get-enqueue_and_wait}
use vibesurfer.Daemon.Pending.Supersede.{get-supersede}
use vibesurfer.Daemon.Pending.Wait.{
  count, values, IsOrdered, AllFilled, concat, wait_round-ready, wait_form-still_pending,
}
use vibesurfer.Daemon.Pending.Reordered.{Reordered, swaps}
use vibesurfer.Daemon.Pending.Restore.{wait_round-restore}

abbrev field : Text → Text → ℕ → PendingEntry
field id page index = record {
  id = id;
  page = page;
  r = index;
  message = codes "field";
  secret = false;
  token = codes "0000000000000000";
  group = none;
  form = some (codes "f");
  form_index = index;
  created_at = 5;
}

abbrev user : PendingEntry
user = field (codes "a") (codes "p") 0

abbrev password : PendingEntry
password = field (codes "b") (codes "p") 1

-- The second field stands first in the map.
abbrev asked : Queue
asked = (codes "b", (password, pending)) ∷ (codes "a", (user, pending)) ∷ []

abbrev answered : Queue
answered =
    (codes "b", (password, fulfilled (codes "two")))
    ∷ (codes "a", (user, fulfilled (codes "one")))
    ∷ []

abbrev half : Queue
half = (codes "b", (password, fulfilled (codes "two"))) ∷ (codes "a", (user, pending)) ∷ []

asked-IsQueue : IsQueue asked
unfolding get text_eq
asked-IsQueue = ((refl, (refl, tt)), (refl, (refl, tt)))

answered-IsQueue : IsQueue answered
unfolding get text_eq
answered-IsQueue = ((refl, (refl, tt)), (refl, (refl, tt)))

abbrev answers : List Action
answers = fulfills (codes "b") (codes "two") ∷ fulfills (codes "a") (codes "one") ∷ []

answers_give : act_all answers asked ≡ answered
unfolding act_all act fulfill answer get write text_eq
answers_give = refl

act_all-IsQueue_example : IsQueue (act_all answers asked)
act_all-IsQueue_example = act_all-IsQueue answers asked asked-IsQueue

-- A later attempt to give another value, and one to cancel another entry.
abbrev attempts : List Action
attempts = fulfills (codes "b") (codes "three") ∷ cancels (codes "a") ∷ []

abbrev after_attempts : Queue
after_attempts = act_all attempts (fulfill (codes "b") (codes "two") asked).1

fulfill-final_example :
    (e : PendingEntry) × (peek (codes "b") asked ≡ some e)
    × (get after_attempts (codes "b") ≡ some (e, fulfilled (codes "two")))
    × ((w : Text) → fulfill (codes "b") w after_attempts ≡ (false, after_attempts))
    × (cancel (codes "b") after_attempts ≡ (false, after_attempts))
fulfill-final_example =
    fulfill-final (codes "b") (codes "two") asked attempts (tt, (tt, tt))
      (unfold fulfill answer get text_eq in refl)

get-enqueue_and_wait_example :
    get
      (enqueue_and_wait password ((fulfills (codes "b") (codes "two") ∷ []) ∷ []) []).1
      (codes "b")
    ≡ none
get-enqueue_and_wait_example =
    get-enqueue_and_wait password ((fulfills (codes "b") (codes "two") ∷ []) ∷ []) []

get-supersede_example :
    get (supersede (codes "p") (0 ∷ 1 ∷ []) half).1 (codes "b")
    ≡ some (password, fulfilled (codes "two"))
get-supersede_example =
    get-supersede (codes "p") (0 ∷ 1 ∷ []) half (codes "b") {e = password}
      {s = fulfilled (codes "two")} (unfold get text_eq in refl) refl refl

abbrev collected : List Filled
collected = (user, codes "one") ∷ (password, codes "two") ∷ []

collects_all : wait_round (codes "f") false answered ≡ (some (ready collected), [])
unfolding wait_round scan without_form sort place text_eq
collects_all = refl

wait_round-ready_example :
    AllFilled (codes "f") answered
    × IsOrdered collected
    × ((p : Filled → Bool) → count p collected ≡ count p (values (codes "f") answered))
    × ([] ≡ without_form (codes "f") answered)
wait_round-ready_example =
    wait_round-ready (codes "f") false answered {done = collected} {left = []} collects_all

-- The map gives the other field first.
hands_back : Reordered (restore collected []) answered
unfolding restore put text_eq
hands_back = swaps

wait_round-restore_example :
    (other : Queue) × (wait_round (codes "f") true answered ≡ (some (ready collected), other))
    × Reordered [] other
wait_round-restore_example =
    wait_round-restore (codes "f") false true answered answered {done = collected} {left = []}
      answered-IsQueue ((refl, tt), (tt, tt)) collects_all hands_back

abbrev half_schedule : List (List Action)
half_schedule = (fulfills (codes "b") (codes "two") ∷ []) ∷ []

times_out : wait_form (codes "f") half_schedule asked ≡ (still_pending, half)
unfolding wait_form wait_round scan without_form act_all act fulfill answer get write text_eq
times_out = refl

wait_form-still_pending_example : half ≡ act_all (concat half_schedule) asked
wait_form-still_pending_example =
    wait_form-still_pending (codes "f") half_schedule asked half times_out

-- An answered entry of another page does not save its form: it is lost with the form.
abbrev elsewhere : PendingEntry
elsewhere = field (codes "c") (codes "q") 2

buried_answer :
    get
      (supersede
        (codes "p")
        (0 ∷ 1 ∷ [])
        ((codes "c", (elsewhere, fulfilled (codes "x"))) ∷ asked)).1
      (codes "c")
    ≡ some (elsewhere, cancelled)
unfolding supersede survey add_field dead_forms bury_all get put sort place text_eq
buried_answer = refl

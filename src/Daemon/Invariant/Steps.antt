-- ===== src/Daemon/Invariant/Steps.antt =====
-- Every state that the daemon reaches.
use vibesurfer.Prelude.{ℕ, ◌+◌, Bool, List, [], ◌∷◌, Option, none, some, ◌≡◌, inl, inr}
use vibesurfer.Text.{Text}
use vibesurfer.Daemon.Pending.{PendingEntry, Filled}
use vibesurfer.Daemon.PageOps.Wait.{hits_of, wait, find, find_body}
use vibesurfer.Daemon.Invariant.Opens.{require_session-Keeps, open_page-Keeps, session_open-Keeps}
use vibesurfer.Protocol.Envelope.Token.{StateToken}
use vibesurfer.Daemon.Error.{DaemonError}
use vibesurfer.Daemon.Fallible.{Outcome, ok, err, pure, ◌>>=◌, then_try, Outcome-cases}
use vibesurfer.Daemon.Engine.{WaitCondition}
use vibesurfer.Daemon.World.{World, Env, find_session, find_page, require_session, current_token}
use vibesurfer.Daemon.Audit.{lift}
use vibesurfer.Daemon.Lifecycle.Pages.{open_page, navigate, close}
use vibesurfer.Daemon.Lifecycle.{session_close, session_open}
use vibesurfer.Daemon.Fallible.Keeps.{Keeps, bind-Keeps}
use vibesurfer.Daemon.Invariant.{IsValid, IsKeyed}
use vibesurfer.Daemon.Invariant.Restarts.{resurrect_sessions-Valid}
use vibesurfer.Daemon.Invariant.Pieces.{lift-Keeps, audit_call-Keeps, after, after_note}
use vibesurfer.Daemon.Invariant.Pages.{current_token-Keeps}
use vibesurfer.Daemon.PageOps.{view, read, read_body, read_of}
use vibesurfer.Daemon.PageOps.Act.{act, ActCall}
use vibesurfer.Daemon.PageOps.Status.{status, render_status, status_body}
use vibesurfer.Daemon.Lifecycle.Sweep.{resurrect_sessions, session_close_sweep}
use vibesurfer.Daemon.Reaper.{ReapConfig, reap_once}
use vibesurfer.Daemon.PromptForm.{fill_fields, before_fill, or_zero, fill_call}
use vibesurfer.Daemon.Invariant.Views.{view-Keeps, act-Keeps, navigate-Keeps}
use vibesurfer.Daemon.Invariant.Waits.{wait-Keeps}
use vibesurfer.Daemon.Invariant.Closes.{
  session_close-Keeps, sweep-Keeps, close-Keeps, reap_once-Valid,
}

-- One call of the daemon, a sweep of the reaper, time that passes, or a new daemon that takes over the
-- sessions of the old store.
pub data Step (env : Env) : World → World → Type 0 where
  opens_session : {w : World} (policy : Option Text) → Step env w (session_open env policy w).1
  closes_session_of : {w : World} (sid : Text) → Step env w (session_close env sid w).1
  sweeps : {w : World} (idle_for : Option ℕ) → Step env w (session_close_sweep env idle_for w).1
  opens_page : {w : World} (sid url : Text) → Step env w (open_page env sid url w).1
  goes_to : {w : World} (sid pid url : Text) → Step env w (navigate env sid pid url w).1
  closes_page : {w : World} (sid pid : Text) → Step env w (close env sid pid w).1
  sees : {w : World} (sid pid : Text) (force : Bool) → Step env w (view env sid pid force w).1
  reads_node : {w : World} (sid pid : Text) (r : ℕ) → Step env w (read env sid pid r w).1
  performs : {w : World} (call : ActCall) → Step env w (act env call w).1
  finds : {w : World} (sid query : Text) → Step env w (find env sid query w).1
  waits_on :
      {w : World} (sid pid : Text) (cond : WaitCondition) (budget : ℕ)
      → Step env w (wait env sid pid cond budget w).1
  tells : {w : World} (version : Text) (sid : Option Text) → Step env w (status version env sid w).1
  fills :
      {w : World} (sid : Text) (values : List Filled) (token : Option StateToken)
      → Step env w (fill_fields env sid values token w).1
  reaps : {w : World} (cfg : ReapConfig) → Step env w (reap_once env cfg w)
  passes_time :
      {w : World} (instant epoch : ℕ)
      → Step env w (record w { instant = w.instant + instant; epoch = w.epoch + epoch })
  restarts :
      {w : World} (max_age : ℕ)
      → Step env w (resurrect_sessions max_age (record w { sessions = [] })).1

pub data Reach (env : Env) (w : World) : World → Type 0 where
  here : Reach env w w
  next : {u v : World} → Reach env w u → Step env u v → Reach env w v

read-Keeps : (env : Env) (sid pid : Text) (r : ℕ) → Keeps IsValid (read env sid pid r)
unfolding read read_body
read-Keeps env sid pid r = audit_call-Keeps _ (read_body env sid pid r) (
    after _ (λ w. (then_try (find_page sid pid w.sessions) (read_of env r), w)) (λ w h. h)
      (λ found.
        after_note _ (λ c. record c { before_token = some found.0; after_token = some found.0 })
          (λ done s h. h)))

find_body-Keeps : (sid query : Text) → Keeps IsValid (find_body sid query)
unfolding find_body
find_body-Keeps sid query =
    bind-Keeps IsValid (require_session sid)
      (λ known. (λ w. (find_session sid w.sessions, w)) >>= λ s.
        pure (record { hits = hits_of query s.pages }))
      (require_session-Keeps sid)
      (λ known.
        bind-Keeps IsValid (λ w. (find_session sid w.sessions, w))
          (λ s. pure (record { hits = hits_of query s.pages })) (λ w h. h) (λ s w h. h))

find-Keeps : (env : Env) (sid query : Text) → Keeps IsValid (find env sid query)
unfolding find
find-Keeps env sid query =
    audit_call-Keeps _ (lift (find_body sid query))
      (lift-Keeps (find_body sid query) (find_body-Keeps sid query))

render_status-Keeps :
    (version : Text) (sid : Option Text) → Keeps IsValid (render_status version sid)
unfolding render_status
render_status-Keeps version none = λ w h. h
render_status-Keeps version (some sid) = λ w h. h

status-Keeps :
    (version : Text) (env : Env) (sid : Option Text) → Keeps IsValid (status version env sid)
unfolding status
status-Keeps version env sid = audit_call-Keeps _ (lift (status_body version sid)) (
    lift-Keeps (status_body version sid) (
      bind-Keeps IsValid (render_status version sid) (λ body. pure (record { body = body }))
        (render_status-Keeps version sid) (λ body w h. h)))

or_zero-Valid :
    (env : Env) (x : Outcome DaemonError StateToken × World)
    → IsValid x.1
    → IsValid (or_zero env x).1
or_zero-Valid env (ok t, w) h = h
or_zero-Valid env (err e, w) h = h

before_fill-Valid :
    (env : Env) (sid : Text) (entry : PendingEntry) (token : Option StateToken) (w : World)
    → IsValid w
    → IsValid (before_fill env sid entry token w).1
before_fill-Valid env sid entry (some t) w h = h
before_fill-Valid env sid entry none w h =
    or_zero-Valid env (current_token sid entry.page w) (current_token-Keeps sid entry.page w h)

fill_fields-Keeps :
    (env : Env) (sid : Text) (values : List Filled) (token : Option StateToken)
    → Keeps IsValid (fill_fields env sid values token)
unfolding fill_fields
fill_fields-Keeps env sid [] token w h = h
fill_fields-Keeps env sid ((entry, value) ∷ rest) token w h =
    let x = before_fill env sid entry token w in
    let filled = act env (fill_call env sid entry value x.0) x.1 in
    let valid =
      act-Keeps env (fill_call env sid entry value x.0) x.1
        (before_fill-Valid env sid entry token w h) in
    elim (Outcome-cases filled.0) [
      | inl (resp, e) ↦
          rw (fill_fields, e) (fill_fields-Keeps env sid rest (some resp.token) filled.1 valid)
      | inr (why, e) ↦ rw (fill_fields, e) valid
    ]

Step-IsValid : {env : Env} {w u : World} → Step env w u → IsValid w → IsValid u
Step-IsValid {env} {w} (opens_session policy) h = session_open-Keeps env policy w h
Step-IsValid {env} {w} (closes_session_of sid) h = session_close-Keeps env sid w h
Step-IsValid {env} {w} (sweeps idle_for) h = sweep-Keeps env idle_for w h
Step-IsValid {env} {w} (opens_page sid url) h = open_page-Keeps env sid url w h
Step-IsValid {env} {w} (goes_to sid pid url) h = navigate-Keeps env sid pid url w h
Step-IsValid {env} {w} (closes_page sid pid) h = close-Keeps env sid pid w h
Step-IsValid {env} {w} (sees sid pid force) h = view-Keeps env sid pid force w h
Step-IsValid {env} {w} (reads_node sid pid r) h = read-Keeps env sid pid r w h
Step-IsValid {env} {w} (performs call) h = act-Keeps env call w h
Step-IsValid {env} {w} (finds sid query) h = find-Keeps env sid query w h
Step-IsValid {env} {w} (waits_on sid pid cond budget) h = wait-Keeps env sid pid cond budget w h
Step-IsValid {env} {w} (tells version sid) h = status-Keeps version env sid w h
Step-IsValid {env} {w} (fills sid values token) h = fill_fields-Keeps env sid values token w h
Step-IsValid {env} {w} (reaps cfg) h = reap_once-Valid env cfg w h
Step-IsValid (passes_time instant epoch) h = h
Step-IsValid {env} {w} (restarts max_age) h = resurrect_sessions-Valid max_age w h

-- If the daemon began with no session in memory and the store has no two session rows with the same
-- id, which is the table's primary key, then, whichever of the calls of `Step` are made, whatever the
-- engine answers, whichever statements of the store fail, and however often a new daemon takes the
-- sessions over from the store, in every state that is reached each session in memory has an open
-- row in the store, each of its pages has a row there and the id that it is filed under, no session
-- of the daemon and no page of a session is filed twice, and the ids of the session rows still
-- differ.
pub Reach-IsValid :
    (env : Env) {w u : World}
    → w.sessions ≡ []
    → IsKeyed w.store.sessions
    → Reach env w u
    → IsValid u
Reach-IsValid env empty keyed here = rw empty ((tt, keyed), tt)
Reach-IsValid env empty keyed (next r step) = Step-IsValid step (Reach-IsValid env empty keyed r)

-- ===== src/Daemon/Examples.antt =====
-- Runs of the daemon on a small state, and instances of the theorems.
mod Rules
mod Faults
use vibesurfer.Text.{codes, text_eq, Text, text_lt, split_once}
use vibesurfer.Prelude.{
  false, [], ◌∷◌, none, some, ◌≡◌, refl, ◌+◌, ◌≤◌, arith, ◌⊎◌, ℕ, zero, suc, ◌-◌, ◌*◌, ◌/◌, ◌%◌,
  ◌^◌, ◌<◌, Bool, true, not, ◌&&◌, ◌||◌, List, ◌++◌, Option, sym, ap, ◌∙◌, ◌≢◌, ◌↔◌, ◌==◌, any, all,
  All, map, length, if◌then◌else◌, ltb, leb, filterb, Bool-cases, Option-cases, inl, inr,
  append_assoc, append-nil, drop, take, or_else, max, min, length-append,
}
use vibesurfer.Table.{get, put, remove, write}
use vibesurfer.Protocol.Tree.Nodes.{Forest, nil, node, Shell}
use vibesurfer.Protocol.Envelope.Token.{StateToken}
use vibesurfer.Daemon.Error.{unknown_session, stale}
use vibesurfer.Daemon.Fallible.{ok, err}
use vibesurfer.Daemon.Engine.{acts, Engine, click, careful, token_change}
use vibesurfer.Daemon.PageState.{PageState, compute}
use vibesurfer.Daemon.Store.{Session, Page, opened, Store, Action, ActionInsert}
use vibesurfer.Daemon.World.{World, Env, SessionState}
use vibesurfer.Daemon.Audit.{AuditCtx, new_ctx, Body, audit_call, error_of}
use vibesurfer.Daemon.Lifecycle.{session_close, session_open, handles_of}
use vibesurfer.Protocol.Codes.{error_str, stale_token, doc}
use vibesurfer.Daemon.Audit.Log.{body_end, body_result, row_of, audit_call-row}
use vibesurfer.Daemon.World.Laws.{Located, touched}
use vibesurfer.Daemon.Lifecycle.Closed.{session_close-removes, closings}
use vibesurfer.Daemon.PageOps.Act.{ActCall, act}
use vibesurfer.Daemon.PageOps.Act.Stale.{act-stale}
use vibesurfer.Daemon.PageOps.Act.Performed.{performed}
use vibesurfer.Daemon.PageOps.Act.Retry.{act-retry}
use vibesurfer.Daemon.PageOps.Wait.{wait_change, poll_rounds, rounds_of}
use vibesurfer.Daemon.PageOps.Wait.Rounds.{poll_rounds-enough}
use vibesurfer.Daemon.PageOps.Wait.Deadline.{wait_change-in_time}
use vibesurfer.Daemon.Invariant.{IsValid}
use vibesurfer.Daemon.Invariant.Steps.{here, next, opens_session, restarts, Reach-IsValid}
use vibesurfer.Daemon.Lifecycle.Sweep.{resurrect_sessions}

abbrev pub shell : Shell
shell = record { r = 1; role = doc; label = codes "Hello"; ops = []; attrs = [] }

abbrev pub tree : Forest
tree = node shell nil nil

-- An engine that does what it is told.
abbrev pub obedient : Engine
obedient = record {
  on_open = λ calls url. ok 1;
  on_navigate = λ calls h url. ok tt;
  on_close = λ calls h. ok tt;
  on_snapshot = λ calls h. ok tree;
  on_view = λ calls h. ok (tree, []);
  on_act = λ calls h r action mode. ok tree;
  takes = λ calls. 30;
  on_wait = λ calls h cond budget. ok tt;
}

-- The token is eight bytes of the text that is hashed; the texts themselves are short.
abbrev pub env : Env
env = record {
  engine = obedient;
  token_of = λ text. 9 ∷ 9 ∷ 9 ∷ 9 ∷ 9 ∷ 9 ∷ 9 ∷ 9 ∷ [];
  digest = λ text. text;
  short_id = λ n. codes "0";
  to_lowercase = λ text. text;
}

abbrev pub old_token : StateToken
old_token = 1 ∷ 2 ∷ 3 ∷ 4 ∷ 5 ∷ 6 ∷ 7 ∷ 8 ∷ []

abbrev pub page : PageState
page = record {
  id = codes "p";
  url = codes "u";
  engine_handle = some 1;
  last_tree = some nil;
  last_token = some old_token;
  force_full = false;
  seen_refs = [];
  last_touched = 0;
}

abbrev pub session : SessionState
session = record { pages = (codes "p", page) ∷ []; last_touched = 0 }

abbrev pub row : Page
row = record {
  id = codes "p";
  session_id = codes "s";
  url = codes "u";
  title = none;
  last_token = none;
  last_dom_hash = none;
  last_seen_at = 0;
  closed_at = none;
}

abbrev pub session_of : Session
session_of = record {
  id = codes "s";
  created_at = 0;
  policy_id = none;
  status = opened;
  closed_at = none;
}

abbrev pub rows : Store
rows = record { sessions = session_of ∷ []; pages = row ∷ []; actions = []; faults = [] }

abbrev pub world : World
world = record {
  sessions = (codes "s", session) ∷ [];
  store = rows;
  calls = [];
  instant = 0;
  epoch = 0;
  drawn = 0;
}

abbrev pub new_daemon : World
new_daemon = record {
  sessions = [];
  store = record { sessions = []; pages = []; actions = []; faults = [] };
  calls = [];
  instant = 0;
  epoch = 0;
  drawn = 0;
}

-- A click with a token.
abbrev pub click_with : StateToken → ActCall
click_with before = record {
  session_id = codes "s";
  page_id = codes "p";
  target = 1;
  action = click;
  before_token = before;
  args_hash = codes "h";
  args_redacted = [];
  mode = careful;
  group_label = none;
}

page-Located : Located world.sessions (codes "s") (codes "p") page
unfolding get text_eq
page-Located = (session, refl, refl)

act-stale_example :
    let (r, after) = act env (click_with []) world in
    (r ≡ err (stale old_token (codes "mutate")))
    × (after.calls ≡ [])
    × Located after.sessions (codes "s") (codes "p") (touched 0 page)
    × ((insert : ActionInsert) × (after.store.actions ≡ record { id = 1; insert = insert } ∷ [])
        × (insert.error_code ≡ some (error_str stale_token)))
unfolding text_eq
act-stale_example = act-stale env (click_with []) world page 1 page-Located refl refl refl

abbrev new_token : StateToken
new_token = 9 ∷ 9 ∷ 9 ∷ 9 ∷ 9 ∷ 9 ∷ 9 ∷ 9 ∷ []

act-retry_example :
    let (r, after) = act env (click_with old_token) world in
    let (again, later) = act env (click_with old_token) after in
    (r ≡ ok (performed env (click_with old_token) world page tree))
    × ((performed env (click_with old_token) world page tree).token ≡ new_token)
    × (after.calls ≡ acts 1 1 click careful ∷ [])
    × (again ≡ err (stale new_token (codes "mutate")))
    × (later.calls ≡ after.calls)
unfolding text_eq compute
act-retry_example =
    act-retry env (click_with old_token) world page 1 tree page-Located refl refl refl refl refl
      refl refl

-- A row of the log that the click repeats.
abbrev logged_click : Action
logged_click = record {
  id = 1;
  insert = record {
    session_id = codes "s";
    page_id = some (codes "p");
    primitive = codes "vs_act";
    args_redacted = [];
    args_hash = codes "h";
    before_token = some (codes "0102030405060708");
    after_token = some (codes "0102030405060708");
    idempotency_hit = false;
    result_summary = none;
    latency_ms = 0;
    group_label = none;
    started_at = 0;
    finished_at = 0;
    error_code = none;
  };
}

abbrev after_click : World
after_click = record world { store = record rows { actions = logged_click ∷ [] } }

session_close-removes_example :
    let after = (session_close env (codes "s") world).1 in
    (get after.sessions (codes "s") ≡ none)
    × (get after.sessions (codes "t") ≡ get world.sessions (codes "t"))
    × (after.calls ≡ closings (handles_of session.pages) [])
unfolding text_eq get
session_close-removes_example =
    session_close-removes env (codes "s") (codes "t") world session refl refl

abbrev some_ctx : AuditCtx
some_ctx = new_ctx (codes "vs_session_close") (codes "s")

abbrev some_body : Body Text
some_body s = (err (unknown_session (codes "s")), s)

audit_call-row_example :
    let s = (body_end some_ctx some_body world).world in
    let (r, after) = audit_call some_ctx some_body world in
    (r ≡ err (unknown_session (codes "s")))
    × (after.store.actions ≡ record { id = 1; insert = row_of some_ctx some_body world } ∷ [])
    × ((row_of some_ctx some_body world).error_code
        ≡ error_of (body_result some_ctx some_body world))
    × (after.sessions ≡ s.sessions)
    × (after.calls ≡ s.calls)
audit_call-row_example = audit_call-row some_ctx some_body world refl

wait_change-in_time_example :
    (wait_change env (codes "s") (codes "p") 1 1000000000 world).1.instant ≤ 0 + 1000000000 + 40
wait_change-in_time_example =
    wait_change-in_time env (codes "s") (codes "p") 1 1000000000 40 world (λ calls. omega arith)

poll_rounds-enough_example :
    poll_rounds env 7 (codes "s") (codes "p") (codes "u") 1 (some old_token) 1000 1000 world
    ≡ poll_rounds env
        (rounds_of env 1000)
        (codes "s")
        (codes "p")
        (codes "u")
        1
        (some old_token)
        1000
        1000
        world
poll_rounds-enough_example =
    poll_rounds-enough env 7 (codes "s") (codes "p") (codes "u") 1 (some old_token) 1000 world
      (omega arith)

Reach-IsValid_example :
    IsValid
      (resurrect_sessions 60 (record (session_open env none new_daemon).1 { sessions = [] })).1
Reach-IsValid_example =
    Reach-IsValid env {w = new_daemon} refl tt (next (next here (opens_session none)) (restarts 60))

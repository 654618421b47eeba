-- ===== src/Daemon/PageOps/Wait.antt =====
-- `wait`, `find` and `status` of crates/vs-daemon/src/daemon/page_ops.rs.
pub mod Rounds
pub mod Deadline
use vibesurfer.Prelude.{
  ℕ, zero, suc, ◌+◌, ◌*◌, ◌/◌, ◌^◌, Bool, true, false, not, List, [], ◌∷◌, ◌++◌, Option, none, some,
  length, if◌then◌else◌, ltb, filterb, ◌⊎◌, ◌-◌, ◌%◌, ◌<◌, ◌≤◌, ◌&&◌, ◌||◌, ◌≡◌, refl, sym, ap, ◌∙◌,
  ◌≢◌, ◌↔◌, arith, ◌==◌, any, all, All, map, leb, Bool-cases, Option-cases, inl, inr, append_assoc,
  append-nil, drop, take, or_else, max, min, length-append,
}
use vibesurfer.Text.{Text, codes, text_eq, text_lt, split_once}
use vibesurfer.Table.{get, put, remove, write}
use vibesurfer.Protocol.Tree.Nodes.{Forest, size, Node}
use vibesurfer.Protocol.Tree.Iter.{collect}
use vibesurfer.Protocol.Envelope.Token.{StateToken}
use vibesurfer.Daemon.Error.{engine, timed_out}
use vibesurfer.Daemon.Fallible.{ok, err, pure, fail, ◌>>=◌, ◌>>◌}
use vibesurfer.Daemon.Engine.{PageHandle, WaitCondition, snapshots, waits, token_change}
use vibesurfer.Daemon.PageState.{PageState, ViewForm, compute, apply_snapshot, same_token}
use vibesurfer.Daemon.Store.{is_none}
use vibesurfer.Daemon.World.{
  Env, D, SessionState, on_engine, find_session, find_page, with_page, require_session,
  engine_handle_for,
}
use vibesurfer.Daemon.Redact.{contains_text}
use vibesurfer.Daemon.Audit.{new_ctx, with_args, with_page_id, Body, lift, note_after, audit_call}
use vibesurfer.Daemon.Lifecycle.Pages.{engine_snapshot, save_token}
use vibesurfer.Daemon.Lifecycle.{hash_of}
use vibesurfer.Protocol.Codes.{role_str}

pub record WaitResponse : Type 0 where
  pub token : StateToken

pub record FindHit : Type 0 where
  pub page_id : Text
  pub r : ℕ
  pub role : Text
  pub label : Text

pub record FindResponse : Type 0 where
  pub hits : List FindHit

pub record StatusResponse : Type 0 where
  pub body : Text

-- A quarter of a second.
abbrev pub poll : ℕ
poll = 250 * 10 ^ 6

abbrev pub is_token_change : WaitCondition → Bool
is_token_change token_change = true
is_token_change _ = false

unfoldable pub sleep : ℕ → D (Unit {0})
sleep duration w = (ok tt, record w { instant = w.instant + duration })

module _ (env : Env) where
  unfoldable pub engine_wait : PageHandle → WaitCondition → ℕ → D (Unit {0})
  engine_wait h cond budget w =
      on_engine (waits h cond budget) (env.engine.on_wait w.calls h cond budget) w

  unfoldable pub advance_baseline : Text → Text → Forest → D (StateToken × ViewForm)
  advance_baseline sid pid tree = do
    seen ← with_page sid pid (λ p. apply_snapshot env.token_of p tree)
    save_token env pid seen.0
    pure seen

  -- A snapshot in the polling loop, and the time that the engine takes for it.
  unfoldable pub slow_snapshot : PageHandle → D Forest
  slow_snapshot h w =
      engine_snapshot env h
        (record w { instant = w.instant + env.engine.takes (snapshots h ∷ w.calls) })

  -- The end of a round of the polling loop: too late for another, or asleep until the next.
  abbrev pub next_round : ℕ → ℕ → D StateToken → D StateToken
  next_round deadline budget again w =
      if ltb deadline (w.instant + poll)
      then (err (engine (timed_out budget (codes "wait") [])), w)
      else (do sleep poll; again) w

  -- `fuel` rounds at most; a round that is not the last takes at least a quarter of a
  -- second, and more by what the engine needs for the snapshot.
  unfoldable pub poll_rounds :
      ℕ → Text → Text → Text → PageHandle → Option StateToken → ℕ → ℕ → D StateToken
  poll_rounds zero sid pid url h baseline deadline budget =
      fail (engine (timed_out budget (codes "wait") []))
  poll_rounds (suc fuel) sid pid url h baseline deadline budget = do
    tree ← slow_snapshot h
    let again = poll_rounds fuel sid pid url h baseline deadline budget
    if same_token baseline (compute env.token_of tree url pid)
        then next_round deadline budget again
        else (do seen ← advance_baseline sid pid tree; pure seen.0)

  abbrev pub rounds_of : ℕ → ℕ
  rounds_of budget = suc (budget / poll)

  abbrev pub wait_for : Text → Text → PageHandle → WaitCondition → ℕ → D StateToken
  wait_for sid pid h cond budget = do
    engine_wait h cond budget
    tree ← engine_snapshot env h
    seen ← advance_baseline sid pid tree
    pure seen.0

  abbrev pub wait_change : Text → Text → PageHandle → ℕ → D StateToken
  wait_change sid pid h budget = do
    p ← λ w. (find_page sid pid w.sessions, w)
    λ w. poll_rounds (rounds_of budget) sid pid p.url h p.last_token (w.instant + budget) budget w

  unfoldable pub wait_body : Text → Text → WaitCondition → ℕ → Body WaitResponse
  wait_body sid pid cond budget = do
    h ← lift (engine_handle_for env sid pid)
    token ← lift (
        if is_token_change cond
        then wait_change sid pid h budget
        else wait_for sid pid h cond budget)
    note_after token
    pure (record { token = token })

  unfoldable pub wait : Text → Text → WaitCondition → ℕ → D WaitResponse
  wait sid pid cond budget =
      audit_call
        (with_args [] (hash_of env (codes "vs_wait") [])
          (with_page_id pid (new_ctx (codes "vs_wait") sid)))
        (wait_body sid pid cond budget)

unfoldable pub hits_in : Text → Text → List Node → List FindHit
hits_in query pid [] = []
hits_in query pid (n ∷ ns) =
    let later = hits_in query pid ns in
    let hit : FindHit = record {
      page_id = pid;
      r = n.r;
      role = role_str n.role;
      label = n.label;
    } in
    if contains_text query n.label then hit ∷ later else later

unfoldable pub hits_of : Text → List (Text × PageState) → List FindHit
hits_of query [] = []
hits_of query ((pid, p) ∷ ps) = elim p.last_tree [
  | none ↦ hits_of query ps
  | some t ↦ hits_in query pid (collect (size t) t) ++ hits_of query ps
]

unfoldable pub find_body : Text → Text → D FindResponse
find_body sid query = do
  require_session sid
  s ← λ w. (find_session sid w.sessions, w)
  pure (record { hits = hits_of query s.pages })

unfoldable pub live_pages : SessionState → ℕ
live_pages s = length (filterb (λ e. not (is_none e.1.engine_handle)) s.pages)

module _ (env : Env) where
  unfoldable pub find : Text → Text → D FindResponse
  find sid query =
      audit_call
        (with_args query (hash_of env (codes "vs_find") (query ∷ []))
          (new_ctx (codes "vs_find") sid))
        (lift (find_body sid query))

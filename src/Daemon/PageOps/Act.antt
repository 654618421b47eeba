-- ===== src/Daemon/PageOps/Act.antt =====
-- `act` of crates/vs-daemon/src/daemon/page_ops.rs.
pub mod Stale
pub mod Performed
pub mod Retry
pub mod Repeated
use vibesurfer.Prelude.{
  ℕ, Bool, true, false, List, [], ◌∷◌, ◌++◌, Option, none, some, if◌then◌else◌, zero, suc, ◌+◌, ◌-◌,
  ◌*◌, ◌/◌, ◌%◌, ◌^◌, ◌<◌, ◌≤◌, not, ◌&&◌, ◌||◌, ◌≡◌, refl, sym, ap, ◌∙◌, ◌≢◌, ◌↔◌, arith, ◌==◌,
  any, all, All, map, length, ltb, leb, filterb, Bool-cases, Option-cases, inl, inr, append_assoc,
  append-nil, drop, take, or_else, max, min, length-append,
}
use vibesurfer.Text.{Text, codes, text_eq, text_lt, split_once}
use vibesurfer.Table.{get, put, remove, write}
use vibesurfer.Protocol.Tree.Nodes.{Forest, Node}
use vibesurfer.Protocol.Envelope.Token.{StateToken, display, from_str}
use vibesurfer.Protocol.Envelope.{Warning}
use vibesurfer.Daemon.Error.{stale}
use vibesurfer.Daemon.Fallible.{ok, err, pure, ◌>>=◌, ◌>>◌}
use vibesurfer.Daemon.Engine.{
  PageHandle, InputMode, EngineCall, ConsoleEntry, WaitCondition, opens, closes, navigates,
  snapshots, views, acts, waits,
}
use vibesurfer.Daemon.PageState.{ViewForm, no_change, apply_snapshot, find_node}
use vibesurfer.Daemon.Store.{idempotency_ttl_secs}
use vibesurfer.Daemon.Store.Actions.{lookup_idempotent}
use vibesurfer.Daemon.World.{
  Env, D, Sessions, on_store, on_engine, on_store_now, find_page, with_page, mutate_lock_for,
  current_token, engine_handle_for, zero_token,
}
use vibesurfer.Daemon.Audit.{
  AuditCtx, new_ctx, with_args, with_page_id, with_before, with_group, Body, lift, note, note_after,
  audit_call,
}
use vibesurfer.Daemon.Lifecycle.Pages.{save_token}
use vibesurfer.Protocol.Codes.{idempotent_hit, hidden_target}
use vibesurfer.Text.Decimal
use vibesurfer.Daemon.Engine
use vibesurfer.Daemon.Store.{Action}
use vibesurfer.Protocol.Envelope.Token
use vibesurfer.Protocol.Error
use vibesurfer.Daemon.PageOps.{attr}

pub record ActCall : Type 0 where
  pub session_id : Text
  pub page_id : Text
  pub target : ℕ
  pub action : Engine.Action
  pub before_token : StateToken
  pub args_hash : Text
  pub args_redacted : Text
  pub mode : InputMode
  pub group_label : Option Text

pub record ActResponse : Type 0 where
  pub token : StateToken
  pub form : ViewForm
  pub warnings : List Warning

abbrev pub is_hidden : Option Node → Bool
is_hidden none = false
is_hidden (some n) = elim (attr n.attrs (codes "hid")) [
  | none ↦ false
  | some v ↦ text_eq v (codes "1")
]

-- The look at the target in the last tree of the page.
unfoldable pub target_hidden : Text → Text → ℕ → Sessions → Bool
target_hidden sid pid r ss = elim (find_page sid pid ss) [
  | ok p ↦ is_hidden (find_node p r)
  | err e ↦ false
]

abbrev pub hidden_warnings : Bool → ℕ → List Warning
hidden_warnings hidden r =
    if hidden
    then record { code = hidden_target; args = (codes "ref=" ++ Decimal.display r) ∷ [] } ∷ []
    else []

abbrev pub parsed_or_zero : Option Text → StateToken
parsed_or_zero none = zero_token
parsed_or_zero (some s) = elim (Token.from_str s) [ Error.ok t ↦ t | Error.err e ↦ zero_token ]

module _ (env : Env) where
  unfoldable pub engine_act : PageHandle → ℕ → Engine.Action → InputMode → D Forest
  engine_act h r action mode w =
      on_engine (acts h r action mode) (env.engine.on_act w.calls h r action mode) w

  unfoldable pub idem_response : Action → Body ActResponse
  idem_response cached = do
    let token = parsed_or_zero cached.insert.after_token
    note (λ c. record c {
      idempotency_hit = true;
      after_token = some token;
      result_summary = some (codes "idem");
    })
    pure (record {
      token = token;
      form = no_change;
      warnings = record { code = idempotent_hit; args = [] } ∷ [];
    })

  unfoldable pub perform : ActCall → PageHandle → Body ActResponse
  perform call h = do
    hidden ← lift (λ w. (ok (target_hidden call.session_id call.page_id call.target w.sessions), w))
    tree ← lift (engine_act h call.target call.action call.mode)
    seen ← lift (with_page call.session_id call.page_id (λ p. apply_snapshot env.token_of p tree))
    note_after seen.0
    lift (save_token env call.page_id seen.0)
    pure (record { token = seen.0; form = seen.1; warnings = hidden_warnings hidden call.target })

  abbrev pub cached_or_perform : ActCall → PageHandle → Option Action → Body ActResponse
  cached_or_perform call h (some cached) = idem_response cached
  cached_or_perform call h none = perform call h

  abbrev pub expect_token : StateToken → StateToken → D (Unit {0})
  expect_token current before w =
      if text_eq current before then (ok tt, w) else (err (stale current (codes "mutate")), w)

  unfoldable pub act_body : ActCall → Body ActResponse
  act_body call = do
    lift (mutate_lock_for call.session_id call.page_id)
    h ← lift (engine_handle_for env call.session_id call.page_id)
    current ← lift (current_token call.session_id call.page_id)
    lift (expect_token current call.before_token)
    cached ← lift (
        on_store_now env (λ now.
          lookup_idempotent call.page_id (display call.before_token) call.args_hash now
            idempotency_ttl_secs))
    cached_or_perform call h cached

  unfoldable pub act_ctx : ActCall → AuditCtx
  act_ctx call = with_group call.group_label (
      with_before call.before_token (
        with_args call.args_redacted call.args_hash
          (with_page_id call.page_id (new_ctx (codes "vs_act") call.session_id))))

  unfoldable pub act : ActCall → D ActResponse
  act call = audit_call (act_ctx call) (act_body call)

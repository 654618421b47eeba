-- ===== src/Daemon/Audit.antt =====
-- crates/vs-daemon/src/daemon/audit.rs, and `audit_call` of daemon/mod.rs: the row that every
-- primitive leaves in the log, whatever its outcome.
pub mod Log
use vibesurfer.Prelude.{
  ℕ, ◌-◌, ◌^◌, Bool, false, [], Option, none, some, min, zero, suc, ◌+◌, ◌*◌, ◌/◌, ◌%◌, ◌<◌, ◌≤◌,
  true, not, ◌&&◌, ◌||◌, List, ◌∷◌, ◌++◌, ◌≡◌, refl, sym, ap, ◌∙◌, ◌≢◌, ◌↔◌, arith, ◌==◌, any, all,
  All, map, length, if◌then◌else◌, ltb, leb, filterb, Bool-cases, Option-cases, inl, inr,
  append_assoc, append-nil, drop, take, or_else, max, length-append,
}
use vibesurfer.Text.{Text, codes, text_eq, text_lt, split_once}
use vibesurfer.Table.{get, put, remove, write}
use vibesurfer.Protocol.Codes.{error_str}
use vibesurfer.Protocol.Envelope.Token.{StateToken, display}
use vibesurfer.Daemon.Error.{DaemonError, wire_code, millis}
use vibesurfer.Daemon.Fallible.{Outcome, ok, err, M}
use vibesurfer.Daemon.Store.{ActionInsert}
use vibesurfer.Daemon.Store.Actions.{record_action}
use vibesurfer.Daemon.World.{World, D, on_store}

pub record AuditCtx : Type 0 where
  pub primitive : Text
  pub session_id : Text
  pub page_id : Option Text
  pub args_redacted : Text
  pub args_hash : Text
  pub before_token : Option StateToken
  pub after_token : Option StateToken
  pub idempotency_hit : Bool
  pub result_summary : Option Text
  pub group_label : Option Text

unfoldable pub new_ctx : Text → Text → AuditCtx
new_ctx primitive session_id = record {
  primitive = primitive;
  session_id = session_id;
  page_id = none;
  args_redacted = [];
  args_hash = [];
  before_token = none;
  after_token = none;
  idempotency_hit = false;
  result_summary = none;
  group_label = none;
}

unfoldable pub with_args : Text → Text → AuditCtx → AuditCtx
with_args redacted hash c = record c { args_redacted = redacted; args_hash = hash }

unfoldable pub with_page_id : Text → AuditCtx → AuditCtx
with_page_id pid c = record c { page_id = some pid }

unfoldable pub with_before : StateToken → AuditCtx → AuditCtx
with_before t c = record c { before_token = some t }

unfoldable pub with_group : Option Text → AuditCtx → AuditCtx
with_group g c = record c { group_label = g }

-- A body of a primitive: it also changes the row that is to be written.
pub record Running : Type 0 where
  pub world : World
  pub ctx : AuditCtx

abbrev pub Body : Type 0 → Type 0
Body A = M Running DaemonError A

-- A step on the daemon's state in a body.
unfoldable pub lift : {A : Type 0} → D A → Body A
lift m s = let (r, w) = m s.world in (r, record s { world = w })

unfoldable pub note : (AuditCtx → AuditCtx) → Body (Unit {0})
note f s = (ok tt, record s { ctx = f s.ctx })

abbrev pub note_after : StateToken → Body (Unit {0})
note_after t = note (λ c. record c { after_token = some t })

abbrev pub i64_max : ℕ
i64_max = 2 ^ 63 - 1

abbrev pub shown : Option StateToken → Option Text
shown none = none
shown (some t) = some (display t)

unfoldable pub audit_row : AuditCtx → ℕ → ℕ → Option Text → ActionInsert
audit_row c latency now error_code = record {
  session_id = c.session_id;
  page_id = c.page_id;
  primitive = c.primitive;
  args_redacted = c.args_redacted;
  args_hash = c.args_hash;
  before_token = shown c.before_token;
  after_token = shown c.after_token;
  idempotency_hit = c.idempotency_hit;
  result_summary = c.result_summary;
  latency_ms = min (millis latency) i64_max;
  group_label = c.group_label;
  started_at = now;
  finished_at = now;
  error_code = error_code;
}

unfoldable pub audit_from_ctx : AuditCtx → ℕ → Option Text → D ℕ
audit_from_ctx c latency error_code w =
    on_store (record_action (audit_row c latency w.epoch error_code)) w

abbrev pub error_of : {A : Type 0} → Outcome DaemonError A → Option Text
error_of (ok a) = none
error_of (err e) = some (error_str (wire_code e))

-- The result of the body, unless the row could not be written.
abbrev pub unless_lost :
    {A : Type 0}
    → Outcome DaemonError A
    → Outcome DaemonError ℕ × World
    → Outcome DaemonError A × World
unless_lost r (ok id, w) = (r, w)
unless_lost r (err e, w) = (err e, w)

abbrev pub finish :
    {A : Type 0} → ℕ → Outcome DaemonError A × Running → Outcome DaemonError A × World
finish started (r, s) =
    unless_lost r (audit_from_ctx s.ctx (s.world.instant - started) (error_of r) s.world)

unfoldable pub audit_call : {A : Type 0} → AuditCtx → Body A → D A
audit_call ctx body w = finish w.instant (body (record { world = w; ctx = ctx }))

-- ===== src/Daemon/PageOps/Act/Repeated.antt =====
-- An `act` that the log answers.
use vibesurfer.Prelude.{true, [], ◌∷◌, Option, some, ltb, filterb}
use vibesurfer.Text.{codes}
use vibesurfer.Protocol.Codes.{idempotent_hit}
use vibesurfer.Protocol.Envelope.Token.{display}
use vibesurfer.Daemon.PageState.{PageState, no_change}
use vibesurfer.Daemon.Store.{Action, idempotency_ttl_secs, first}
use vibesurfer.Daemon.Store.Actions.{is_repeat}
use vibesurfer.Daemon.World.{World, Env}
use vibesurfer.Daemon.Audit.{AuditCtx}
use vibesurfer.Daemon.PageOps.Act.{ActCall, ActResponse, act_ctx, parsed_or_zero}
use vibesurfer.Daemon.Pending.{sort}

-- The newest row of the log that the call repeats.
abbrev pub latest : ActCall → World → Option Action
latest call w = first (
    sort (λ a b. ltb b.insert.started_at a.insert.started_at)
      (filterb
        (is_repeat call.page_id (display call.before_token) call.args_hash w.epoch
          idempotency_ttl_secs)
        w.store.actions))

-- The answer from the log.
abbrev pub hit : Env → Action → ActResponse
hit env cached = record {
  token = parsed_or_zero cached.insert.after_token;
  form = no_change;
  warnings = record { code = idempotent_hit; args = [] } ∷ [];
}

abbrev pub hit_ctx : Env → ActCall → Action → AuditCtx
hit_ctx env call cached = record (act_ctx env call) {
  idempotency_hit = true;
  after_token = some (parsed_or_zero cached.insert.after_token);
  result_summary = some (codes "idem");
}

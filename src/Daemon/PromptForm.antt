-- ===== src/Daemon/PromptForm.antt =====
-- `prompt_form_wait` of crates/vs-daemon/src/daemon/mod.rs, from the values that the wait on the
-- queue gives: each is filled into its field by `act`, and the form goes back into the queue when a
-- fill fails.
use vibesurfer.Prelude.{ℕ, List, [], ◌∷◌, ◌++◌, Option, none, some}
use vibesurfer.Text.{Text, codes}
use vibesurfer.Protocol.Envelope.Token.{StateToken}
use vibesurfer.Daemon.Error.{DaemonError, bad}
use vibesurfer.Daemon.Fallible.{Outcome, ok, err}
use vibesurfer.Daemon.World.{World, Env, D, current_token, zero_token}
use vibesurfer.Daemon.Lifecycle.{hash_of}
use vibesurfer.Daemon.Engine.{fill, careful}
use vibesurfer.Daemon.Error.{form_pending, millis}
use vibesurfer.Daemon.Pending.{
  Queue, PendingEntry, FormWait, ready, still_pending, cancelled_form, unknown, Filled, restore,
}
use vibesurfer.Daemon.PageOps.Act.{ActCall, act}

-- The daemon with its queue of pending inputs.
pub record Desk : Type 0 where
  pub world : World
  pub queue : Queue

abbrev pub text_cancelled : Text → Text
text_cancelled form = codes "vs_prompt_form: form " ++ form ++ codes " was cancelled"

abbrev pub text_unknown : Text → Text
text_unknown form =
    codes "vs_prompt_form: form "
    ++ form
    ++ codes " unknown: already collected by an earlier wait, or expired. Enqueue a new form."

module _ (env : Env) where
  unfoldable pub fill_call : Text → PendingEntry → Text → StateToken → ActCall
  fill_call sid entry value before = record {
    session_id = sid;
    page_id = entry.page;
    target = entry.r;
    action = fill value;
    before_token = before;
    args_hash = hash_of env (codes "vs_act") (codes "fill" ∷ codes "***" ∷ []);
    args_redacted = codes "fill ***";
    mode = careful;
    group_label = entry.group;
  }

  abbrev pub or_zero : Outcome DaemonError StateToken × World → StateToken × World
  or_zero (ok t, w) = (t, w)
  or_zero (err e, w) = (zero_token, w)

  -- The token that the fill of a field is sequenced after.
  abbrev pub before_fill : Text → PendingEntry → Option StateToken → World → StateToken × World
  before_fill sid entry (some t) w = (t, w)
  before_fill sid entry none w = or_zero (current_token sid entry.page w)

  abbrev pub last_or : Option StateToken → Outcome DaemonError StateToken
  last_or none = err (bad (codes "vs_prompt_form: empty form"))
  last_or (some t) = ok t

  unfoldable pub fill_fields : Text → List Filled → Option StateToken → D StateToken
  fill_fields sid [] token w = (last_or token, w)
  fill_fields sid ((entry, value) ∷ rest) token w =
      let (before, u) = before_fill sid entry token w in
      let (r, v) = act env (fill_call sid entry value before) u in
      elim r [ ok resp ↦ fill_fields sid rest (some resp.token) v | err e ↦ (err e, v) ]

  abbrev pub settle :
      List Filled
      → Queue
      → Outcome DaemonError StateToken × World
      → Outcome DaemonError StateToken × Desk
  settle held q (ok t, w) = (ok t, record { world = w; queue = q })
  settle held q (err e, w) = (err e, record { world = w; queue = restore held q })

  -- What follows the wait for the form.
  unfoldable pub prompt_form_wait :
      Text → Text → ℕ → FormWait → Desk → Outcome DaemonError StateToken × Desk
  prompt_form_wait sid form timeout (ready values) d =
      settle values d.queue (fill_fields sid values none d.world)
  prompt_form_wait sid form timeout still_pending d = (err (form_pending form (millis timeout)), d)
  prompt_form_wait sid form timeout cancelled_form d = (err (bad (text_cancelled form)), d)
  prompt_form_wait sid form timeout unknown d = (err (bad (text_unknown form)), d)

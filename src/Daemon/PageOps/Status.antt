-- ===== src/Daemon/PageOps/Status.antt =====
-- `status` of crates/vs-daemon/src/daemon/page_ops.rs. The version of the package comes from its
-- build file and is a parameter.
use vibesurfer.Prelude.{ℕ, ◌+◌, ◌-◌, ◌/◌, ◌^◌, List, [], ◌∷◌, ◌++◌, Option, none, some, map, length}
use vibesurfer.Text.{Text, codes}
use vibesurfer.Protocol.Envelope.Token.{StateToken, display}
use vibesurfer.Daemon.Fallible.{ok, pure, ◌>>=◌, then_try}
use vibesurfer.Daemon.Engine.{PageHandle}
use vibesurfer.Daemon.PageState.{PageState}
use vibesurfer.Daemon.World.{Env, D, SessionState, Sessions, find_session}
use vibesurfer.Daemon.Audit.{new_ctx, with_args, lift, audit_call}
use vibesurfer.Daemon.Lifecycle.{hash_of}
use vibesurfer.Text.Decimal
use vibesurfer.Daemon.PageOps.Wait.{live_pages, StatusResponse}

-- `Duration::as_secs` of the time since an instant.
unfoldable pub idle_secs : ℕ → ℕ → ℕ
idle_secs now at = (now - at) / 10 ^ 9

abbrev pub token_text : Option StateToken → Text
token_text none = []
token_text (some t) = display t

abbrev pub is_live_digit : Option PageHandle → Text
is_live_digit none = codes "0"
is_live_digit (some h) = codes "1"

unfoldable pub page_line : ℕ → Text × PageState → Text
page_line now (pid, p) =
    codes "page\t"
    ++ pid
    ++ codes "\turl="
    ++ p.url
    ++ codes "\ttoken="
    ++ token_text p.last_token
    ++ codes "\tlive="
    ++ is_live_digit p.engine_handle
    ++ codes "\tidle="
    ++ Decimal.display (idle_secs now p.last_touched)
    ++ codes "s\n"

unfoldable pub concat : List Text → Text
concat [] = []
concat (part ∷ parts) = part ++ concat parts

abbrev pub counts_text : SessionState → Text
counts_text s =
    codes "\tpages="
    ++ Decimal.display (length s.pages)
    ++ codes "\tlive="
    ++ Decimal.display (live_pages s)

unfoldable pub session_line : ℕ → Text × SessionState → Text
session_line now (sid, s) =
    codes "session\t"
    ++ sid
    ++ counts_text s
    ++ codes "\tidle="
    ++ Decimal.display (idle_secs now s.last_touched)
    ++ codes "s\n"

unfoldable pub total : (SessionState → ℕ) → Sessions → ℕ
total f [] = 0
total f ((sid, s) ∷ ss) = f s + total f ss

unfoldable pub session_status : Text → ℕ → SessionState → Text
session_status sid now s =
    codes "session\t" ++ sid ++ counts_text s ++ (b'\n' ∷ concat (map (page_line now) s.pages))

unfoldable pub workspace_status : ℕ → Sessions → Text
workspace_status now ss =
    codes "workspace\tsessions="
    ++ Decimal.display (length ss)
    ++ codes "\tpages="
    ++ Decimal.display (total (λ s. length s.pages) ss)
    ++ codes "\tlive="
    ++ Decimal.display (total live_pages ss)
    ++ (b'\n' ∷ concat (map (session_line now) ss))

module _ (version : Text) where
  unfoldable pub identity_line : Text
  identity_line =
      codes "daemon\tversion=" ++ version ++ codes "\tproto=1\tflags=actDeltas,clickVia\n"

  unfoldable pub render_status : Option Text → D Text
  render_status none w = (ok (identity_line ++ workspace_status w.instant w.sessions), w)
  render_status (some sid) w = (
    then_try (find_session sid w.sessions)
        (λ s. ok (identity_line ++ session_status sid w.instant s)),
    w,
  )

  abbrev pub sid_or_none : Option Text → Text
  sid_or_none none = codes "(none)"
  sid_or_none (some sid) = sid

  abbrev pub status_body : Option Text → D StatusResponse
  status_body sid = do body ← render_status sid; pure (record { body = body })

  unfoldable pub status : Env → Option Text → D StatusResponse
  status env sid =
      audit_call
        (with_args [] (hash_of env (codes "vs_status") [])
          (new_ctx (codes "vs_status") (sid_or_none sid)))
        (lift (status_body sid))

-- ===== src/Daemon/Error.antt =====
-- crates/vs-daemon/src/error.rs, with `EngineError` of crates/vs-engine-webkit/src/engine.rs and
-- `StoreError` of crates/vs-store/src/error.rs. The texts of SQLite, of the file system and of
-- `anyhow` are data, and so is the `Display` of a parse error.
use vibesurfer.Prelude.{ℕ, ◌/◌, ◌^◌, List, [], ◌∷◌, ◌++◌}
use vibesurfer.Text.{Text, codes}
use vibesurfer.Text.Decimal
use vibesurfer.Protocol.Error.{ParseError}
use vibesurfer.Protocol.Codes.{
  ErrorCode, stale_token, engine_unsupported, timeout, not_found, wrong_session, engine_crash,
  bad_request,
}
use vibesurfer.Protocol.Envelope.Token.{StateToken, display}

pub data EngineError : Type 0 where
  unsupported_engine : Text → Text → EngineError
  timed_out : ℕ → Text → Text → EngineError
  missing : Text → Text → EngineError
  crashed closed_engine : EngineError
  not_implemented : Text → Text → EngineError
  other_engine : Text → EngineError

pub data StoreError : Type 0 where
  sqlite io_store crypto keyring : Text → StoreError
  absent : Text → Text → StoreError
  conflict invalid : Text → StoreError
  key_file_format : ℕ → StoreError

pub data DaemonError : Type 0 where
  protocol : ParseError → DaemonError
  store : StoreError → DaemonError
  engine : EngineError → DaemonError
  io other : Text → DaemonError
  stale : StateToken → Text → DaemonError
  no_session : DaemonError
  unknown_session unknown_page : Text → DaemonError
  wrong_session_of : Text → Text → Text → DaemonError
  unknown_ref : ℕ → DaemonError
  unknown_mark bad : Text → DaemonError
  form_pending : Text → ℕ → DaemonError
  unsupported : Text → Text → DaemonError

-- `as_millis` of a number of nanoseconds.
unfoldable pub millis : ℕ → ℕ
millis ns = ns / 10 ^ 6

-- A variant of `EngineError` that has no code of its own, by its text.
unfoldable pub plain : Text → List Text
plain message = (codes "engine: engine: " ++ message) ∷ []

unfoldable pub show_store : StoreError → Text
show_store (sqlite message) = codes "sqlite: " ++ message
show_store (io_store message) = codes "io: " ++ message
show_store (crypto message) = codes "crypto: " ++ message
show_store (keyring message) = codes "keyring: " ++ message
show_store (absent kind id) = codes "not found: " ++ kind ++ codes " " ++ id
show_store (conflict message) = codes "conflict: " ++ message
show_store (invalid message) = codes "invalid input: " ++ message
show_store (key_file_format n) =
    codes "master key file is not a 32-byte key: got "
    ++ Decimal.display n
    ++ codes
        " bytes; accepted formats are 32 raw bytes, 64 hex chars, or base64 of 32 bytes (trailing newline ok)"

unfoldable pub engine_code : EngineError → ErrorCode
engine_code (unsupported_engine name primitive) = engine_unsupported
engine_code (timed_out budget primitive detail) = timeout
engine_code (missing kind id) = not_found
engine_code crashed = engine_crash
engine_code _ = bad_request

unfoldable pub engine_args : EngineError → List Text
engine_args (unsupported_engine name primitive) = primitive ∷ name ∷ []
engine_args (timed_out budget primitive []) =
    (Decimal.display (millis budget) ++ codes "ms") ∷ primitive ∷ []
engine_args (timed_out budget primitive (c ∷ detail)) =
    (Decimal.display (millis budget) ++ codes "ms") ∷ primitive ∷ (c ∷ detail) ∷ []
engine_args (missing kind id) = (kind ++ codes "=" ++ id) ∷ []
engine_args crashed = []
engine_args closed_engine = plain (codes "engine has shut down")
engine_args (not_implemented name primitive) =
    plain (codes "engine `" ++ name ++ codes "` has not implemented `" ++ primitive ++ codes "`")
engine_args (other_engine message) = plain message

-- The first part of `wire`.
unfoldable pub wire_code : DaemonError → ErrorCode
wire_code (stale current reason) = stale_token
wire_code no_session = bad_request
wire_code (unknown_session id) = not_found
wire_code (unknown_page id) = not_found
wire_code (wrong_session_of page addressed page_session) = wrong_session
wire_code (unknown_ref r) = not_found
wire_code (unknown_mark name) = not_found
wire_code (bad message) = bad_request
wire_code (form_pending form budget) = timeout
wire_code (unsupported name primitive) = engine_unsupported
wire_code (engine e) = engine_code e
wire_code (protocol e) = bad_request
wire_code (store e) = bad_request
wire_code (io message) = bad_request
wire_code (other message) = bad_request

module _ (show_parse : ParseError → Text) where
  -- The second part of `wire`.
  unfoldable pub wire_args : DaemonError → List Text
  wire_args (stale current reason) = display current ∷ reason ∷ []
  wire_args no_session = codes "no_session" ∷ []
  wire_args (unknown_session id) = (codes "session=" ++ id) ∷ []
  wire_args (unknown_page id) = (codes "page=" ++ id) ∷ []
  wire_args (wrong_session_of page addressed page_session) =
      (codes "page=" ++ page)
      ∷ (codes "addressed=" ++ addressed)
      ∷ (codes "page_session=" ++ page_session)
      ∷ []
  wire_args (unknown_ref r) = (codes "ref=" ++ Decimal.display r) ∷ []
  wire_args (unknown_mark name) = (codes "mark=" ++ name) ∷ []
  wire_args (bad message) = message ∷ []
  wire_args (form_pending form budget) =
      (Decimal.display budget ++ codes "ms")
      ∷ codes "vs_prompt_form_wait"
      ∷ (codes "form "
          ++ form
          ++ codes
              " still waiting on the human; the form and its URL are live, call vs_prompt_form_wait again with the same form id")
      ∷ []
  wire_args (unsupported name primitive) = primitive ∷ name ∷ []
  wire_args (engine e) = engine_args e
  wire_args (protocol e) = (codes "protocol parse: " ++ show_parse e) ∷ []
  wire_args (store e) = (codes "store: " ++ show_store e) ∷ []
  wire_args (io message) = (codes "io: " ++ message) ∷ []
  wire_args (other message) = (codes "anyhow: " ++ message) ∷ []

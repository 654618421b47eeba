-- ===== src/Protocol/Codes.antt =====
-- crates/vs-protocol/src/codes.rs. The macro `code_enum` is the record `CodeEnum` with the function
-- `from_str` over it; its four uses are the four data types below.
pub mod RoundTrip
use vibesurfer.Prelude.{ℕ, List, [], ◌∷◌, Bool, true, false, String, if◌then◌else◌, ◌==◌, ltb}
use vibesurfer.Text.{Text, codes, text_eq}
use vibesurfer.Protocol.Error.{Result, ok, err, unknown_code}

pub record CodeEnum (A : Type 0) : Type 0 where
  pub kind : String
  pub as_str : A → Text
  pub variants : List A

-- The arms of the `match` in `from_str`, first to last.
unfoldable pub match_arms : {A : Type 0} → (A → Text) → List A → String → Text → Result A
match_arms as_str [] kind s = err (unknown_code (record { kind = kind; value = s }))
match_arms as_str (a ∷ rest) kind s =
    if text_eq s (as_str a) then ok a else match_arms as_str rest kind s

unfoldable pub from_str : {A : Type 0} → CodeEnum A → Text → Result A
unfolding match_arms
from_str e s = match_arms e.as_str e.variants e.kind s

pub data Role : Type 0 where
  doc btn lnk tf ta sel chk rad img hd p li lst tbl row cell hdr nav frm dlg itm sec art : Role
  mn ifr el : Role

unfoldable pub role_str : Role → Text
role_str doc = codes "doc"
role_str btn = codes "btn"
role_str lnk = codes "lnk"
role_str tf = codes "tf"
role_str ta = codes "ta"
role_str sel = codes "sel"
role_str chk = codes "chk"
role_str rad = codes "rad"
role_str img = codes "img"
role_str hd = codes "hd"
role_str p = codes "p"
role_str li = codes "li"
role_str lst = codes "lst"
role_str tbl = codes "tbl"
role_str row = codes "row"
role_str cell = codes "cell"
role_str hdr = codes "hdr"
role_str nav = codes "nav"
role_str frm = codes "frm"
role_str dlg = codes "dlg"
role_str itm = codes "itm"
role_str sec = codes "sec"
role_str art = codes "art"
role_str mn = codes "mn"
role_str ifr = codes "ifr"
role_str el = codes "el"

abbrev pub role_code : CodeEnum Role
role_code = record {
  kind = "role";
  as_str = role_str;
  variants =
      doc ∷ btn ∷ lnk ∷ tf ∷ ta ∷ sel ∷ chk ∷ rad ∷ img ∷ hd ∷ p ∷ li ∷ lst ∷ tbl ∷ row ∷ cell ∷ hdr
      ∷ nav ∷ frm ∷ dlg ∷ itm ∷ sec ∷ art ∷ mn ∷ ifr ∷ el ∷ [];
}

pub data Op : Type 0 where
  click fill scroll key submit hover focus : Op

unfoldable pub op_str : Op → Text
op_str click = codes "click"
op_str fill = codes "fill"
op_str scroll = codes "scroll"
op_str key = codes "key"
op_str submit = codes "submit"
op_str hover = codes "hover"
op_str focus = codes "focus"

abbrev pub op_code : CodeEnum Op
op_code = record {
  kind = "op";
  as_str = op_str;
  variants = click ∷ fill ∷ scroll ∷ key ∷ submit ∷ hover ∷ focus ∷ [];
}

-- The derived order: that of the declaration.
unfoldable pub op_rank : Op → ℕ
op_rank click = 0
op_rank fill = 1
op_rank scroll = 2
op_rank key = 3
op_rank submit = 4
op_rank hover = 5
op_rank focus = 6

pub data ErrorCode : Type 0 where
  stale_token engine_unsupported policy_deny timeout not_found wrong_session : ErrorCode
  confirm_required daemon_start_failed engine_crash bad_request unknown_kind : ErrorCode
  eval_error eval_syntax : ErrorCode

unfoldable pub error_str : ErrorCode → Text
error_str stale_token = codes "STALE_TOKEN"
error_str engine_unsupported = codes "ENGINE_UNSUPPORTED"
error_str policy_deny = codes "POLICY_DENY"
error_str timeout = codes "TIMEOUT"
error_str not_found = codes "NOT_FOUND"
error_str wrong_session = codes "WRONG_SESSION"
error_str confirm_required = codes "CONFIRM_REQUIRED"
error_str daemon_start_failed = codes "DAEMON_START_FAILED"
error_str engine_crash = codes "ENGINE_CRASH"
error_str bad_request = codes "BAD_REQUEST"
error_str unknown_kind = codes "UNKNOWN_KIND"
error_str eval_error = codes "EVAL_ERROR"
error_str eval_syntax = codes "EVAL_SYNTAX"

abbrev pub error_code : CodeEnum ErrorCode
error_code = record {
  kind = "error";
  as_str = error_str;
  variants =
      stale_token ∷ engine_unsupported ∷ policy_deny ∷ timeout ∷ not_found ∷ wrong_session
      ∷ confirm_required ∷ daemon_start_failed ∷ engine_crash ∷ bad_request ∷ unknown_kind
      ∷ eval_error ∷ eval_syntax ∷ [];
}

pub data WarningCode : Type 0 where
  nav captcha_visible auth_loaded viewport_changed idempotent_hit : WarningCode
  console_error hidden_target mark_reaimed storage_partial : WarningCode

unfoldable pub warning_str : WarningCode → Text
warning_str nav = codes "nav"
warning_str captcha_visible = codes "captcha_visible"
warning_str auth_loaded = codes "auth_loaded"
warning_str viewport_changed = codes "viewport_changed"
warning_str idempotent_hit = codes "idempotent_hit"
warning_str console_error = codes "console_error"
warning_str hidden_target = codes "hidden_target"
warning_str mark_reaimed = codes "mark_reaimed"
warning_str storage_partial = codes "storage_partial"

abbrev pub warning_code : CodeEnum WarningCode
warning_code = record {
  kind = "warning";
  as_str = warning_str;
  variants =
      nav ∷ captcha_visible ∷ auth_loaded ∷ viewport_changed ∷ idempotent_hit ∷ console_error
      ∷ hidden_target ∷ mark_reaimed ∷ storage_partial ∷ [];
}

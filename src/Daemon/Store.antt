-- ===== src/Daemon/Store.antt =====
-- crates/vs-store/src/store: sessions.rs, pages.rs and actions.rs, with the rows of types.rs. A
-- statement of SQL is a function on the rows, in the order in which they were inserted; each
-- statement takes its fate from the schedule `faults`, where a text is the error of SQLite. The
-- primary keys of sessions and pages and the reference of a page to its session are checked.
pub mod Laws
pub mod Sessions
pub mod Pages
pub mod Actions
use vibesurfer.Prelude.{
  ℕ, zero, suc, ◌+◌, ◌-◌, ◌*◌, ◌/◌, ◌%◌, ◌^◌, ◌<◌, ◌≤◌, Bool, true, false, not, ◌&&◌, ◌||◌, List,
  [], ◌∷◌, ◌++◌, Option, none, some, ◌≡◌, refl, sym, ap, ◌∙◌, ◌≢◌, ◌↔◌, arith, ◌==◌, any, all, All,
  map, length, if◌then◌else◌, ltb, leb, filterb, or_else, Bool-cases, Option-cases, inl, inr,
  append_assoc, append-nil, max, min, length-append, drop, take,
}
use vibesurfer.Text.{Text, codes, text_eq, text_lt, split_once}
use vibesurfer.Table.{get, put, remove, write}
use vibesurfer.Daemon.Error.{StoreError, sqlite, absent}
use vibesurfer.Daemon.Fallible.{Outcome, ok, err, M, pure, fail, give, ◌>>=◌, ◌>>◌, ok_or}
use vibesurfer.Daemon.Pending.{sort}

pub data SessionStatus : Type 0 where
  opened closed : SessionStatus

pub record Session : Type 0 where
  pub id : Text
  pub created_at : ℕ
  pub policy_id : Option Text
  pub status : SessionStatus
  pub closed_at : Option ℕ

pub record Page : Type 0 where
  pub id : Text
  pub session_id : Text
  pub url : Text
  pub title : Option Text
  pub last_token : Option Text
  pub last_dom_hash : Option Text
  pub last_seen_at : ℕ
  pub closed_at : Option ℕ

pub record ActionInsert : Type 0 where
  pub session_id : Text
  pub page_id : Option Text
  pub primitive : Text
  pub args_redacted : Text
  pub args_hash : Text
  pub before_token : Option Text
  pub after_token : Option Text
  pub idempotency_hit : Bool
  pub result_summary : Option Text
  pub latency_ms : ℕ
  pub group_label : Option Text
  pub started_at : ℕ
  pub finished_at : ℕ
  pub error_code : Option Text

pub record Action : Type 0 where
  pub id : ℕ
  pub insert : ActionInsert

pub record ActionFilter : Type 0 where
  pub session_id : Option Text
  pub page_id : Option Text
  pub group_label : Option Text
  pub since_started_at : Option ℕ
  pub limit : Option ℕ

pub record Store : Type 0 where
  pub sessions : List Session
  pub pages : List Page
  pub actions : List Action
  pub faults : List (Option Text)

abbrev pub idempotency_ttl_secs : ℕ
idempotency_ttl_secs = 30

abbrev pub S : Type 0 → Type 0
S A = M Store StoreError A

abbrev pub fate : List (Option Text) → Store → Outcome StoreError (Unit {0}) × Store
fate [] s = (ok tt, record s { faults = [] })
fate (none ∷ faults) s = (ok tt, record s { faults = faults })
fate (some message ∷ faults) s = (err (sqlite message), record s { faults = faults })

unfoldable pub statement : S (Unit {0})
statement s = fate s.faults s

-- `UPDATE … WHERE`: the rows that pass the test are changed.
unfoldable pub update_rows : {A : Type 0} → (A → Bool) → (A → A) → List A → List A
update_rows p f rows = map (λ row. if p row then f row else row) rows

abbrev pub same_opt : Option Text → Text → Bool
same_opt none t = false
same_opt (some s) t = text_eq s t

abbrev pub is_none : {A : Type 0} → Option A → Bool
is_none none = true
is_none (some a) = false

abbrev pub is_opened : SessionStatus → Bool
is_opened opened = true
is_opened closed = false

abbrev pub first : {A : Type 0} → List A → Option A
first [] = none
first (a ∷ rest) = some a

abbrev pub check : Bool → StoreError → S (Unit {0})
check condition why s = if condition then (ok tt, s) else (err why, s)

abbrev pub has_session : Text → List Session → Bool
has_session id = any (λ row. text_eq row.id id)

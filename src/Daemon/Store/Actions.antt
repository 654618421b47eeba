-- ===== src/Daemon/Store/Actions.antt =====
-- crates/vs-store/src/store/actions.rs: the audit log, which is also the idempotency cache.
use vibesurfer.Prelude.{
  ℕ, ◌+◌, Bool, true, not, ◌&&◌, List, [], ◌∷◌, ◌++◌, Option, none, some, length, ltb, leb, filterb,
  take,
}
use vibesurfer.Text.{Text, text_eq}
use vibesurfer.Daemon.Fallible.{ok, ◌>>◌}
use vibesurfer.Daemon.Store.{
  ActionInsert, Action, ActionFilter, S, statement, same_opt, is_none, first,
}
use vibesurfer.Daemon.Pending.{sort}

-- `AUTOINCREMENT`: no row is ever deleted.
unfoldable pub record_action : ActionInsert → S ℕ
record_action insert = do
  statement
  λ s. (
    ok (length s.actions + 1),
    record s { actions = s.actions ++ record { id = length s.actions + 1; insert = insert } ∷ [] },
  )

-- The `WHERE` of `lookup_idempotent`.
unfoldable pub is_repeat : Text → Text → Text → ℕ → ℕ → Action → Bool
is_repeat page_id before_token args_hash now ttl a =
    same_opt a.insert.page_id page_id
    && same_opt a.insert.before_token before_token
    && text_eq a.insert.args_hash args_hash
    && is_none a.insert.error_code
    && not a.insert.idempotency_hit
    && leb now (a.insert.started_at + ttl)

unfoldable pub lookup_idempotent : Text → Text → Text → ℕ → ℕ → S (Option Action)
lookup_idempotent page_id before_token args_hash now ttl = do
  statement
  λ s. (
    ok (
        first (
          sort (λ a b. ltb b.insert.started_at a.insert.started_at)
            (filterb (is_repeat page_id before_token args_hash now ttl) s.actions))),
    s,
  )

abbrev pub wants : Option Text → Option Text → Bool
wants none value = true
wants (some wanted) value = same_opt value wanted

abbrev pub since : Option ℕ → ℕ → Bool
since none at = true
since (some from) at = leb from at

-- The `WHERE` of `list_actions`.
unfoldable pub passes : ActionFilter → Action → Bool
passes filter a =
    wants filter.session_id (some a.insert.session_id)
    && wants filter.page_id a.insert.page_id
    && wants filter.group_label a.insert.group_label
    && since filter.since_started_at a.insert.started_at

abbrev pub limited : {A : Type 0} → Option ℕ → List A → List A
limited none rows = rows
limited (some n) rows = take n rows

unfoldable pub list_actions : ActionFilter → S (List Action)
list_actions filter = do
  statement
  λ s. (
    ok (
        limited filter.limit (
          sort (λ a b. ltb a.insert.started_at b.insert.started_at)
            (filterb (passes filter) s.actions))),
    s,
  )

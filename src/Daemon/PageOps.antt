-- ===== src/Daemon/PageOps.antt =====
-- `view` and `read` of crates/vs-daemon/src/daemon/page_ops.rs, with the text of a subtree of
-- daemon/mod.rs.

pub mod Act
pub mod Wait
pub mod Status
use vibesurfer.Prelude.{
  ℕ, zero, suc, Bool, true, false, List, [], ◌∷◌, ◌++◌, Option, none, some, if◌then◌else◌, or_else,
  ◌+◌, ◌-◌, ◌*◌, ◌/◌, ◌%◌, ◌^◌, ◌<◌, ◌≤◌, not, ◌&&◌, ◌||◌, ◌≡◌, refl, sym, ap, ◌∙◌, ◌≢◌, ◌↔◌, arith,
  ◌==◌, any, all, All, map, length, ltb, leb, filterb, Bool-cases, Option-cases, inl, inr,
  append_assoc, append-nil, drop, take, max, min, length-append,
}
use vibesurfer.Text.{Text, codes, text_eq, split_once, text_lt}
use vibesurfer.Table.{get, put, remove, write}
use vibesurfer.Protocol.Tree.Nodes.{Forest, Node}
use vibesurfer.Protocol.Envelope.Token.{StateToken, display, from_str}
use vibesurfer.Protocol.Envelope.{Warning}
use vibesurfer.Daemon.Error.{DaemonError, unknown_ref, stale}
use vibesurfer.Daemon.Fallible.{Outcome, ok, err, pure, ◌>>=◌, ◌>>◌, ok_or, then_try}
use vibesurfer.Daemon.Engine.{
  PageHandle, InputMode, EngineCall, ConsoleEntry, WaitCondition, opens, closes, navigates,
  snapshots, views, acts, waits,
}
use vibesurfer.Daemon.PageState.{
  PageState, ViewForm, no_change, invalidate_baseline, apply_snapshot, find_node,
}
use vibesurfer.Daemon.Store.{Action, idempotency_ttl_secs}
use vibesurfer.Daemon.Store.Actions.{lookup_idempotent}
use vibesurfer.Daemon.World.{
  Env, D, Sessions, on_store, on_engine, on_store_now, find_page, with_page, mutate_lock_for,
  current_token, engine_handle_for, zero_token, token_or_zero,
}
use vibesurfer.Daemon.Audit.{
  AuditCtx, new_ctx, with_args, with_page_id, with_before, with_group, Body, lift, note, note_after,
  audit_call,
}
use vibesurfer.Daemon.Lifecycle.Pages.{save_token}
use vibesurfer.Daemon.Lifecycle.{hash_of}
use vibesurfer.Protocol.Codes.{idempotent_hit, hidden_target, captcha_visible, role_str}
use vibesurfer.Text.Decimal
use vibesurfer.Daemon.Engine
use vibesurfer.Protocol.Tree.Nodes.{Attr, nil, node}
use vibesurfer.Protocol.Envelope.Token
use vibesurfer.Protocol.Error

pub record ViewResponse : Type 0 where
  pub token : StateToken
  pub form : ViewForm
  pub warnings : List Warning
  pub console : List ConsoleEntry

pub record ReadResponse : Type 0 where
  pub token : StateToken
  pub body : Text

-- `attrs.get(key)`.
unfoldable pub attr : List Attr → Text → Option Text
attr [] key = none
attr ((k, v) ∷ rest) key = let later = attr rest key in if text_eq k key then some v else later

-- What the first challenge node of the tree is; `?` makes a value without a colon end the search in
-- its node, and `find_map` goes on to the next.
unfoldable pub first_challenge : Forest → Option (Text × Text)
first_challenge nil = none
first_challenge (node s children rest) =
    let later = first_challenge rest in
    elim (attr s.attrs (codes "challenge")) [
      | none ↦ or_else (first_challenge children) later
      | some v ↦ or_else (split_once b':' v) later
    ]

abbrev pub captcha_warnings : Option (Text × Text) → List Warning
captcha_warnings none = []
captcha_warnings (some (provider, state)) =
    if text_eq state (codes "solved")
    then []
    else record { code = captcha_visible; args = provider ∷ state ∷ [] } ∷ []

unfoldable pub pad : ℕ → Text
pad zero = []
pad (suc depth) = codes "  " ++ pad depth

unfoldable pub render_nodes : ℕ → Forest → Text
render_nodes depth nil = []
render_nodes depth (node s children rest) =
    pad depth
    ++ codes "["
    ++ Decimal.display s.r
    ++ codes "] "
    ++ role_str s.role
    ++ codes ": "
    ++ s.label
    ++ (b'\n' ∷ (render_nodes (suc depth) children ++ render_nodes depth rest))

unfoldable pub render_subtree_text : Node → Text
render_subtree_text n = render_nodes 0 (node n.shell n.children nil)

-- The view of a page after a snapshot, on which `--force-full` drops the baseline first.
unfoldable pub view_page :
    (Text → StateToken) → Bool → Forest → PageState → (StateToken × ViewForm) × PageState
view_page hash true tree p = apply_snapshot hash (invalidate_baseline p) tree
view_page hash false tree p = apply_snapshot hash p tree

module _ (env : Env) where
  unfoldable pub engine_view : PageHandle → D (Forest × List ConsoleEntry)
  engine_view h w = on_engine (views h) (env.engine.on_view w.calls h) w

  unfoldable pub view_body : Text → Text → Bool → Body ViewResponse
  view_body sid pid force_full = do
    h ← lift (engine_handle_for env sid pid)
    snapshot ← lift (engine_view h)
    seen ← lift (with_page sid pid (view_page env.token_of force_full snapshot.0))
    note_after seen.0
    lift (save_token env pid seen.0)
    pure (record {
      token = seen.0;
      form = seen.1;
      warnings = captcha_warnings (first_challenge snapshot.0);
      console = snapshot.1;
    })

  unfoldable pub view : Text → Text → Bool → D ViewResponse
  view sid pid force_full =
      audit_call
        (with_args [] (hash_of env (codes "vs_view") [])
          (with_page_id pid (new_ctx (codes "vs_view") sid)))
        (view_body sid pid force_full)

  abbrev pub read_of : ℕ → PageState → Outcome DaemonError (StateToken × Text)
  read_of r p =
      then_try (ok_or (find_node p r) (unknown_ref r))
        (λ n. ok (token_or_zero p.last_token, render_subtree_text n))

  unfoldable pub read_body : Text → Text → ℕ → Body ReadResponse
  read_body sid pid r = do
    found ← lift (λ w. (then_try (find_page sid pid w.sessions) (read_of r), w))
    note (λ c. record c { before_token = some found.0; after_token = some found.0 })
    pure (record { token = found.0; body = found.1 })

  unfoldable pub read : Text → Text → ℕ → D ReadResponse
  read sid pid r =
      let shown = Decimal.display r in
      audit_call
        (with_args shown (hash_of env (codes "vs_read") (shown ∷ []))
          (with_page_id pid (new_ctx (codes "vs_read") sid)))
        (read_body sid pid r)

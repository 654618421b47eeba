-- ===== src/Daemon/PageOps/Act/Performed.antt =====
-- An `act` that reaches the engine, and the same call made again.
use vibesurfer.Daemon.Store.Laws.{lookup_idempotent-none}
use vibesurfer.Prelude.{true, [], some, ◌≡◌, refl, any, drop, ◌∷◌, filterb}
use vibesurfer.Text.{Text, codes, text_eq}
use vibesurfer.Daemon.World.{on_engine, on_store}
use vibesurfer.Daemon.Audit.{note, lift, AuditCtx}
use vibesurfer.Daemon.World.{set_page}
use vibesurfer.Protocol.Tree.Nodes.{Forest}
use vibesurfer.Protocol.Envelope.Token.{StateToken, display}
use vibesurfer.Daemon.Fallible.{ok}
use vibesurfer.Daemon.Engine.{PageHandle, acts}
use vibesurfer.Daemon.PageState.{PageState, ViewForm, apply_snapshot}
use vibesurfer.Daemon.Store.{Store, idempotency_ttl_secs}
use vibesurfer.Daemon.Store.Actions.{is_repeat}
use vibesurfer.Daemon.World.{World, Env, set_page, token_or_zero}
use vibesurfer.Daemon.World.Laws.{
  Located, touched, after_touch, touch-Located, mutate_lock_for-eq, current_token-eq,
  engine_handle_for-live, with_page-eq,
}
use vibesurfer.Daemon.Audit.{AuditCtx, lift}
use vibesurfer.Daemon.PageOps.Act.{ActCall, ActResponse, act_body, perform}
use vibesurfer.Daemon.PageOps.Act.Stale.{after_lookups-Located}
use vibesurfer.Daemon.PageOps.Act.{on_engine}
use vibesurfer.Daemon.PageOps.Act.{engine_act}
use vibesurfer.Daemon.PageOps.Act.{note}
use vibesurfer.Daemon.World.{set_page}
use vibesurfer.Daemon.PageOps.Act.{lift}
use vibesurfer.Daemon.PageOps.Act.{acts}
use vibesurfer.Daemon.PageOps.Act.{PageHandle}
use vibesurfer.Daemon.PageOps.Act.{perform}
use vibesurfer.Daemon.World.{on_engine, on_store}
use vibesurfer.Daemon.Audit.{note, lift, AuditCtx}
use vibesurfer.Daemon.World.{set_page}
use vibesurfer.Protocol.Tree.Nodes.{Forest}
use vibesurfer.Protocol.Envelope.Token.{StateToken, display}
use vibesurfer.Daemon.Fallible.{ok}
use vibesurfer.Daemon.Engine.{PageHandle, acts}
use vibesurfer.Daemon.PageState.{PageState, ViewForm, apply_snapshot}
use vibesurfer.Daemon.Store.{Store}
use vibesurfer.Daemon.World.{World, Env, set_page}
use vibesurfer.Daemon.World.Laws.{Located, with_page-eq}
use vibesurfer.Daemon.Audit.{AuditCtx, lift}
use vibesurfer.Daemon.PageOps.Act.{ActCall, ActResponse, perform}
use vibesurfer.Protocol.Tree.Nodes.{Forest}
use vibesurfer.Protocol.Envelope.Token.{StateToken, display}
use vibesurfer.Daemon.Fallible.{ok}
use vibesurfer.Daemon.PageState.{PageState, ViewForm, apply_snapshot}
use vibesurfer.Daemon.Store.{Store}
use vibesurfer.Daemon.World.{World, Env}
use vibesurfer.Daemon.PageOps.Act.{ActCall, ActResponse}
use vibesurfer.Daemon.Store.Laws.{update_page_ok}
use vibesurfer.Daemon.Store.{update_rows}
use vibesurfer.Daemon.World.{on_store}
use vibesurfer.Daemon.Lifecycle.Pages.{save_token}
use vibesurfer.Daemon.Store.Pages.{update_page_token}
use vibesurfer.Daemon.PageOps.Act.{target_hidden, hidden_warnings}
use vibesurfer.Daemon.PageOps.Act.Stale.{after_lookups, twice_touched}

-- What the snapshot after the action does to the page.
abbrev pub seen : Env → World → PageState → Forest → (StateToken × ViewForm) × PageState
seen env w p tree = apply_snapshot env.token_of (twice_touched w p) tree

abbrev pub performed : Env → ActCall → World → PageState → Forest → ActResponse
performed env call w p tree = record {
  token = (seen env w p tree).0.0;
  form = (seen env w p tree).0.1;
  warnings =
      hidden_warnings
        (target_hidden call.session_id call.page_id call.target (after_lookups call w).sessions)
        call.target;
}

save_token_ok :
    (env : Env) (pid : Text) (token : StateToken) (w : World)
    → w.store.faults ≡ []
    → any (λ row. text_eq row.id pid) w.store.pages ≡ true
    → (store : Store) × (save_token env pid token w ≡ (ok tt, record w { store = store }))
      × (store.faults ≡ [])
      × (store.actions ≡ w.store.actions)
unfolding save_token update_page_token on_store
save_token_ok env pid token w faultless row = (
  record w.store {
    pages =
        update_rows (λ row. text_eq row.id pid)
          (λ row. record row {
            last_token = some (display token);
            last_dom_hash = some (codes "engine");
            last_seen_at = w.epoch;
            title = row.title;
          })
          w.store.pages;
    faults = drop 1 w.store.faults;
  },
  rw (
      update_page_ok (λ row. text_eq row.id pid)
        (λ row. record row {
          last_token = some (display token);
          last_dom_hash = some (codes "engine");
          last_seen_at = w.epoch;
          title = row.title;
        })
        pid w.store (rw faultless) row),
  rw faultless,
  refl,
)

-- The state when the action has been taken and its tree has been read into the page.
abbrev pub after_action : Env → ActCall → World → PageState → PageHandle → Forest → World
after_action env call w p h tree = record (after_lookups call w) {
  store = record w.store { faults = drop 1 w.store.faults };
  calls = acts h call.target call.action call.mode ∷ w.calls;
  sessions =
      set_page call.session_id call.page_id (seen env w p tree).1 (after_lookups call w).sessions;
}

perform-performed :
    (env : Env) (call : ActCall) (ctx : AuditCtx) (w : World) (p : PageState) (h : PageHandle)
    (tree : Forest)
    → Located w.sessions call.session_id call.page_id p
    → env.engine.on_act w.calls h call.target call.action call.mode ≡ ok tree
    → w.store.faults ≡ []
    → any (λ row. text_eq row.id call.page_id) w.store.pages ≡ true
    → (store : Store) × (perform env call h (record {
      world = record (after_lookups call w) {
        store = record w.store { faults = drop 1 w.store.faults };
      };
      ctx = ctx;
    })
        ≡ (
          ok (performed env call w p tree),
          record {
            world = record (after_action env call w p h tree) { store = store };
            ctx = record ctx { after_token = some (seen env w p tree).0.0 };
          },
        ))
      × (store.faults ≡ [])
      × (store.actions ≡ w.store.actions)
unfolding perform lift note engine_act on_engine
perform-performed env call ctx w p h tree here answered faultless row =
    let acted : World = record (after_lookups call w) {
      store = record w.store { faults = drop 1 w.store.faults };
      calls = acts h call.target call.action call.mode ∷ w.calls;
    } in
    let (store, saved, no_faults, log) =
      save_token_ok env call.page_id (seen env w p tree).0.0 (after_action env call w p h tree)
        (rw faultless) row in
    (
      store,
      rw (
        answered,
        with_page-eq acted call.session_id call.page_id (twice_touched w p)
            (λ q. apply_snapshot env.token_of q tree) (after_lookups-Located call w p here),
        saved,
      ),
      no_faults,
      log,
    )

-- Nothing in the log within the window repeats the call.
abbrev pub IsNew : ActCall → World → Type 0
IsNew call w =
    filterb
      (is_repeat call.page_id (display call.before_token) call.args_hash w.epoch
        idempotency_ttl_secs)
      w.store.actions
    ≡ []

pub act_body-performed :
    (env : Env) (call : ActCall) (ctx : AuditCtx) (w : World) (p : PageState) (h : PageHandle)
    (tree : Forest)
    → Located w.sessions call.session_id call.page_id p
    → p.engine_handle ≡ some h
    → text_eq (token_or_zero p.last_token) call.before_token ≡ true
    → IsNew call w
    → env.engine.on_act w.calls h call.target call.action call.mode ≡ ok tree
    → w.store.faults ≡ []
    → any (λ row. text_eq row.id call.page_id) w.store.pages ≡ true
    → (store : Store) × (act_body env call (record { world = w; ctx = ctx }) ≡ (
      ok (performed env call w p tree),
      record {
        world = record (after_action env call w p h tree) { store = store };
        ctx = record ctx { after_token = some (seen env w p tree).0.0 };
      },
    ))
      × (store.faults ≡ [])
      × (store.actions ≡ w.store.actions)
unfolding act_body lift on_store
act_body-performed env call ctx w p h tree here live current new answered faultless row =
    let (store, performs, no_faults, log) =
      perform-performed env call ctx w p h tree here answered faultless row in
    (
      store,
      rw (
        mutate_lock_for-eq w call.session_id call.page_id p here,
        engine_handle_for-live env w call.session_id call.page_id p h here live,
        current_token-eq (after_touch call.session_id call.page_id w) call.session_id call.page_id
            (touched w.instant p) (touch-Located w call.session_id call.page_id p here),
        current,
        lookup_idempotent-none call.page_id (display call.before_token) call.args_hash w.epoch
            idempotency_ttl_secs w.store (rw faultless refl) new,
        performs,
      ),
      no_faults,
      log,
    )

-- ===== src/Daemon/PageOps/Act/Retry.antt =====
-- The same `act` sent twice.
use vibesurfer.Prelude.{◌-◌, true, false, [], ◌∷◌, Option, none, some, ◌≡◌, refl, ◌∙◌, any}
use vibesurfer.Text.{codes, text_eq}
use vibesurfer.Table.{text_eq-swap}
use vibesurfer.Protocol.Tree.Nodes.{Forest}
use vibesurfer.Protocol.Envelope.Token.{StateToken}
use vibesurfer.Daemon.Error.{stale}
use vibesurfer.Daemon.Fallible.{ok, err}
use vibesurfer.Daemon.Engine.{PageHandle, acts}
use vibesurfer.Daemon.PageState.{PageState, compute}
use vibesurfer.Daemon.World.{World, Env, token_or_zero}
use vibesurfer.Daemon.World.Laws.{Located, set_page-Located}
use vibesurfer.Daemon.Audit.{Running, audit_row}
use vibesurfer.Daemon.Audit.Log.{logged, audit_call_ends}
use vibesurfer.Daemon.PageOps.Act.{ActCall, act_body, act_ctx, act}
use vibesurfer.Text.Laws.{text_eq_iff}
use vibesurfer.Daemon.PageState.{same_token}
use vibesurfer.Daemon.PageState.Kept.{
  apply_snapshot-token, apply_snapshot-handle, apply_snapshot-last_token,
}
use vibesurfer.Daemon.PageOps.Act.Stale.{
  after_lookups, twice_touched, after_lookups-Located, act-stale,
}
use vibesurfer.Daemon.PageOps.Act.Performed.{
  seen, performed, after_action, act_body-performed, IsNew,
}

same_token-last :
    (o : Option StateToken) (t : StateToken)
    → text_eq (token_or_zero o) t ≡ false
    → same_token o t ≡ false
same_token-last none t h = refl
same_token-last (some s) t h = h

-- The token of the page after the action, when it is not the one before.
seen-changed :
    (env : Env) (call : ActCall) (w : World) (p : PageState) (tree : Forest)
    → text_eq (token_or_zero p.last_token) call.before_token ≡ true
    → text_eq (compute env.token_of tree p.url p.id) call.before_token ≡ false
    → (seen env w p tree).1.last_token ≡ some (compute env.token_of tree p.url p.id)
seen-changed env call w p tree current changed =
    let fresh = compute env.token_of tree p.url p.id in
    apply_snapshot-last_token env.token_of (twice_touched w p) tree (
      same_token-last p.last_token fresh (
        rw ((text_eq_iff (token_or_zero p.last_token) call.before_token).0 current)
          (text_eq-swap fresh call.before_token changed)))

-- If the page has an engine page and the token that the call gives, nothing in the log repeats the
-- call, the engine performs the action, the store works and has a row for the page, and the tree
-- after the action has another token, then `act` answers with that token after one call of the
-- engine; and the same call made again at once fails with STALE_TOKEN and that token, without a call
-- of the engine: it is not answered from the log.
pub act-retry :
    (env : Env) (call : ActCall) (w : World) (p : PageState) (h : PageHandle) (tree : Forest)
    → Located w.sessions call.session_id call.page_id p
    → p.engine_handle ≡ some h
    → text_eq (token_or_zero p.last_token) call.before_token ≡ true
    → IsNew call w
    → env.engine.on_act w.calls h call.target call.action call.mode ≡ ok tree
    → w.store.faults ≡ []
    → any (λ row. text_eq row.id call.page_id) w.store.pages ≡ true
    → text_eq (compute env.token_of tree p.url p.id) call.before_token ≡ false
    → let (r, after) = act env call w in
      let (again, later) = act env call after in
      (r ≡ ok (performed env call w p tree))
      × ((performed env call w p tree).token ≡ compute env.token_of tree p.url p.id)
      × (after.calls ≡ acts h call.target call.action call.mode ∷ w.calls)
      × (again ≡ err (stale (compute env.token_of tree p.url p.id) (codes "mutate")))
      × (later.calls ≡ after.calls)
unfolding act
act-retry env call w p h tree here live current new answered faultless row changed =
    let (store, performs, no_faults, log) =
      act_body-performed env call (act_ctx env call) w p h tree here live current new answered
        faultless row in
    let fresh = compute env.token_of tree p.url p.id in
    let q = (seen env w p tree).1 in
    let end : Running = record {
      world = record (after_action env call w p h tree) { store = store };
      ctx = record (act_ctx env call) { after_token = some (seen env w p tree).0.0 };
    } in
    let after = logged (audit_row end.ctx (w.instant - w.instant) w.epoch none) end.world in
    let known = seen-changed env call w p tree current changed in
    let retried =
      act-stale env call after q h
        (set_page-Located (after_lookups call w).sessions call.session_id call.page_id
          (twice_touched w p) q (after_lookups-Located call w p here))
        (apply_snapshot-handle env.token_of (twice_touched w p) tree ∙ live) (rw known changed)
        (rw no_faults refl) in
    rw
      (audit_call_ends (act_ctx env call) (act_body env call) w (ok (performed env call w p tree))
        end performs (rw no_faults refl))
      (
        refl,
        apply_snapshot-token env.token_of (twice_touched w p) tree,
        refl,
        rw known at retried.0,
        retried.1,
      )

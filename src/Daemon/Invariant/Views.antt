-- ===== src/Daemon/Invariant/Views.antt =====
-- `view`, `act` and `navigate` keep the invariant.
use vibesurfer.Prelude.{Bool, true, false, Option, none, some, ◌≡◌, refl, Bool-cases, inl, inr}
use vibesurfer.Text.{Text, text_eq}
use vibesurfer.Daemon.Invariant.Pieces.{
  after, after_note, on_store-Keeps, audit_call-Keeps, KeepsIt,
}
use vibesurfer.Protocol.Tree.Nodes.{Forest}
use vibesurfer.Protocol.Envelope.Token.{StateToken, display}
use vibesurfer.Daemon.Fallible.{ok}
use vibesurfer.Daemon.Engine.{PageHandle, snapshots}
use vibesurfer.Daemon.PageState.{PageState, ViewForm, invalidate_baseline, compute, apply_snapshot}
use vibesurfer.Daemon.Store.{idempotency_ttl_secs, Action}
use vibesurfer.Daemon.Store.Pages.{update_page_url}
use vibesurfer.Daemon.Store.Actions.{lookup_idempotent}
use vibesurfer.Daemon.World.{
  Env, D, on_store, on_engine, with_page, mutate_lock_for, current_token, engine_handle_for,
}
use vibesurfer.Daemon.Audit.{note}
use vibesurfer.Daemon.Lifecycle.Pages.{
  engine_snapshot, save_token, engine_navigate, navigate_body, navigate,
}
use vibesurfer.Daemon.Lifecycle.{fresh_page, rebase}
use vibesurfer.Daemon.Fallible.Keeps.{Keeps}
use vibesurfer.Daemon.Invariant.{IsValid}
use vibesurfer.Daemon.Invariant.Grow.{update_page-Growing, reads-Growing}
use vibesurfer.Daemon.Invariant.Pages.{
  with_page-Keeps, on_engine-Keeps, current_token-Keeps, engine_handle_for-Keeps, save_token-Keeps,
}
use vibesurfer.Daemon.PageState.Kept.{apply_snapshot-id}
use vibesurfer.Daemon.PageOps.{view, view_body, view_page, engine_view}
use vibesurfer.Daemon.PageOps.Act.{
  act, act_body, ActCall, perform, cached_or_perform, idem_response, engine_act, target_hidden,
  expect_token,
}

view_page-id :
    (hash : Text → StateToken) (force : Bool) (tree : Forest) (p : PageState)
    → (view_page hash force tree p).1.id ≡ p.id
unfolding view_page invalidate_baseline
view_page-id hash true tree p = apply_snapshot-id hash (invalidate_baseline p) tree
view_page-id hash false tree p = apply_snapshot-id hash p tree

pub engine_snapshot-Keeps : (env : Env) (h : PageHandle) → Keeps IsValid (engine_snapshot env h)
unfolding engine_snapshot
engine_snapshot-Keeps env h =
    on_engine-Keeps (λ w. snapshots h) (λ w. env.engine.on_snapshot w.calls h)

view_body-Keeps :
    (env : Env) (sid pid : Text) (force : Bool) → KeepsIt (view_body env sid pid force)
unfolding view_body engine_view on_engine
view_body-Keeps env sid pid force =
    after _ (engine_handle_for env sid pid) (engine_handle_for-Keeps env sid pid) (λ h.
      after _ (engine_view env h) (λ w valid. valid)
        (λ snap.
          after _ (with_page sid pid (view_page env.token_of force snap.0))
            (with_page-Keeps sid pid (view_page env.token_of force snap.0)
              (view_page-id env.token_of force snap.0))
            (λ seen.
              after_note _ (λ c. record c { after_token = some seen.0 })
                (λ done.
                  after _ (save_token env pid seen.0) (save_token-Keeps env pid seen.0)
                    (λ saved s valid. valid)))))

pub view-Keeps :
    (env : Env) (sid pid : Text) (force : Bool) → Keeps IsValid (view env sid pid force)
unfolding view
view-Keeps env sid pid force =
    audit_call-Keeps _ (view_body env sid pid force) (view_body-Keeps env sid pid force)

-- The snapshot after an action or a wait.
abbrev pub snapshot_page : Env → Text → Text → Forest → D (StateToken × ViewForm)
snapshot_page env sid pid tree = with_page sid pid (λ p. apply_snapshot env.token_of p tree)

pub snapshot_page-Keeps :
    (env : Env) (sid pid : Text) (tree : Forest) → Keeps IsValid (snapshot_page env sid pid tree)
snapshot_page-Keeps env sid pid tree =
    with_page-Keeps sid pid (λ p. apply_snapshot env.token_of p tree)
      (λ p. apply_snapshot-id env.token_of p tree)

perform-Keeps : (env : Env) (call : ActCall) (h : PageHandle) → KeepsIt (perform env call h)
unfolding perform engine_act on_engine
perform-Keeps env call h =
    after _ (λ w. (ok (target_hidden call.session_id call.page_id call.target w.sessions), w))
      (λ w valid. valid)
      (λ hidden.
        after _ (engine_act env h call.target call.action call.mode) (λ w valid. valid)
          (λ tree.
            after _ (snapshot_page env call.session_id call.page_id tree)
              (snapshot_page-Keeps env call.session_id call.page_id tree)
              (λ seen.
                after_note _ (λ c. record c { after_token = some seen.0 })
                  (λ done.
                    after _ (save_token env call.page_id seen.0)
                      (save_token-Keeps env call.page_id seen.0) (λ saved s valid. valid)))))

cached_or_perform-Keeps :
    (env : Env) (call : ActCall) (h : PageHandle) (cached : Option Action)
    → KeepsIt (cached_or_perform env call h cached)
unfolding idem_response note
cached_or_perform-Keeps env call h (some cached) = λ s valid. valid
cached_or_perform-Keeps env call h none = perform-Keeps env call h

expect_token-Keeps :
    (env : Env) (current before : StateToken) → Keeps IsValid (expect_token env current before)
expect_token-Keeps env current before w valid = elim (Bool-cases (text_eq current before)) [
  | inl e ↦ rw e valid
  | inr e ↦ rw e valid
]

abbrev lookup : ActCall → D (Option Action)
lookup call w =
    on_store
      (lookup_idempotent call.page_id (display call.before_token) call.args_hash w.epoch
        idempotency_ttl_secs)
      w

lookup-Keeps : (call : ActCall) → Keeps IsValid (lookup call)
unfolding lookup_idempotent
lookup-Keeps call w =
    on_store-Keeps
      (lookup_idempotent call.page_id (display call.before_token) call.args_hash w.epoch
        idempotency_ttl_secs)
      (reads-Growing _) w

act_body-Keeps : (env : Env) (call : ActCall) → KeepsIt (act_body env call)
unfolding act_body mutate_lock_for
act_body-Keeps env call =
    after _ (mutate_lock_for call.session_id call.page_id) (λ w valid. valid)
      (λ locked.
        after _ (engine_handle_for env call.session_id call.page_id)
          (engine_handle_for-Keeps env call.session_id call.page_id)
          (λ h.
            after _ (current_token call.session_id call.page_id)
              (current_token-Keeps call.session_id call.page_id)
              (λ current.
                after _ (expect_token env current call.before_token)
                  (expect_token-Keeps env current call.before_token)
                  (λ fresh.
                    after _ (lookup call) (lookup-Keeps call)
                      (λ cached. cached_or_perform-Keeps env call h cached)))))

pub act-Keeps : (env : Env) (call : ActCall) → Keeps IsValid (act env call)
unfolding act
act-Keeps env call = audit_call-Keeps _ (act_body env call) (act_body-Keeps env call)

save_url : Text → Text → D (Unit {0})
save_url pid url w = on_store (update_page_url w.epoch pid url) w

save_url-Keeps : (pid url : Text) → Keeps IsValid (save_url pid url)
unfolding save_url update_page_url
save_url-Keeps pid url w =
    on_store-Keeps (update_page_url w.epoch pid url)
      (update_page-Growing (λ row. text_eq row.id pid)
        (λ row. record row { url = url; last_seen_at = w.epoch }) pid (λ row. refl))
      w

navigate_body-Keeps : (env : Env) (sid pid url : Text) → KeepsIt (navigate_body env sid pid url)
unfolding navigate_body engine_navigate on_engine rebase fresh_page save_url
navigate_body-Keeps env sid pid url =
    after _ (engine_handle_for env sid pid) (engine_handle_for-Keeps env sid pid) (λ h.
      after _ (engine_navigate env h url) (λ w valid. valid)
        (λ gone. after _ (engine_snapshot env h) (engine_snapshot-Keeps env h) (λ tree.
          let token = compute env.token_of tree url pid in
          after_note _ (λ c. record c { after_token = some token })
            (λ done.
              after _ (with_page sid pid (λ p. (tt, rebase url p tree token)))
                (with_page-Keeps sid pid (λ p. (tt, rebase url p tree token)) (λ p. refl))
                (λ based. after _ (save_url pid url) (save_url-Keeps pid url) (λ kept.
                  after _ (save_token env pid token) (save_token-Keeps env pid token)
                    (λ saved s valid. valid)))))))

pub navigate-Keeps : (env : Env) (sid pid url : Text) → Keeps IsValid (navigate env sid pid url)
unfolding navigate
navigate-Keeps env sid pid url =
    audit_call-Keeps _ (navigate_body env sid pid url) (navigate_body-Keeps env sid pid url)

-- ===== src/Daemon/Invariant/Opens.antt =====
-- `session_open` and `open` keep the invariant: the row is in the store before the entry is in memory.
use vibesurfer.Text.{Text, codes}
use vibesurfer.Table.{get}
use vibesurfer.Prelude.{ℕ, true, ◌++◌, Option, ◌≡◌, any, inl, inr, some, Option-cases}
use vibesurfer.Daemon.Lifecycle.{
  session_open, session_open_as, session_open_body, SessionOpenResponse, hash_of, take_session,
  take_page, close_handles, close_rows, fresh_page, rebase, close_in_store, close_body,
  session_close, handles_of, session_close_response, SessionCloseResponse, OpenResponse,
  close_response,
}
use vibesurfer.Daemon.Invariant.Pieces.{
  audit_call-Keeps, KeepsIt, on_store-Keeps, lift-Keeps, after, after_note,
}
use vibesurfer.Daemon.Fallible.{◌>>◌, pure}
use vibesurfer.Daemon.Audit.{Running, Body, lift}
use vibesurfer.Daemon.Fallible.Keeps.{Keeps, bind-Keeps, Then, bind-after}
use vibesurfer.Daemon.World.{
  store_result, Env, D, on_store, on_engine, require_session, engine_open, draw_id, zero_token,
}
use vibesurfer.Daemon.Store.Sessions.{create_session, closes_session}
use vibesurfer.Daemon.Store.Pages.{create_page, has_page}
use vibesurfer.Daemon.Store.{S, Session, Page}
use vibesurfer.Daemon.Lifecycle.Pages.{open_body, open_page}
use vibesurfer.Daemon.Invariant.{IsValid}
use vibesurfer.Daemon.Invariant.Grow.{create_page-Growing, create_session-Growing}
use vibesurfer.Daemon.Lifecycle
use vibesurfer.Daemon.Invariant.Rows.{
  on_store-Then, lift-Then, create_page-Then, create_session-Then,
}
use vibesurfer.Daemon.Invariant.Entries.{
  opened-Valid, last_of_open, rest_of_open, rest_of_open-Leads,
}

pub require_session-Keeps : (sid : Text) → Keeps IsValid (require_session sid)
unfolding require_session
require_session-Keeps sid w h = elim (Option-cases (get w.sessions sid)) [
  | inl e ↦ rw (require_session, e) h
  | inr (s, e) ↦ rw (require_session, e) h
]

abbrev make_page : ℕ → Text → Text → Text → S Page
make_page now pid sid url = create_page now pid sid url

-- The step of `open` that makes the row.
file_page : Text → Text → Text → D Page
file_page pid sid url w = on_store (make_page w.epoch pid sid url) w

file_page-Keeps : (pid sid url : Text) → Keeps IsValid (file_page pid sid url)
unfolding file_page
file_page-Keeps pid sid url w =
    on_store-Keeps (create_page w.epoch pid sid url) (create_page-Growing w.epoch pid sid url) w

file_page-Then :
    (pid sid url : Text) (s : Running)
    → Then (λ r. has_page pid r.world.store.pages ≡ true) (lift (file_page pid sid url) s)
unfolding lift file_page on_store
file_page-Then pid sid url s =
    let made = create_page s.world.epoch pid sid url s.world.store in
    lift-Then (λ w. has_page pid w.store.pages ≡ true)
      (store_result made.0, record s.world { store = made.1 }) s
      (on_store-Then (λ t. has_page pid t.pages ≡ true) made s.world
        (create_page-Then s.world.epoch pid sid url s.world.store))

open_body-Keeps : (env : Env) (sid url : Text) → KeepsIt (open_body env sid url)
unfolding open_body on_engine draw_id file_page rest_of_open last_of_open
open_body-Keeps env sid url = after _ (require_session sid) (require_session-Keeps sid) (λ known.
    after _ (engine_open env url) (λ w valid. valid)
      (λ h.
        after _ (draw_id env) (λ w valid. valid)
          (λ drawn.
            let pid = codes "p_" ++ drawn in
            after_note _ (λ c. record c { page_id = some pid })
              (λ done.
                bind-after (λ s. IsValid s.world) (λ s. has_page pid s.world.store.pages ≡ true)
                  (lift (file_page pid sid url)) _
                  (lift-Keeps (file_page pid sid url) (file_page-Keeps pid sid url))
                  (λ s valid. file_page-Then pid sid url s)
                  (λ row s valid filed. rest_of_open-Leads env sid pid url h s (valid, filed))))))

pub open_page-Keeps : (env : Env) (sid url : Text) → Keeps IsValid (open_page env sid url)
unfolding open_page
open_page-Keeps env sid url =
    audit_call-Keeps _ (open_body env sid url) (open_body-Keeps env sid url)

-- The step of `session_open` that makes the row.
file_session : Text → Option Text → D Session
file_session sid policy w = on_store (create_session w.epoch sid policy) w

file_session-Keeps : (sid : Text) (policy : Option Text) → Keeps IsValid (file_session sid policy)
unfolding file_session
file_session-Keeps sid policy w =
    on_store-Keeps (create_session w.epoch sid policy) (create_session-Growing w.epoch sid policy) w

file_session-Then :
    (sid : Text) (policy : Option Text) (s : Running)
    → Then
        (λ r. any (closes_session sid) r.world.store.sessions ≡ true)
        (lift (file_session sid policy) s)
unfolding lift file_session on_store
file_session-Then sid policy s =
    let made = create_session s.world.epoch sid policy s.world.store in
    lift-Then (λ w. any (closes_session sid) w.store.sessions ≡ true)
      (store_result made.0, record s.world { store = made.1 }) s
      (on_store-Then (λ t. any (closes_session sid) t.sessions ≡ true) made s.world
        (create_session-Then s.world.epoch sid policy s.world.store))

-- The last step of `session_open`.
last_of_session_open : Text → Text → Body SessionOpenResponse
last_of_session_open sid answer = do
  lift (Lifecycle.insert_session sid)
  pure (record { session_id = answer; token = zero_token })

last_of_session_open-Valid :
    (sid answer : Text) (s : Running)
    → IsValid s.world
    → any (closes_session sid) s.world.store.sessions ≡ true
    → IsValid (last_of_session_open sid answer s).1.world
unfolding last_of_session_open lift Lifecycle.insert_session
last_of_session_open-Valid sid answer s valid filed = opened-Valid sid answer s valid filed

session_open_body-Keeps :
    (env : Env) (policy : Option Text) (id : Text) → KeepsIt (session_open_body env policy id)
unfolding session_open_body file_session last_of_session_open
session_open_body-Keeps env policy id =
    after_note _ (λ c. record c { after_token = some zero_token })
      (λ done.
        bind-after (λ s. IsValid s.world)
          (λ s. any (closes_session id) s.world.store.sessions ≡ true)
          (lift (file_session id policy)) _
          (lift-Keeps (file_session id policy) (file_session-Keeps id policy))
          (λ s valid. file_session-Then id policy s)
          (λ row s valid filed. last_of_session_open-Valid id row.id s valid filed))

pub session_open-Keeps :
    (env : Env) (policy : Option Text) → Keeps IsValid (session_open env policy)
unfolding session_open session_open_as draw_id
session_open-Keeps env policy =
    bind-Keeps IsValid (draw_id env) (λ drawn. session_open_as env policy (codes "s_" ++ drawn))
      (λ w valid. valid)
      (λ drawn.
        audit_call-Keeps _ (session_open_body env policy (codes "s_" ++ drawn))
          (session_open_body-Keeps env policy (codes "s_" ++ drawn)))

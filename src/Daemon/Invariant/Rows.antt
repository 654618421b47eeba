-- ===== src/Daemon/Invariant/Rows.antt =====
-- The statements that make a row leave it in the store.
use vibesurfer.Text.{Text, text_eq}
use vibesurfer.Prelude.{
  any-append, ℕ, Bool, true, List, [], ◌∷◌, ◌++◌, Option, ◌≡◌, refl, arith, any, Bool-cases, inl,
  inr,
}
use vibesurfer.Daemon.Fallible.{Outcome, ok, err}
use vibesurfer.Daemon.Audit.{Running}
use vibesurfer.Daemon.Fallible.Keeps.{Then, go_on-Then}
use vibesurfer.Daemon.World.{store_result, World}
use vibesurfer.Daemon.Store.Sessions.{
  create_session, session_row, close_session, list_sessions, closes_session, mark_closed,
  set_closed, get_session,
}
use vibesurfer.Daemon.Store.Pages.{
  create_page, page_row, close_page, update_page_token, update_page_url, list_pages, has_page,
}
use vibesurfer.Daemon.Store.{Session, Page, is_opened, Store, statement, has_session}
use vibesurfer.Daemon.Error.{DaemonError, StoreError}
use vibesurfer.Text.Laws.{text_eq_refl}
use vibesurfer.Daemon.Store.Sessions
use vibesurfer.Daemon.Store.Pages

-- A call of the store that returns a value leaves the store as its statements do.
pub on_store-Then :
    {A : Type 0} (Q : Store → Type 0) (x : Outcome StoreError A × Store) (w : World)
    → Then Q x
    → Then (λ v. Q v.store) (store_result x.0, record w { store = x.1 })
on_store-Then Q (ok a, s) w h = h
on_store-Then Q (err e, s) w h = tt

pub lift-Then :
    {A : Type 0} (Q : World → Type 0) (x : Outcome DaemonError A × World) (s : Running)
    → Then Q x
    → Then (λ r. Q r.world) (x.0, record s { world = x.1 })
lift-Then Q (ok a, w) s h = h
lift-Then Q (err e, w) s h = tt

any-right :
    {A : Type 0} (p : A → Bool) (xs : List A) (y : A) → p y ≡ true → any p (xs ++ y ∷ []) ≡ true
any-right p xs y h = rw (any-append p xs (y ∷ []), h) (ground arith)

insert_page-Then :
    (row : Page) (s : Store) → Then (λ t. has_page row.id t.pages ≡ true) (Pages.insert_page row s)
insert_page-Then row s = elim (Bool-cases (has_page row.id s.pages)) [
  | inl e ↦ rw e tt
  | inr e ↦ elim (Bool-cases (has_session row.session_id s.sessions)) [
    | inl owned ↦
        rw (e, owned) (any-right (λ r. text_eq r.id row.id) s.pages row (text_eq_refl row.id))
    | inr alone ↦ rw (e, alone) tt
  ]
]

pub create_page-Then :
    (now : ℕ) (pid sid url : Text) (s : Store)
    → Then (λ t. has_page pid t.pages ≡ true) (create_page now pid sid url s)
unfolding create_page page_row
create_page-Then now pid sid url s =
    go_on-Then (λ t. has_page pid t.pages ≡ true) (statement s)
      (λ done. Pages.insert_page (page_row pid sid url now))
      (λ done t. insert_page-Then (page_row pid sid url now) t)

insert_session-Then :
    (row : Session) (s : Store)
    → is_opened row.status ≡ true
    → Then (λ t. any (closes_session row.id) t.sessions ≡ true) (Sessions.insert_session row s)
unfolding closes_session
insert_session-Then row s live = elim (Bool-cases (has_session row.id s.sessions)) [
  | inl e ↦ rw e tt
  | inr e ↦
      rw e (any-right (closes_session row.id) s.sessions row (rw (text_eq_refl row.id, live) refl))
]

pub create_session-Then :
    (now : ℕ) (sid : Text) (policy : Option Text) (s : Store)
    → Then (λ t. any (closes_session sid) t.sessions ≡ true) (create_session now sid policy s)
unfolding create_session session_row
create_session-Then now sid policy s =
    go_on-Then (λ t. any (closes_session sid) t.sessions ≡ true) (statement s)
      (λ done. Sessions.insert_session (session_row sid policy now))
      (λ done t. insert_session-Then (session_row sid policy now) t refl)

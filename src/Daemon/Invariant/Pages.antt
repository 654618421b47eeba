-- ===== src/Daemon/Invariant/Pages.antt =====
-- The steps that look up or change a page keep the invariant.
use vibesurfer.Prelude.{Option, none, some, ◌≡◌, refl, ap, ◌∙◌, Option-cases, inl, inr, or_else}
use vibesurfer.Text.{Text, codes, text_eq}
use vibesurfer.Table.{get, write, write-IsTable, All-get, All-write}
use vibesurfer.Protocol.Envelope.Token.{StateToken, display}
use vibesurfer.Daemon.Error.{EngineError, DaemonError}
use vibesurfer.Daemon.Fallible.{Outcome, ok, ◌>>=◌, then_try, Outcome-cases}
use vibesurfer.Daemon.Engine.{PageHandle, EngineCall, opens}
use vibesurfer.Daemon.PageState.{PageState}
use vibesurfer.Daemon.Store.{Store}
use vibesurfer.Daemon.Store.Pages.{update_page_token}
use vibesurfer.Daemon.World.{
  World, Env, Sessions, on_engine, find_session, find_page, set_page, with_page, touch, own_page,
  current_token, engine_handle_for, engine_open, token_or_zero, keep_first, handle_or_open,
}
use vibesurfer.Daemon.Lifecycle.Pages.{save_token}
use vibesurfer.Daemon.Fallible.Keeps.{Keeps, bind-Keeps}
use vibesurfer.Daemon.Invariant.{IsPage, IsSession, AreValid, IsValid}
use vibesurfer.Daemon.Invariant.Grow.{update_page-Growing}
use vibesurfer.Daemon.Invariant.Pieces.{write-Valid, on_store-Keeps, touch-Keeps}
use vibesurfer.Daemon.World.Laws.{Located}

-- A page that was found is there.
pub find_page-Located :
    (ss : Sessions) (sid pid : Text) (p : PageState)
    → find_page sid pid ss ≡ ok p
    → Located ss sid pid p
unfolding find_page find_session
find_page-Located ss sid pid p h = elim (Option-cases (get ss sid)) [
  | inl e ↦ absurd (let found = rw e at h in cc)
  | inr (s, e) ↦ elim (Option-cases (get s.pages pid)) [
    | inl f ↦ absurd (let found = rw (e, f) at h in cc)
    | inr (q, f) ↦ (s, e, let found = rw (e, f) at h in let same : q ≡ p = cc in f ∙ ap some same)
  ]
]

-- Another state of a page that is there.
pub set_page-Valid :
    (rows : Store) (ss : Sessions) (sid pid : Text) (p q : PageState)
    → AreValid rows ss
    → Located ss sid pid p
    → q.id ≡ p.id
    → AreValid rows (set_page sid pid q ss)
unfolding set_page
set_page-Valid rows ss sid pid p q h (s, there, page) same =
    let valid = All-get (IsSession rows) ss sid h.1 there in
    let row = All-get (IsPage rows) s.pages pid valid.2 page in
    rw (set_page, there)
      (write-Valid rows ss sid (record s { pages = write pid q s.pages }) h
        (
          valid.0,
          write-IsTable s.pages pid q valid.1,
          All-write (IsPage rows) s.pages pid q valid.2 (same ∙ row.0, row.1),
        ))

pub with_page-Keeps :
    {A : Type 0} (sid pid : Text) (f : PageState → A × PageState)
    → ((p : PageState) → (f p).1.id ≡ p.id)
    → Keeps IsValid (with_page sid pid f)
unfolding with_page
with_page-Keeps sid pid f same w h = elim (Outcome-cases (find_page sid pid w.sessions)) [
  | inl (p, e) ↦
      rw (with_page, e)
        (set_page-Valid w.store w.sessions sid pid p (f p).1 h
          (find_page-Located w.sessions sid pid p e) (same p))
  | inr (why, e) ↦ rw (with_page, e) h
]

-- A step that only looks.
pub look-Keeps : {A : Type 0} (f : World → Outcome DaemonError A) → Keeps IsValid (λ w. (f w, w))
look-Keeps f w h = h

pub on_engine-Keeps :
    {A : Type 0} (call : World → EngineCall) (answer : World → Outcome EngineError A)
    → Keeps IsValid (λ w. on_engine (call w) (answer w) w)
unfolding on_engine
on_engine-Keeps call answer w h = h

pub current_token-Keeps : (sid pid : Text) → Keeps IsValid (current_token sid pid)
unfolding current_token
current_token-Keeps sid pid =
    bind-Keeps IsValid (touch sid pid)
      (λ done w. (then_try (own_page sid pid w.sessions) (λ p. ok (token_or_zero p.last_token)), w))
      (touch-Keeps sid pid) (λ done w h. h)

keep_first-Keeps :
    (env : Env) (sid pid : Text) (mine : PageHandle) (taken : Option PageHandle)
    → Keeps IsValid (keep_first env sid pid mine taken)
unfolding on_engine
keep_first-Keeps env sid pid mine (some existing) = λ w h. h
keep_first-Keeps env sid pid mine none =
    with_page-Keeps sid pid (λ p. (mine, record p { engine_handle = some mine })) (λ p. refl)

handle_or_open-Keeps :
    (env : Env) (sid pid : Text) (p : PageState) (handle : Option PageHandle)
    → Keeps IsValid (handle_or_open env sid pid p handle)
handle_or_open-Keeps env sid pid p (some h) = λ w valid. valid
handle_or_open-Keeps env sid pid p none =
    bind-Keeps IsValid (engine_open env p.url)
      (λ mine.
        (λ w. (then_try (find_page sid pid w.sessions) (λ q. ok q.engine_handle), w)) >>= λ taken.
        keep_first env sid pid mine taken)
      (on_engine-Keeps (λ w. opens p.url) (λ w. env.engine.on_open w.calls p.url))
      (λ mine.
        bind-Keeps IsValid
          (λ w. (then_try (find_page sid pid w.sessions) (λ q. ok q.engine_handle), w))
          (λ taken. keep_first env sid pid mine taken) (λ w h. h)
          (λ taken. keep_first-Keeps env sid pid mine taken))

pub engine_handle_for-Keeps :
    (env : Env) (sid pid : Text) → Keeps IsValid (engine_handle_for env sid pid)
unfolding engine_handle_for
engine_handle_for-Keeps env sid pid =
    bind-Keeps IsValid (touch sid pid)
      (λ done. (λ w. (own_page sid pid w.sessions, w)) >>= λ p.
        handle_or_open env sid pid p p.engine_handle)
      (touch-Keeps sid pid)
      (λ done.
        bind-Keeps IsValid (λ w. (own_page sid pid w.sessions, w))
          (λ p. handle_or_open env sid pid p p.engine_handle) (λ w h. h)
          (λ p. handle_or_open-Keeps env sid pid p p.engine_handle))

pub save_token-Keeps :
    (env : Env) (pid : Text) (token : StateToken) → Keeps IsValid (save_token env pid token)
unfolding save_token update_page_token
save_token-Keeps env pid token w =
    on_store-Keeps (update_page_token w.epoch pid (display token) (codes "engine") none)
      (update_page-Growing (λ row. text_eq row.id pid)
        (λ row. record row {
          last_token = some (display token);
          last_dom_hash = some (codes "engine");
          last_seen_at = w.epoch;
          title = or_else none row.title;
        })
        pid (λ row. refl))
      w

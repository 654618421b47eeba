-- ===== src/Daemon/Invariant/Grow.antt =====
-- The store only gains rows, and a row keeps its id; only `close_session` closes one.
use vibesurfer.Table.{text_eq-swap}
use vibesurfer.Daemon.Invariant.{IsKeyed}
use vibesurfer.Prelude.{
  any-append, ℕ, ◌+◌, Bool, true, false, List, [], ◌∷◌, ◌++◌, Option, ◌≡◌, refl, ◌∙◌, any, all, All,
  length, Bool-cases, inl, inr, arith,
}
use vibesurfer.Text.{Text, codes, text_eq}
use vibesurfer.Daemon.Fallible.{Outcome, ◌>>◌, ◌>>=◌, ok}
use vibesurfer.Daemon.Error.{StoreError, absent}
use vibesurfer.Daemon.Store.{
  Session, Page, check, update_rows, has_session, ActionInsert, Store, S, statement,
}
use vibesurfer.Daemon.Store.Sessions.{insert_session, create_session, session_row, closes_session}
use vibesurfer.Daemon.Store.Pages.{insert_page, create_page, page_row, update_page, has_page}
use vibesurfer.Daemon.Fallible.Keeps.{Keeps, bind-Keeps}
use vibesurfer.Daemon.PageState.{PageState}
use vibesurfer.Daemon.Store.Laws.{statement-rows}
use vibesurfer.Daemon.Store.Actions.{record_action}
use vibesurfer.Daemon.World.{Sessions}
use vibesurfer.Daemon.Invariant.{IsPage, IsSession}

-- Every row that was there is there, and every open session is open.
pub record Grows (s t : Store) : Type 0 where
  pub keeps_sessions :
      (sid : Text)
      → any (closes_session sid) s.sessions ≡ true
      → any (closes_session sid) t.sessions ≡ true
  pub keeps_keys : IsKeyed s.sessions → IsKeyed t.sessions
  pub keeps_pages : (pid : Text) → has_page pid s.pages ≡ true → has_page pid t.pages ≡ true

pub Grows-refl : (s : Store) → Grows s s
Grows-refl s = record { keeps_sessions = λ sid h. h; keeps_keys = λ h. h; keeps_pages = λ pid h. h }

pub All-IsPage :
    (s t : Store) (ps : List (Text × PageState))
    → ((pid : Text) → has_page pid s.pages ≡ true → has_page pid t.pages ≡ true)
    → All (IsPage s) ps
    → All (IsPage t) ps
All-IsPage s t [] keeps all = tt
All-IsPage s t ((pid, p) ∷ ps) keeps all =
    ((all.0.0, keeps pid all.0.1), All-IsPage s t ps keeps all.1)

pub All-IsSession :
    (s t : Store) (ss : Sessions) → Grows s t → All (IsSession s) ss → All (IsSession t) ss
All-IsSession s t [] g all = tt
All-IsSession s t ((sid, x) ∷ ss) g all = (
  (g.keeps_sessions sid all.0.0, all.0.1, All-IsPage s t x.pages g.keeps_pages all.0.2),
  All-IsSession s t ss g all.1,
)

-- A statement that grows the store, from any state that grew from `base`.
abbrev pub Growing : {A : Type 0} → S A → Type 0
Growing m = (base : Store) → Keeps (Grows base) m

pub statement-Growing : Growing statement
statement-Growing base s g =
    let rows = statement-rows s in
    record {
      keeps_sessions = λ sid h. rw rows.0 (g.keeps_sessions sid h);
      keeps_keys = λ h. rw rows.0 (g.keeps_keys h);
      keeps_pages = λ pid h. rw rows.1 (g.keeps_pages pid h);
    }

-- A statement that only reads, or that writes to the log.
pub record_action-Growing : (insert : ActionInsert) → Growing (record_action insert)
unfolding record_action
record_action-Growing insert base =
    bind-Keeps (Grows base) statement
      (λ done s. (
        ok (length s.actions + 1),
        record s {
          actions = s.actions ++ record { id = length s.actions + 1; insert = insert } ∷ [];
        },
      ))
      (statement-Growing base)
      (λ done s g. record {
        keeps_sessions = g.keeps_sessions;
        keeps_keys = g.keeps_keys;
        keeps_pages = g.keeps_pages;
      })

-- A statement after which the rows are only read.
pub reads-Growing :
    {A : Type 0} (read : Store → Outcome StoreError A) → Growing (statement >> λ s. (read s, s))
reads-Growing read base =
    bind-Keeps (Grows base) statement (λ done s. (read s, s)) (statement-Growing base)
      (λ done s g. g)

any-left : {A : Type 0} (p : A → Bool) (xs ys : List A) → any p xs ≡ true → any p (xs ++ ys) ≡ true
any-left p xs ys h = rw (any-append p xs ys, h)

-- A row whose id is not in the table goes in at its end.
append-IsKeyed :
    (rows : List Session) (row : Session)
    → IsKeyed rows
    → has_session row.id rows ≡ false
    → IsKeyed (rows ++ row ∷ [])
append-IsKeyed [] row h new = (refl, tt)
append-IsKeyed (r ∷ rows) row h new =
    let apart : text_eq r.id row.id ≡ false = ground (arith, new) in
    let later : has_session row.id rows ≡ false = ground (arith, new) in
    let other : text_eq row.id r.id ≡ false = text_eq-swap r.id row.id apart in
    (
      any-append (λ x. text_eq x.id r.id) rows (row ∷ []) ∙ (rw (h.0, other) refl),
      append-IsKeyed rows row h.1 later,
    )

insert_session-Growing : (row : Session) → Growing (insert_session row)
insert_session-Growing row base s g = elim (Bool-cases (has_session row.id s.sessions)) [
  | inl e ↦ rw e g
  | inr e ↦ rw e (record {
    keeps_sessions =
        λ sid h. any-left (closes_session sid) s.sessions (row ∷ []) (g.keeps_sessions sid h);
    keeps_keys = λ h. append-IsKeyed s.sessions row (g.keeps_keys h) e;
    keeps_pages = g.keeps_pages;
  })
]

pub create_session-Growing :
    (now : ℕ) (id : Text) (policy : Option Text) → Growing (create_session now id policy)
unfolding create_session
create_session-Growing now id policy base =
    bind-Keeps (Grows base) statement (λ done. insert_session (session_row id policy now))
      (statement-Growing base) (λ done. insert_session-Growing (session_row id policy now) base)

insert_page-Growing : (row : Page) → Growing (insert_page row)
insert_page-Growing row base s g = elim (Bool-cases (has_page row.id s.pages)) [
  | inl e ↦ rw e g
  | inr e ↦ elim (Bool-cases (has_session row.session_id s.sessions)) [
    | inl owned ↦
        rw (e, owned)
          (record {
            keeps_sessions = g.keeps_sessions;
            keeps_keys = g.keeps_keys;
            keeps_pages =
                λ pid h. any-left (λ r. text_eq r.id pid) s.pages (row ∷ []) (g.keeps_pages pid h);
          })
    | inr alone ↦ rw (e, alone) g
  ]
]

pub create_page-Growing : (now : ℕ) (id sid url : Text) → Growing (create_page now id sid url)
unfolding create_page
create_page-Growing now id sid url base =
    bind-Keeps (Grows base) statement (λ done. insert_page (page_row id sid url now))
      (statement-Growing base) (λ done. insert_page-Growing (page_row id sid url now) base)

has_page-update_rows :
    (p : Page → Bool) (f : Page → Page) (pid : Text) (rows : List Page)
    → ((row : Page) → (f row).id ≡ row.id)
    → has_page pid (update_rows p f rows) ≡ has_page pid rows
unfolding update_rows
has_page-update_rows p f pid [] same = refl
has_page-update_rows p f pid (row ∷ rows) same = elim (Bool-cases (p row)) [
  | inl e ↦ rw (e, same row, has_page-update_rows p f pid rows same)
  | inr e ↦ rw (e, has_page-update_rows p f pid rows same)
]

check-Growing :
    (base : Store) (found : Bool) (why : StoreError) → Keeps (Grows base) (check found why)
check-Growing base true why s g = g
check-Growing base false why s g = g

pub update_page-Growing :
    (p : Page → Bool) (f : Page → Page) (id : Text)
    → ((row : Page) → (f row).id ≡ row.id)
    → Growing (update_page p f id)
unfolding update_page
update_page-Growing p f id same base =
    bind-Keeps (Grows base) statement
      (λ done.
        (λ s. (ok (any p s.pages), record s { pages = update_rows p f s.pages })) >>= λ found.
        check found (absent (codes "page") id))
      (statement-Growing base)
      (λ done.
        bind-Keeps (Grows base)
          (λ s. (ok (any p s.pages), record s { pages = update_rows p f s.pages }))
          (λ found. check found (absent (codes "page") id))
          (λ s g. record {
            keeps_sessions = g.keeps_sessions;
            keeps_keys = g.keeps_keys;
            keeps_pages = λ pid h. has_page-update_rows p f pid s.pages same ∙ g.keeps_pages pid h;
          })
          (λ found. check-Growing base found (absent (codes "page") id)))

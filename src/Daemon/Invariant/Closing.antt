-- ===== src/Daemon/Invariant/Closing.antt =====
-- `close_session` closes the row of one session only.
use vibesurfer.Daemon.Invariant.{has_session}
use vibesurfer.Daemon.Invariant.{IsKeyed}
use vibesurfer.Text.{Text, codes, text_eq}
use vibesurfer.Table.{get, text_eq-swap}
use vibesurfer.Prelude.{
  ℕ, Bool, true, false, List, [], ◌∷◌, none, ◌≡◌, refl, ◌∙◌, arith, any, all, All, Bool-cases, inl,
  inr,
}
use vibesurfer.Daemon.Fallible.{◌>>=◌, ◌>>◌, give, ok_or}
use vibesurfer.Daemon.Error.{absent, StoreError}
use vibesurfer.Daemon.Store.{Session, Store, statement, check, update_rows}
use vibesurfer.Daemon.Store.Sessions.{
  close_session, closes_session, mark_closed, set_closed, get_session,
}
use vibesurfer.Daemon.Store.Pages.{has_page}
use vibesurfer.Daemon.World.{World, Sessions, on_store}
use vibesurfer.Text.Laws.{text_eq_iff}
use vibesurfer.Daemon.Fallible.Keeps.{Keeps, bind-Keeps}
use vibesurfer.Daemon.Invariant.{IsSession, IsValid}
use vibesurfer.Daemon.Invariant.Grow.{All-IsPage}
use vibesurfer.Daemon.Store.Laws.{statement-rows}

-- As `Grows`, but for the session that is closed.
pub record GrowsBut (sid : Text) (s t : Store) : Type 0 where
  pub keeps_others :
      (k : Text)
      → text_eq sid k ≡ false
      → any (closes_session k) s.sessions ≡ true
      → any (closes_session k) t.sessions ≡ true
  pub keeps_keys : IsKeyed s.sessions → IsKeyed t.sessions
  pub keeps_pages : (pid : Text) → has_page pid s.pages ≡ true → has_page pid t.pages ≡ true

closes_other :
    (sid k : Text) (row : Session)
    → text_eq sid k ≡ false
    → closes_session sid row ≡ true
    → closes_session k row ≡ false
unfolding closes_session
closes_other sid k row differs h =
    let owned : text_eq row.id sid ≡ true = ground arith in
    let other : text_eq row.id k ≡ false = rw ((text_eq_iff row.id sid).0 owned) differs in rw other

mark_closed-other :
    (sid k : Text) (now : ℕ) (row : Session)
    → text_eq sid k ≡ false
    → closes_session sid row ≡ true
    → closes_session k (mark_closed now row) ≡ false
unfolding closes_session
mark_closed-other sid k now row differs h = ground arith

closed-others :
    (sid k : Text) (now : ℕ) (rows : List Session)
    → text_eq sid k ≡ false
    → any (closes_session k) (update_rows (closes_session sid) (mark_closed now) rows)
      ≡ any (closes_session k) rows
unfolding update_rows
closed-others sid k now [] differs = refl
closed-others sid k now (row ∷ rows) differs = elim (Bool-cases (closes_session sid row)) [
  | inl e ↦ rw (
    e,
    mark_closed-other sid k now row differs e,
    closes_other sid k row differs e,
    closed-others sid k now rows differs,
  )
  | inr e ↦ rw (e, closed-others sid k now rows differs)
]

closed-has :
    (sid id : Text) (now : ℕ) (rows : List Session)
    → has_session id (update_rows (closes_session sid) (mark_closed now) rows) ≡ has_session id rows
unfolding update_rows
closed-has sid id now [] = refl
closed-has sid id now (row ∷ rows) = elim (Bool-cases (closes_session sid row)) [
  | inl e ↦ rw (e, closed-has sid id now rows)
  | inr e ↦ rw (e, closed-has sid id now rows)
]

closed-IsKeyed :
    (sid : Text) (now : ℕ) (rows : List Session)
    → IsKeyed rows
    → IsKeyed (update_rows (closes_session sid) (mark_closed now) rows)
unfolding update_rows
closed-IsKeyed sid now [] h = tt
closed-IsKeyed sid now (row ∷ rows) h = elim (Bool-cases (closes_session sid row)) [
  | inl e ↦ rw e (closed-has sid row.id now rows ∙ h.0, closed-IsKeyed sid now rows h.1)
  | inr e ↦ rw e (closed-has sid row.id now rows ∙ h.0, closed-IsKeyed sid now rows h.1)
]

statement-But : (sid : Text) (base : Store) → Keeps (GrowsBut sid base) statement
statement-But sid base s g =
    let rows = statement-rows s in
    record {
      keeps_others = λ k differs h. rw rows.0 (g.keeps_others k differs h);
      keeps_keys = λ h. rw rows.0 (g.keeps_keys h);
      keeps_pages = λ pid h. rw rows.1 (g.keeps_pages pid h);
    }

set_closed-But :
    (sid : Text) (now : ℕ) (base : Store) → Keeps (GrowsBut sid base) (set_closed sid now)
set_closed-But sid now base s g = record {
  keeps_others =
      λ k differs h. closed-others sid k now s.sessions differs ∙ g.keeps_others k differs h;
  keeps_keys = λ h. closed-IsKeyed sid now s.sessions (g.keeps_keys h);
  keeps_pages = g.keeps_pages;
}

check-But :
    (sid : Text) (base : Store) (found : Bool) (why : StoreError)
    → Keeps (GrowsBut sid base) (check found why)
check-But sid base true why s g = g
check-But sid base false why s g = g

get_session-But : (sid : Text) (base : Store) → Keeps (GrowsBut sid base) (get_session sid)
unfolding get_session
get_session-But sid base =
    bind-Keeps (GrowsBut sid base) statement _ (statement-But sid base) (λ ran s g. g)

pub close_session-But :
    (sid : Text) (now : ℕ) (base : Store) → Keeps (GrowsBut sid base) (close_session now sid)
unfolding close_session
close_session-But sid now base =
    let P = GrowsBut sid base in
    let missing = absent (codes "session") sid in
    bind-Keeps P statement
      (λ ran. set_closed sid now >>= λ found.
        check found missing >> (get_session sid >>= λ row. give (ok_or row missing)))
      (statement-But sid base)
      (λ ran.
        bind-Keeps P (set_closed sid now)
          (λ found. check found missing >> (get_session sid >>= λ row. give (ok_or row missing)))
          (set_closed-But sid now base)
          (λ found.
            bind-Keeps P (check found missing)
              (λ checked. get_session sid >>= λ row. give (ok_or row missing))
              (check-But sid base found missing)
              (λ checked.
                bind-Keeps P (get_session sid) (λ row. give (ok_or row missing))
                  (get_session-But sid base) (λ row s g. g))))

All-but :
    (sid : Text) (s t : Store) (ss : Sessions)
    → GrowsBut sid s t
    → get ss sid ≡ none
    → All (IsSession s) ss
    → All (IsSession t) ss
unfolding get
All-but sid s t [] g gone all = tt
All-but sid s t ((k, x) ∷ ss) g gone all = elim (Bool-cases (text_eq k sid)) [
  | inl e ↦ absurd (let found = rw e at gone in cc)
  | inr e ↦ (
    (
      g.keeps_others k (text_eq-swap k sid e) all.0.0,
      all.0.1,
      All-IsPage s t x.pages g.keeps_pages all.0.2,
    ),
    All-but sid s t ss g (rw e at gone) all.1,
  )
]

pub close_session-Valid :
    (sid : Text) (now : ℕ) (w : World)
    → IsValid w
    → get w.sessions sid ≡ none
    → IsValid (on_store (close_session now sid) w).1
unfolding on_store
close_session-Valid sid now w (table, all) gone =
    let base : GrowsBut sid w.store w.store = record {
      keeps_others = λ k differs h. h;
      keeps_keys = λ h. h;
      keeps_pages = λ pid h. h;
    } in
    (
      (table.0, (close_session-But sid now w.store w.store base).keeps_keys table.1),
      All-but sid w.store (close_session now sid w.store).1 w.sessions
          (close_session-But sid now w.store w.store base) gone all,
    )

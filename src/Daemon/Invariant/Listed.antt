-- ===== src/Daemon/Invariant/Listed.antt =====
-- The rows that a statement lists are rows of the table, each once.
use vibesurfer.Prelude.{
  Bool, true, false, ◌||◌, List, [], ◌∷◌, ◌≡◌, refl, ap, ◌∙◌, arith, any, All, filterb, Bool-cases,
  inl, inr,
}
use vibesurfer.Text.{Text, text_eq}
use vibesurfer.Table.{text_eq-swap}
use vibesurfer.Text.Laws.{text_eq_refl}
use vibesurfer.Daemon.Pending.{sort, place}
use vibesurfer.Daemon.Store.{Session, Page, is_opened, has_session}
use vibesurfer.Daemon.Store.Sessions.{closes_session}
use vibesurfer.Daemon.Store.Pages.{has_page}
use vibesurfer.Daemon.Invariant.{IsKeyed}

module _ {A : Type 0} where
  pub All-weaken : (P Q : A → Type 0) (xs : List A) → ((x : A) → P x → Q x) → All P xs → All Q xs
  All-weaken P Q [] f h = tt
  All-weaken P Q (x ∷ xs) f h = (f x h.0, All-weaken P Q xs f h.1)

  pub All-kept : (P : A → Type 0) (p : A → Bool) (xs : List A) → All P xs → All P (filterb p xs)
  All-kept P p [] h = tt
  All-kept P p (x ∷ xs) h = elim (Bool-cases (p x)) [
    | inl e ↦ rw e (h.0, All-kept P p xs h.1)
    | inr e ↦ rw e (All-kept P p xs h.1)
  ]

  All-placed :
      (P : A → Type 0) (lt : A → A → Bool) (x : A) (ys : List A)
      → P x
      → All P ys
      → All P (place lt x ys)
  unfolding place
  All-placed P lt x [] h k = (h, tt)
  All-placed P lt x (y ∷ ys) h k = elim (Bool-cases (lt y x)) [
    | inl e ↦ rw e (k.0, All-placed P lt x ys h k.1)
    | inr e ↦ rw e (h, (k.0, k.1))
  ]

  pub All-sorted :
      (P : A → Type 0) (lt : A → A → Bool) (xs : List A) → All P xs → All P (sort lt xs)
  unfolding sort
  All-sorted P lt [] h = tt
  All-sorted P lt (x ∷ xs) h = All-placed P lt x (sort lt xs) h.0 (All-sorted P lt xs h.1)

-- Each row of a table is found in it.
unfoldable pub Here : List Page → Page → Type 0
Here rows row = has_page row.id rows ≡ true

pub All-Here : (rows : List Page) → All (Here rows) rows
unfolding Here
All-Here [] = tt
All-Here (row ∷ rows) = (
  rw (text_eq_refl row.id),
  All-weaken (Here rows) (Here (row ∷ rows)) rows (λ x h. ground (arith, h)) (All-Here rows),
)

-- An open row makes its session one that can be closed.
unfoldable pub Closes : List Session → Session → Type 0
Closes rows row = is_opened row.status ≡ true → any (closes_session row.id) rows ≡ true

pub All-Closes : (rows : List Session) → All (Closes rows) rows
unfolding Closes closes_session
All-Closes [] = tt
All-Closes (row ∷ rows) = (
  λ live. rw (text_eq_refl row.id, live) refl,
  All-weaken (Closes rows) (Closes (row ∷ rows)) rows
      (λ x h live. let later = h live in ground (arith, later)) (All-Closes rows),
)

has-placed :
    (lt : Session → Session → Bool) (id : Text) (row : Session) (rows : List Session)
    → has_session id (place lt row rows) ≡ has_session id (row ∷ rows)
unfolding place
has-placed lt id row [] = refl
has-placed lt id row (r ∷ rows) = elim (Bool-cases (lt r row)) [
  | inl e ↦ rw (e, has-placed lt id row rows) (ground arith)
  | inr e ↦ rw e
]

has-sorted :
    (lt : Session → Session → Bool) (id : Text) (rows : List Session)
    → has_session id (sort lt rows) ≡ has_session id rows
unfolding sort
has-sorted lt id [] = refl
has-sorted lt id (row ∷ rows) =
    has-placed lt id row (sort lt rows) ∙ ap (λ b. text_eq row.id id || b) (has-sorted lt id rows)

placed-IsKeyed :
    (lt : Session → Session → Bool) (row : Session) (rows : List Session)
    → has_session row.id rows ≡ false
    → IsKeyed rows
    → IsKeyed (place lt row rows)
unfolding place
placed-IsKeyed lt row [] new h = (refl, tt)
placed-IsKeyed lt row (r ∷ rows) new h = elim (Bool-cases (lt r row)) [
  | inl e ↦
      let apart : text_eq r.id row.id ≡ false = ground (arith, new) in
      let later : has_session row.id rows ≡ false = ground (arith, new) in
      rw e (
        has-placed lt r.id row rows ∙ rw (text_eq-swap r.id row.id apart) h.0,
        placed-IsKeyed lt row rows later h.1,
      )
  | inr e ↦ rw e (new, h)
]

pub sorted-IsKeyed :
    (lt : Session → Session → Bool) (rows : List Session) → IsKeyed rows → IsKeyed (sort lt rows)
unfolding sort
sorted-IsKeyed lt [] h = tt
sorted-IsKeyed lt (row ∷ rows) h =
    placed-IsKeyed lt row (sort lt rows) (has-sorted lt row.id rows ∙ h.0)
      (sorted-IsKeyed lt rows h.1)

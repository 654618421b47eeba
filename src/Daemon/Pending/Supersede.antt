-- ===== src/Daemon/Pending/Supersede.antt =====
-- What a fresh ask does to the forms that are queued.
use vibesurfer.Prelude.{
  ℕ, Bool, true, false, not, ◌&&◌, List, [], ◌∷◌, ◌++◌, Option, none, some, ◌≡◌, refl, ap, ◌∙◌,
  arith, Bool-cases, Option-cases, inl, inr,
}
use vibesurfer.Text.{Text, text_eq}
use vibesurfer.Text.Laws.{text_eq_iff, text_eq_refl}
use vibesurfer.Table.{get}
use vibesurfer.Daemon.Pending.{
  PendingEntry, FulfillState, pending, cancelled, fulfilled, Value, Queue, is_pending, sort, Forms,
  survey_state, survey_form, survey, has_text, field_lt, same_refs, dead_forms, bury, bury_all,
  supersede,
}

abbrev bury_some : List Text → Option Value → Option Value
bury_some dead none = none
bury_some dead (some v) = some (bury dead v)

pub get-bury_all :
    (dead : List Text) (q : Queue) (k : Text) {e : PendingEntry} {s : FulfillState}
    → get q k ≡ some (e, s)
    → get (bury_all dead q) k ≡ some (bury dead (e, s))
unfolding get bury_all
get-bury_all dead [] k x = cc
get-bury_all dead ((l, w) ∷ q) k {e} {s} x = elim (Bool-cases (text_eq l k)) [
  | inl m ↦ rw m (let here : some w ≡ some (e, s) = rw m at x in ap (bury_some dead) here)
  | inr m ↦ rw m (get-bury_all dead q k (rw m at x))
]

has_text-append :
    (f g : Text) (touched : List Text)
    → has_text f touched ≡ true
    → has_text f (touched ++ g ∷ []) ≡ true
has_text-append f g [] h = cc
has_text-append f g (d ∷ ds) h = ground (arith, has_text-append f g ds)

has_text-last : (f : Text) (touched : List Text) → has_text f (touched ++ f ∷ []) ≡ true
has_text-last f [] = rw (text_eq_refl f)
has_text-last f (d ∷ ds) = ground (arith, has_text-last f ds)

survey_form-touched :
    (form : Option Text) (here : Bool) (s : FulfillState) (f : Text) (field : ℕ × ℕ)
    (acc : Forms × List Text)
    → has_text f acc.1 ≡ true
    → has_text f (survey_form form here s field acc).1 ≡ true
survey_form-touched none here s f field acc h = h
survey_form-touched (some g) false s f field acc h = h
survey_form-touched (some g) true pending f field (forms, touched) h = h
survey_form-touched (some g) true cancelled f field (forms, touched) h =
    has_text-append f g touched h
survey_form-touched (some g) true (fulfilled v) f field (forms, touched) h =
    has_text-append f g touched h

survey_state-answered :
    (s : FulfillState) (f : Text) (field : ℕ × ℕ) (acc : Forms × List Text)
    → is_pending s ≡ false
    → has_text f (survey_state s f field acc).1 ≡ true
survey_state-answered pending f field acc h = absurd (ground arith)
survey_state-answered cancelled f field (forms, touched) h = has_text-last f touched
survey_state-answered (fulfilled v) f field (forms, touched) h = has_text-last f touched

survey_form-answered :
    (form : Option Text) (here : Bool) (s : FulfillState) (f : Text) (field : ℕ × ℕ)
    (acc : Forms × List Text)
    → form ≡ some f
    → here ≡ true
    → is_pending s ≡ false
    → has_text f (survey_form form here s field acc).1 ≡ true
survey_form-answered form here s f field acc named on_page h =
    rw (named, on_page) (survey_state-answered s f field acc h)

abbrev survey_value : Text → Forms × List Text → Option Value → List Text
survey_value page acc none = []
survey_value page acc (some (e, s)) =
    (survey_form e.form (text_eq e.page page) s (e.form_index, e.r) acc).1

-- A form that was touched stays so to the end of the loop.
survey-touched :
    (page f : Text) (q : Queue) (acc : Forms × List Text)
    → has_text f acc.1 ≡ true
    → has_text f (survey page q acc).1 ≡ true
unfolding survey
survey-touched page f [] acc h = h
survey-touched page f ((k, (e, s)) ∷ q) acc h =
    survey-touched page f q _
      (survey_form-touched e.form (text_eq e.page page) s f (e.form_index, e.r) acc h)

-- An answered entry of the page touches its form.
survey-answered :
    (page f : Text) (q : Queue) (acc : Forms × List Text) (k : Text) {e : PendingEntry}
    {s : FulfillState}
    → get q k ≡ some (e, s)
    → e.page ≡ page
    → e.form ≡ some f
    → is_pending s ≡ false
    → has_text f (survey page q acc).1 ≡ true
unfolding survey get
survey-answered page f [] acc k x here named answered = cc
survey-answered page f ((l, (g, t)) ∷ q) acc k {e} {s} x here named answered =
    elim (Bool-cases (text_eq l k)) [
      | inl m ↦
          let same : some (g, t) ≡ some (e, s) = rw m at x in
          survey-touched page f q _ (
            ap (λ o. has_text f (survey_value page acc o)) same
            ∙ survey_form-answered e.form (text_eq e.page page) s f (e.form_index, e.r) acc named
                ((text_eq_iff e.page page).1 here) answered)
      | inr m ↦ survey-answered page f q _ k (rw m at x) here named answered
    ]

touched-dead_forms :
    (refs : List ℕ) (forms : Forms) (touched : List Text) (f : Text)
    → has_text f touched ≡ true
    → has_text f (dead_forms refs (forms, touched)) ≡ false
unfolding dead_forms
touched-dead_forms refs [] touched f h = refl
touched-dead_forms refs ((g, fields) ∷ forms) touched f h =
    elim (Bool-cases (not (has_text g touched) && same_refs (sort field_lt fields) refs)) [
      | inl x ↦ rw x (elim (Bool-cases (text_eq g f)) [
        | inl same ↦
            let kept : has_text g touched ≡ true = rw ((text_eq_iff g f).0 same) h in
            absurd (ground arith)
        | inr e ↦ rw e (touched-dead_forms refs forms touched f h)
      ])
      | inr x ↦ rw x (touched-dead_forms refs forms touched f h)
    ]

-- If an entry of a page has been answered, a fresh ask on the page leaves it as it is.
pub get-supersede :
    (page : Text) (refs : List ℕ) (q : Queue) (k : Text) {e : PendingEntry} {s : FulfillState}
    → get q k ≡ some (e, s)
    → e.page ≡ page
    → is_pending s ≡ false
    → get (supersede page refs q).1 k ≡ some (e, s)
unfolding supersede
get-supersede page refs q k {e} {s} x here answered =
    get-bury_all _ q k x ∙ elim (Option-cases e.form) [
      | inl none_named ↦ rw none_named
      | inr (f, named) ↦ rw (
        named,
        touched-dead_forms refs (survey page q ([], [])).0 (survey page q ([], [])).1 f
            (survey-answered page f q ([], []) k x here named answered),
      )
    ]

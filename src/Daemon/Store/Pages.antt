-- ===== src/Daemon/Store/Pages.antt =====
-- crates/vs-store/src/store/pages.rs.
use vibesurfer.Prelude.{
  ℕ, Bool, ◌&&◌, List, [], ◌∷◌, ◌++◌, Option, none, some, any, if◌then◌else◌, ltb, filterb, or_else,
}
use vibesurfer.Text.{Text, codes, text_eq}
use vibesurfer.Daemon.Fallible.{ok, err, ◌>>=◌, ◌>>◌}
use vibesurfer.Daemon.Store.{Page, S, statement, update_rows, is_none, first, check, has_session}
use vibesurfer.Daemon.Error.{sqlite, absent}
use vibesurfer.Daemon.Pending.{sort}

unfoldable pub page_row : Text → Text → Text → ℕ → Page
page_row id session_id url now = record {
  id = id;
  session_id = session_id;
  url = url;
  title = none;
  last_token = none;
  last_dom_hash = none;
  last_seen_at = now;
  closed_at = none;
}

abbrev pub has_page : Text → List Page → Bool
has_page id = any (λ row. text_eq row.id id)

abbrev pub insert_page : Page → S Page
insert_page row s =
    if has_page row.id s.pages
    then (err (sqlite (codes "UNIQUE constraint failed: pages.id")), s)
    else if has_session row.session_id s.sessions
    then (ok row, record s { pages = s.pages ++ row ∷ [] })
    else (err (sqlite (codes "FOREIGN KEY constraint failed")), s)

unfoldable pub create_page : ℕ → Text → Text → Text → S Page
create_page now id session_id url = do statement; insert_page (page_row id session_id url now)

-- `UPDATE pages` with the test on `n`.
unfoldable pub update_page : (Page → Bool) → (Page → Page) → Text → S (Unit {0})
update_page p f id = do
  statement
  found ← λ s. (ok (any p s.pages), record s { pages = update_rows p f s.pages })
  check found (absent (codes "page") id)

unfoldable pub close_page : ℕ → Text → S (Unit {0})
close_page now id =
    update_page (λ row. text_eq row.id id && is_none row.closed_at)
      (λ row. record row { closed_at = some now }) id

-- `title` is `COALESCE(?5, title)`.
unfoldable pub update_page_token : ℕ → Text → Text → Text → Option Text → S (Unit {0})
update_page_token now id token dom_hash title =
    update_page (λ row. text_eq row.id id)
      (λ row. record row {
        last_token = some token;
        last_dom_hash = some dom_hash;
        last_seen_at = now;
        title = or_else title row.title;
      })
      id

unfoldable pub update_page_url : ℕ → Text → Text → S (Unit {0})
update_page_url now id url =
    update_page (λ row. text_eq row.id id) (λ row. record row { url = url; last_seen_at = now }) id

unfoldable pub get_page : Text → S (Option Page)
get_page id = do statement; λ s. (ok (first (filterb (λ row. text_eq row.id id) s.pages)), s)

unfoldable pub list_pages : Text → S (List Page)
list_pages session_id = do
  statement
  λ s. (
    ok (
        sort (λ a b. ltb b.last_seen_at a.last_seen_at)
          (filterb (λ row. text_eq row.session_id session_id) s.pages)),
    s,
  )

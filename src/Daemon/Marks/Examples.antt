-- ===== src/Daemon/Marks/Examples.antt =====
-- A mark whose ref is gone, found again by its role and label.
use vibesurfer.Text.Decimal
use vibesurfer.Prelude.{true, [], ◌∷◌, some, ◌≡◌, refl, any}
use vibesurfer.Text.{codes, text_eq}
use vibesurfer.Table.{get}
use vibesurfer.Protocol.Tree.Nodes.{size, append}
use vibesurfer.Protocol.Tree.Iter.{collect, next}
use vibesurfer.Protocol.Codes.{role_str}
use vibesurfer.Daemon.World.{Sessions, find_page, find_session}
use vibesurfer.Daemon.PageState.{PageState, find_first, find_by, find_node}
use vibesurfer.Daemon.Marks.{
  Mark, get_mark, role_matches, label_matches, hint, after_last, aim, resolve_mark,
}
use vibesurfer.Daemon.Marks.Resolved.{is_target, resolve_mark-target}
use vibesurfer.Daemon.Examples.{page, tree}

abbrev greeting : Mark
greeting = record {
  id = codes "m_1";
  session_id = codes "s";
  page_id = codes "p";
  name = codes "greeting";
  dom_path = codes "doc#7";
  role = some (codes "doc");
  content_excerpt = some (codes "Hello");
  created_at = 3;
}

abbrev marked_page : PageState
marked_page = record page { last_tree = some tree }

abbrev marked_sessions : Sessions
marked_sessions =
    (codes "s", record { pages = (codes "p", marked_page) ∷ []; last_touched = 0 }) ∷ []

resolve_mark-target_example :
    (text_eq (codes "p") (codes "p") ≡ true)
    × (any (is_target greeting 1 true) (collect (size tree) tree) ≡ true)
resolve_mark-target_example =
    resolve_mark-target (greeting ∷ []) marked_sessions (codes "s") (codes "p") (codes "greeting")
      greeting marked_page tree 1 true (unfold get_mark text_eq in refl)
      (unfold find_page find_session get text_eq in refl) refl
      (unfold resolve_mark aim hint after_last get_mark find_page find_session find_node find_by
          find_first role_matches label_matches role_str collect size text_eq get Decimal.parse next
          append in
        refl)

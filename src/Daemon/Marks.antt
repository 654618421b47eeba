-- ===== src/Daemon/Marks.antt =====
-- Marks: the rows of crates/vs-store/src/store/marks.rs and `resolve_mark` of
-- crates/vs-daemon/src/daemon/store_ops.rs. The rows are an argument; a statement that fails is not
-- modelled here.
pub mod Resolved
mod Examples
use vibesurfer.Prelude.{
  ℕ, ◌⊎◌, zero, suc, ◌+◌, ◌-◌, ◌*◌, ◌/◌, ◌%◌, ◌^◌, ◌<◌, ◌≤◌, Bool, true, false, not, ◌&&◌, ◌||◌,
  List, [], ◌∷◌, ◌++◌, Option, none, some, ◌≡◌, refl, sym, ap, ◌∙◌, ◌≢◌, ◌↔◌, arith, ◌==◌, any, all,
  All, map, length, if◌then◌else◌, ltb, leb, filterb, Bool-cases, Option-cases, inl, inr,
  append_assoc, append-nil, drop, take, or_else, max, min, length-append,
}
use vibesurfer.Text.{Text, codes, text_eq, text_lt, split_once}
use vibesurfer.Table.{get, put, remove, write}
use vibesurfer.Text.Decimal.{u32_mod}
use vibesurfer.Protocol.Tree.Nodes.{Node}
use vibesurfer.Protocol.Codes.{role_str}
use vibesurfer.Daemon.Error.{DaemonError, bad, unknown_mark}
use vibesurfer.Daemon.Fallible.{Outcome, ok, err, ok_or, then_try}
use vibesurfer.Daemon.World.{Sessions, find_page}
use vibesurfer.Daemon.Store.{first}
use vibesurfer.Daemon.PageState.{PageState, find_by, find_node}
use vibesurfer.Text.Decimal

pub record Mark : Type 0 where
  pub id : Text
  pub session_id : Text
  pub page_id : Text
  pub name : Text
  pub dom_path : Text
  pub role : Option Text
  pub content_excerpt : Option Text
  pub created_at : ℕ

unfoldable pub get_mark : List Mark → Text → Text → Option Mark
get_mark rows session_id name =
    first (filterb (λ m. text_eq m.session_id session_id && text_eq m.name name) rows)

abbrev pub later_or : Text → Option Text → Option Text
later_or cs none = some cs
later_or cs (some later) = some later

-- The part of `rsplit_once` behind the last separator.
unfoldable pub after_last : ℕ → Text → Option Text
after_last sep [] = none
after_last sep (c ∷ cs) =
    let later = after_last sep cs in if c == sep then later_or cs later else later

abbrev pub parse_hint : Option Text → Option ℕ
parse_hint none = none
parse_hint (some r) = Decimal.parse u32_mod r

-- The ref that the mark was taken at.
unfoldable pub hint : Mark → Option ℕ
hint mark = parse_hint (after_last b'#' mark.dom_path)

abbrev pub is_none_or : (Text → Bool) → Option Text → Bool
is_none_or p none = true
is_none_or p (some t) = p t

abbrev pub is_some_and : {A : Type 0} → (A → Bool) → Option A → Bool
is_some_and p none = false
is_some_and p (some a) = p a

unfoldable pub role_matches : Mark → Node → Bool
role_matches mark n = is_none_or (λ role. text_eq (role_str n.role) role) mark.role

unfoldable pub label_matches : Mark → Node → Bool
label_matches mark n = is_some_and (λ l. text_eq n.label l) mark.content_excerpt

-- The recorded ref, where a node of the mark's role still has it.
abbrev pub hinted : PageState → Mark → Option ℕ → Option ℕ
hinted p mark none = none
hinted p mark (some r) = if is_some_and (role_matches mark) (find_node p r) then some r else none

abbrev pub reaim : Text → Option Node → Outcome DaemonError (ℕ × Bool)
reaim name none = err (unknown_mark (name ++ codes " (no matching element)"))
reaim name (some n) = ok (n.r, true)

abbrev pub or_reaim : PageState → Mark → Text → Option ℕ → Outcome DaemonError (ℕ × Bool)
or_reaim p mark name (some r) = ok (r, false)
or_reaim p mark name none =
    reaim name (find_by p (λ n. role_matches mark n && label_matches mark n))

-- The search in the page that the mark is on.
unfoldable pub aim : PageState → Mark → Text → Outcome DaemonError (ℕ × Bool)
aim p mark name = or_reaim p mark name (hinted p mark (hint mark))

abbrev pub text_elsewhere : Text → Text → Text → Text
text_elsewhere name there pid =
    codes "mark " ++ name ++ codes " belongs to page " ++ there ++ codes ", not " ++ pid

unfoldable pub resolve_mark :
    List Mark → Sessions → Text → Text → Text → Outcome DaemonError (ℕ × Bool)
resolve_mark rows ss sid pid name =
    then_try (ok_or (get_mark rows sid name) (unknown_mark name)) (λ mark.
      if text_eq mark.page_id pid
      then then_try (find_page sid pid ss) (λ p. aim p mark name)
      else err (bad (text_elsewhere name mark.page_id pid)))

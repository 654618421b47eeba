-- ===== src/Daemon/Marks/Resolved.antt =====
-- What a resolved mark points at.
use vibesurfer.Prelude.{
  ℕ, Bool, true, false, not, ◌&&◌, ◌||◌, List, [], ◌∷◌, none, some, ◌≡◌, sym, arith, ◌==◌, any,
  Bool-cases, Option-cases, inl, inr,
}
use vibesurfer.Text.{Text, text_eq}
use vibesurfer.Protocol.Tree.Nodes.{Forest, Node, size}
use vibesurfer.Protocol.Tree.Iter.{collect}
use vibesurfer.Daemon.Fallible.{ok}
use vibesurfer.Daemon.World.{Sessions, find_page}
use vibesurfer.Daemon.PageState.{PageState, find_first, find_by, find_node}
use vibesurfer.Daemon.Marks.{
  Mark, get_mark, role_matches, label_matches, hint, or_reaim, aim, is_some_and, resolve_mark,
}

-- A node with the ref and the role, and with the label where the mark was aimed anew.
unfoldable pub is_target : Mark → ℕ → Bool → Node → Bool
is_target mark r moved n = n.r == r && role_matches mark n && (not moved || label_matches mark n)

found-any :
    (p q : Node → Bool) (ns : List Node) (n : Node)
    → find_first p ns ≡ some n
    → (p n ≡ true → q n ≡ true)
    → any q ns ≡ true
unfolding find_first
found-any p q [] n h holds = ground arith
found-any p q (m ∷ ms) n h holds = elim (Bool-cases (p m)) [
  | inl e ↦
      let same : m ≡ n = ground arith in
      let yes : q m ≡ true = rw same (holds (rw same at e)) in ground arith
  | inr e ↦ let later = found-any p q ms n (rw e at h) holds in ground arith
]

found_by-any :
    (p : PageState) (t : Forest) (pred q : Node → Bool) (n : Node)
    → p.last_tree ≡ some t
    → find_by p pred ≡ some n
    → (pred n ≡ true → q n ≡ true)
    → any q (collect (size t) t) ≡ true
unfolding find_by
found_by-any p t pred q n known found holds =
    found-any pred q (collect (size t) t) n (rw known at found) holds

-- The search by role and label.
reaimed-target :
    (p : PageState) (t : Forest) (mark : Mark) (name : Text) (r : ℕ) (moved : Bool)
    → p.last_tree ≡ some t
    → or_reaim p mark name none ≡ ok (r, moved)
    → any (is_target mark r moved) (collect (size t) t) ≡ true
unfolding is_target
reaimed-target p t mark name r moved known h =
    let pred : Node → Bool = λ n. role_matches mark n && label_matches mark n in
    elim (Option-cases (find_by p pred)) [
      | inl e ↦ absurd (let no = rw e at h in ground (arith, no))
      | inr (n, e) ↦
          let yes = rw e at h in
          let at_r : n.r ≡ r = ground (arith, yes) in
          let anew : moved ≡ true = ground (arith, yes) in
          found_by-any p t pred (is_target mark r moved) n known e (λ both. ground (arith, both))
    ]

-- The recorded ref.
hinted-target :
    (p : PageState) (t : Forest) (mark : Mark) (r : ℕ)
    → p.last_tree ≡ some t
    → is_some_and (role_matches mark) (find_node p r) ≡ true
    → any (is_target mark r false) (collect (size t) t) ≡ true
unfolding is_target find_node
hinted-target p t mark r known h =
    let pred : Node → Bool = λ n. n.r == r in
    elim (Option-cases (find_by p pred)) [
      | inl e ↦ absurd (let no = rw e at h in ground (arith, no))
      | inr (n, e) ↦
          let role = rw e at h in
          found_by-any p t pred (is_target mark r false) n known e (λ same. ground (arith, same))
    ]

aim-target :
    (p : PageState) (t : Forest) (mark : Mark) (name : Text) (r : ℕ) (moved : Bool)
    → p.last_tree ≡ some t
    → aim p mark name ≡ ok (r, moved)
    → any (is_target mark r moved) (collect (size t) t) ≡ true
unfolding aim
aim-target p t mark name r moved known h = elim (Option-cases (hint mark)) [
  | inl e ↦ reaimed-target p t mark name r moved known (rw e at h)
  | inr (s, e) ↦
      let hinted_aim = rw e at h in
      elim (Bool-cases (is_some_and (role_matches mark) (find_node p s))) [
        | inl there ↦
            let got = rw there at hinted_aim in
            let same : s ≡ r = ground (arith, got) in
            let still : false ≡ moved = ground (arith, got) in
            rw (sym same, sym still) (hinted-target p t mark s known there)
        | inr gone ↦ reaimed-target p t mark name r moved known (rw gone at hinted_aim)
      ]
]

-- If the session has the mark, the last tree of the page is known, and `resolve_mark` answers with a
-- ref, then the mark was taken on this page, and some node of the tree has that ref and the mark's
-- role, where the mark has one; when the answer says that the mark was aimed anew, that node also has
-- exactly the mark's label.
pub resolve_mark-target :
    (rows : List Mark) (ss : Sessions) (sid pid name : Text) (mark : Mark) (p : PageState)
    (t : Forest) (r : ℕ) (moved : Bool)
    → get_mark rows sid name ≡ some mark
    → find_page sid pid ss ≡ ok p
    → p.last_tree ≡ some t
    → resolve_mark rows ss sid pid name ≡ ok (r, moved)
    → (text_eq mark.page_id pid ≡ true) × (any (is_target mark r moved) (collect (size t) t) ≡ true)
unfolding resolve_mark
resolve_mark-target rows ss sid pid name mark p t r moved found here known h =
    let on_mark = rw found at h in
    elim (Bool-cases (text_eq mark.page_id pid)) [
      | inl e ↦ (e, aim-target p t mark name r moved known (rw here at rw e at on_mark))
      | inr e ↦ absurd (let no = rw e at on_mark in ground (arith, no))
    ]

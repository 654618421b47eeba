-- ===== src/Daemon/PageState/Snapshot.antt =====
-- What the agent can conclude from the form of a view.
use vibesurfer.Prelude.{
  Bool, true, false, not, ◌&&◌, [], ◌∷◌, ◌++◌, Option, none, some, ◌≡◌, refl, sym, ap, ◌∙◌, ◌≢◌,
  arith, length, Bool-cases, inl, inr, length-append,
}
use vibesurfer.Text.{Text}
use vibesurfer.Text.Laws.{text_eq_iff, text_eq_refl}
use vibesurfer.Protocol.Error.{ok}
use vibesurfer.Protocol.Tree.Nodes.{Forest, size}
use vibesurfer.Protocol.Tree
use vibesurfer.Protocol.Tree.RoundTrip.{AllWire, parse-encode_tree}
use vibesurfer.Protocol.Envelope.Token.{StateToken}
use vibesurfer.Protocol.Tree.Iter.{collect}
use vibesurfer.Daemon.PageState.{
  full, invalidate_baseline, view_form, same_token, canonical, compute, apply_snapshot, no_change,
  PageState, see_all,
}

-- The token of the page is that of its tree.
abbrev pub Holds : (Text → StateToken) → PageState → Forest → Type 0
Holds hash p t = (p.last_tree ≡ some t) × (p.last_token ≡ some (compute hash t p.url p.id))

append-cancel : (s t : Text) (u : Text) → s ++ u ≡ t ++ u → s ≡ t
append-cancel [] [] u h = refl
append-cancel [] (d ∷ t) u h = absurd (omega (arith, ap (λ l. length l) h, length-append {0} t u))
append-cancel (c ∷ s) [] u h = absurd (omega (arith, ap (λ l. length l) h, length-append {0} s u))
append-cancel (c ∷ s) (d ∷ t) u h =
    let tails : s ++ u ≡ t ++ u = cc in
    let heads : c ≡ d = cc in let rests = append-cancel s t u tails in cc

-- Two trees that the wire carries have the same canonical text for a page only if they are equal.
canonical-injective :
    (t u : Forest) (url id : Text)
    → AllWire t
    → AllWire u
    → canonical t url id ≡ canonical u url id
    → t ≡ u
unfolding canonical
canonical-injective t u url id ht hu h =
    let same = append-cancel (Tree.encode t) (Tree.encode u) (0 ∷ (url ++ (0 ∷ id))) h in
    let parsed : ok t ≡ ok u =
      sym (parse-encode_tree t ht) ∙ (ap Tree.parse same ∙ parse-encode_tree u hu) in
    cc

-- The page after a snapshot with news.
abbrev pub after : (Text → StateToken) → PageState → Forest → PageState
after hash p t = record p {
  last_tree = some t;
  last_token = some (compute hash t p.url p.id);
  force_full = false;
  seen_refs = see_all (collect (size t) t) p.seen_refs;
}

pub snapshot_same :
    (hash : Text → StateToken) (p : PageState) (t : Forest)
    → (not p.force_full && same_token p.last_token (compute hash t p.url p.id)) ≡ true
    → apply_snapshot hash p t ≡ ((compute hash t p.url p.id, no_change), p)
unfolding apply_snapshot
snapshot_same hash p t b = rw b

pub snapshot_changed :
    (hash : Text → StateToken) (p : PageState) (t : Forest)
    → (not p.force_full && same_token p.last_token (compute hash t p.url p.id)) ≡ false
    → apply_snapshot hash p t
      ≡ ((compute hash t p.url p.id, view_form p.last_tree p.force_full t), after hash p t)
unfolding apply_snapshot
snapshot_changed hash p t b = rw b

view_form-change : (o : Option Forest) (force : Bool) (t : Forest) → view_form o force t ≢ no_change
view_form-change none force t h = cc
view_form-change (some u) true t h = cc
view_form-change (some u) false t h = cc

view_form-full : (o : Option Forest) (t : Forest) → view_form o true t ≡ full t
view_form-full none t = refl
view_form-full (some u) t = refl

snapshot_forced :
    (hash : Text → StateToken) (p : PageState) (t : Forest)
    → (apply_snapshot hash (invalidate_baseline p) t).0 ≡ (compute hash t p.url p.id, full t)
unfolding apply_snapshot invalidate_baseline
snapshot_forced hash p t = rw (view_form-full p.last_tree t)

same_tokens :
    (hash : Text → StateToken) (p : PageState) (t u : Forest)
    → Holds hash p t
    → same_token p.last_token (compute hash u p.url p.id) ≡ true
    → hash (canonical t p.url p.id) ≡ hash (canonical u p.url p.id)
unfolding compute
same_tokens hash p t u held same =
    (text_eq_iff (hash (canonical t p.url p.id)) (hash (canonical u p.url p.id))).0
      (sym (ap (λ o. same_token o (compute hash u p.url p.id)) held.1) ∙ same)

-- If a snapshot is answered by `no_change`, the page's token is that of its tree, both trees are
-- ones that the wire carries, and the hash does not give the same token for the two different texts,
-- then the snapshot is the tree that the agent has, and the page is left as it was.
pub apply_snapshot-no_change :
    (hash : Text → StateToken) (p : PageState) (t u : Forest)
    → Holds hash p t
    → AllWire t
    → AllWire u
    → (hash (canonical t p.url p.id) ≡ hash (canonical u p.url p.id)
        → canonical t p.url p.id ≡ canonical u p.url p.id)
    → (apply_snapshot hash p u).0.1 ≡ no_change
    → (u ≡ t) × ((apply_snapshot hash p u).1 ≡ p)
apply_snapshot-no_change hash p t u held ht hu apart h =
    elim (Bool-cases (not p.force_full && same_token p.last_token (compute hash u p.url p.id))) [
      | inl b ↦
          let same : same_token p.last_token (compute hash u p.url p.id) ≡ true = ground arith in
          (
            sym (
                canonical-injective t u p.url p.id ht hu
                  (apart (same_tokens hash p t u held same))),
            ap (λ r. r.1) (snapshot_same hash p u b),
          )
      | inr b ↦ absurd (
          view_form-change p.last_tree p.force_full u
            (sym (ap (λ r. r.0.1) (snapshot_changed hash p u b)) ∙ h))
    ]

-- Whatever the page was, the same snapshot taken again is answered by `no_change` with the same
-- token and leaves the page as it is; and once the baseline is invalidated it is answered by the full
-- tree, with the same token.
pub apply_snapshot-twice :
    (hash : Text → StateToken) (p : PageState) (t : Forest)
    → (apply_snapshot hash (apply_snapshot hash p t).1 t
        ≡ (((apply_snapshot hash p t).0.0, no_change), (apply_snapshot hash p t).1))
      × ((apply_snapshot hash (invalidate_baseline (apply_snapshot hash p t).1) t).0
          ≡ ((apply_snapshot hash p t).0.0, full t))
apply_snapshot-twice hash p t =
    elim (Bool-cases (not p.force_full && same_token p.last_token (compute hash t p.url p.id))) [
      | inl b ↦ rw (snapshot_same hash p t b) (snapshot_same hash p t b, snapshot_forced hash p t)
      | inr b ↦ rw (snapshot_changed hash p t b) (
        snapshot_same hash (after hash p t) t (text_eq_refl (compute hash t p.url p.id)),
        snapshot_forced hash (after hash p t) t,
      )
    ]

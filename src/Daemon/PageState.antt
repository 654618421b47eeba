-- ===== src/Daemon/PageState.antt =====
-- crates/vs-daemon/src/page_state.rs, and the token of tokens.rs. The hash function is a parameter:
-- it gives the first eight bytes of the digest. The lock `mutate_lock` holds no data.
pub mod Snapshot
pub mod Kept
mod Examples
use vibesurfer.Prelude.{
  ℕ, zero, suc, ◌+◌, ◌-◌, ◌*◌, ◌^◌, ◌<◌, ◌≤◌, Bool, true, false, not, ◌&&◌, ◌||◌, List, [], ◌∷◌,
  ◌++◌, Option, none, some, ◌≡◌, refl, sym, ap, ◌∙◌, ◌≢◌, ◌↔◌, arith, ◌==◌, any, all, All, map,
  length, if◌then◌else◌, ltb, leb, filterb, Bool-cases, Option-cases, inl, inr, append_assoc,
  append-nil,
}
use vibesurfer.Text.{Text, text_eq, codes}
use vibesurfer.Protocol.Tree.Nodes.{Shell, Node, Forest, nil, node, size}
use vibesurfer.Protocol.Tree
use vibesurfer.Protocol.Tree.Iter.{collect}
use vibesurfer.Protocol.Delta.Ops.{DeltaOp}
use vibesurfer.Protocol.Delta.Diff.{diff}
use vibesurfer.Protocol.Envelope.Token.{StateToken}

pub record PageState : Type 0 where
  pub id : Text
  pub url : Text
  pub engine_handle : Option ℕ
  pub last_tree : Option Forest
  pub last_token : Option StateToken
  pub force_full : Bool
  pub seen_refs : List ℕ
  pub last_touched : ℕ

pub data ViewForm : Type 0 where
  full : Forest → ViewForm
  delta : List DeltaOp → ViewForm
  no_change : ViewForm

unfoldable pub new : Text → Text → ℕ → ℕ → PageState
new id url handle now = record {
  id = id;
  url = url;
  engine_handle = some handle;
  last_tree = none;
  last_token = none;
  force_full = true;
  seen_refs = [];
  last_touched = now;
}

unfoldable pub dormant : Text → Text → ℕ → PageState
dormant id url now = record {
  id = id;
  url = url;
  engine_handle = none;
  last_tree = none;
  last_token = none;
  force_full = true;
  seen_refs = [];
  last_touched = now;
}

unfoldable pub invalidate_baseline : PageState → PageState
invalidate_baseline p = record p { force_full = true }

-- What is hashed: the canonical tree, the URL and the page, with zeros between them.
unfoldable pub canonical : Forest → Text → Text → Text
canonical t url page_id = Tree.encode t ++ (0 ∷ (url ++ (0 ∷ page_id)))

-- `HashSet::insert`.
unfoldable pub see : ℕ → List ℕ → List ℕ
see r seen = if any (λ s. s == r) seen then seen else seen ++ r ∷ []

unfoldable pub see_all : List Node → List ℕ → List ℕ
see_all [] seen = seen
see_all (n ∷ ns) seen = see_all ns (see n.r seen)

abbrev pub same_token : Option StateToken → StateToken → Bool
same_token none token = false
same_token (some t) token = text_eq t token

abbrev pub view_form : Option Forest → Bool → Forest → ViewForm
view_form none force new_tree = full new_tree
view_form (some prev) true new_tree = full new_tree
view_form (some prev) false new_tree = delta (diff prev new_tree)

module _ (hash : Text → StateToken) where
  unfoldable pub compute : Forest → Text → Text → StateToken
  compute t url page_id = hash (canonical t url page_id)

  unfoldable pub apply_snapshot : PageState → Forest → (StateToken × ViewForm) × PageState
  apply_snapshot p new_tree =
      let token = compute new_tree p.url p.id in
      if not p.force_full && same_token p.last_token token then ((token, no_change), p) else (
        (token, view_form p.last_tree p.force_full new_tree),
        record p {
          last_tree = some new_tree;
          last_token = some token;
          force_full = false;
          seen_refs = see_all (collect (size new_tree) new_tree) p.seen_refs;
        },
      )

unfoldable pub find_first : (Node → Bool) → List Node → Option Node
find_first pred [] = none
find_first pred (n ∷ ns) = let later = find_first pred ns in if pred n then some n else later

unfoldable pub find_by : PageState → (Node → Bool) → Option Node
find_by p pred = elim p.last_tree [ none ↦ none | some t ↦ find_first pred (collect (size t) t) ]

unfoldable pub find_node : PageState → ℕ → Option Node
find_node p r = find_by p (λ n. n.r == r)

-- ===== src/Daemon/PageState/Examples.antt =====
-- Instances of the theorems on snapshots.
use vibesurfer.Prelude.{false, [], ◌∷◌, some, ◌≡◌, refl, arith}
use vibesurfer.Text.{Text, codes}
use vibesurfer.Text.Laws.{text_eq_refl}
use vibesurfer.Protocol.Codes.{doc}
use vibesurfer.Protocol.Tree.Nodes.{Shell, Forest, nil, node}
use vibesurfer.Protocol.Tree.Line.{IsWire}
use vibesurfer.Protocol.Envelope.Token.{StateToken}
use vibesurfer.Daemon.PageState.{
  PageState, new, compute, apply_snapshot, full, no_change, invalidate_baseline,
}
use vibesurfer.Daemon.PageState.Snapshot.{apply_snapshot-no_change, apply_snapshot-twice}

abbrev root_shell : Shell
root_shell = record { r = 1; role = doc; label = codes "Hello"; ops = []; attrs = [] }

abbrev tree : Forest
tree = node root_shell nil nil

root-IsWire : IsWire root_shell
root-IsWire = record {
  ref_fits = omega arith;
  label_fits = refl;
  ops_sorted = tt;
  attrs_fit = tt;
  attrs_sorted = tt;
}

-- A hash that keeps its whole input.
abbrev whole : Text → StateToken
whole s = s

abbrev seen_page : PageState
seen_page = record {
  id = codes "p";
  url = codes "u";
  engine_handle = some 1;
  last_tree = some tree;
  last_token = some (compute whole tree (codes "u") (codes "p"));
  force_full = false;
  seen_refs = 1 ∷ [];
  last_touched = 0;
}

unchanged : (apply_snapshot whole seen_page tree).0.1 ≡ no_change
unfolding apply_snapshot
unchanged = rw (text_eq_refl (compute whole tree (codes "u") (codes "p")))

apply_snapshot-no_change_example :
    (tree ≡ tree) × ((apply_snapshot whole seen_page tree).1 ≡ seen_page)
apply_snapshot-no_change_example =
    apply_snapshot-no_change whole seen_page tree tree (refl, refl) (root-IsWire, tt, tt)
      (root-IsWire, tt, tt) (λ same. same) unchanged

apply_snapshot-twice_example :
    (apply_snapshot whole (apply_snapshot whole (new (codes "p") (codes "u") 1 0) tree).1 tree ≡ (
      ((apply_snapshot whole (new (codes "p") (codes "u") 1 0) tree).0.0, no_change),
      (apply_snapshot whole (new (codes "p") (codes "u") 1 0) tree).1,
    ))
    × ((apply_snapshot whole
          (invalidate_baseline (apply_snapshot whole (new (codes "p") (codes "u") 1 0) tree).1)
          tree).0
        ≡ ((apply_snapshot whole (new (codes "p") (codes "u") 1 0) tree).0.0, full tree))
apply_snapshot-twice_example = apply_snapshot-twice whole (new (codes "p") (codes "u") 1 0) tree

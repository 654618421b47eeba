-- ===== src/Protocol/Tree/Examples.antt =====
-- Tests of the tree, and instances of its theorems.
use vibesurfer.Prelude.{[], ◌∷◌, ◌≡◌, refl, arith}
use vibesurfer.Text.{codes, text_lt}
use vibesurfer.Protocol.Error.{ok}
use vibesurfer.Protocol.Codes.{doc, btn, tf, click, fill, op_rank}
use vibesurfer.Protocol.Tree.Nodes.{Shell, Forest, nil, node, size}
use vibesurfer.Protocol.Tree.{encode, parse, assemble}
use vibesurfer.Protocol.Tree.Assemble.{entries, assemble-entries}
use vibesurfer.Protocol.Tree.Line.{IsWire}
use vibesurfer.Protocol.Tree.RoundTrip.{AllWire, parse-encode_tree}
use vibesurfer.Protocol.Tree.Iter.{collect, nodes, collect-nodes}

abbrev page_shell : Shell
page_shell = record { r = 1; role = doc; label = codes "Sign in"; ops = []; attrs = [] }

abbrev field_shell : Shell
field_shell = record {
  r = 2;
  role = tf;
  label = codes "";
  ops = click ∷ fill ∷ [];
  attrs = (codes "name", codes "user") ∷ (codes "value", codes "a b") ∷ [];
}

abbrev button_shell : Shell
button_shell = record { r = 3; role = btn; label = codes "go"; ops = click ∷ []; attrs = [] }

abbrev sample : Forest
sample = node page_shell (node field_shell nil (node button_shell nil nil)) nil

page-IsWire : IsWire page_shell
page-IsWire = record {
  ref_fits = omega arith;
  label_fits = refl;
  ops_sorted = tt;
  attrs_fit = tt;
  attrs_sorted = tt;
}

field-IsWire : IsWire field_shell
unfolding op_rank text_lt
field-IsWire = record {
  ref_fits = omega arith;
  label_fits = refl;
  ops_sorted = ((refl, tt), (tt, tt));
  attrs_fit = (((λ e. cc), refl, refl), (((λ e. cc), refl, refl), tt));
  attrs_sorted = ((refl, tt), (tt, tt));
}

button-IsWire : IsWire button_shell
button-IsWire = record {
  ref_fits = omega arith;
  label_fits = refl;
  ops_sorted = (tt, tt);
  attrs_fit = tt;
  attrs_sorted = tt;
}

sample-AllWire : AllWire sample
sample-AllWire = (page-IsWire, (field-IsWire, tt, (button-IsWire, tt, tt)), tt)

parse-encode_tree_example : parse (encode sample) ≡ ok sample
parse-encode_tree_example = parse-encode_tree sample sample-AllWire

assemble-entries_example : assemble (entries 0 sample) ≡ sample
assemble-entries_example = assemble-entries sample

collect-nodes_example : collect 3 sample ≡ nodes sample
collect-nodes_example = collect-nodes 3 sample (unfold size in omega arith)

-- ===== src/Protocol/Tree/Assemble.antt =====
-- The stack machine rebuilds every forest from its nodes in wire order with their depths.
use vibesurfer.Prelude.{ℕ, suc, false, List, [], ◌∷◌, ◌++◌, ◌≡◌, refl, ap, sym, ◌∙◌, arith, leb}
use vibesurfer.Protocol.Tree.Nodes
use vibesurfer.Protocol.Tree.Nodes.{
  Shell, Node, Forest, nil, node, push, append, append-push, preorder,
}
use vibesurfer.Protocol.Tree.{Entry, Open, add_child, close_top, close, open_node, place, assemble}

-- The nodes of a forest in wire order, each with its depth.
unfoldable pub entries : ℕ → Forest → List Entry
entries depth nil = []
entries depth (node s c rest) = (depth, s) ∷ (entries (suc depth) c ++ entries depth rest)

-- A finished node goes under the innermost open one, or to the roots.
abbrev attach : Node → Open → Open
attach n ([], roots) = ([], push roots n)
attach n ((outer, p) ∷ stack, roots) = ((outer, add_child p n) ∷ stack, roots)

abbrev attach_all : Forest → Open → Open
attach_all f ([], roots) = ([], append roots f)
attach_all f ((outer, p) ∷ stack, roots) =
    ((outer, record p { children = append p.children f }) ∷ stack, roots)

attach_all-nil : (st : Open) → attach_all nil st ≡ st
attach_all-nil ([], roots) = rw (Nodes.append-nil roots)
attach_all-nil ((outer, p) ∷ stack, roots) =
    ap (λ c. ((outer, record { shell = p.shell; children = c }) ∷ stack, roots))
      (Nodes.append-nil p.children)

attach_all-node :
    (s : Shell) (c rest : Forest) (st : Open)
    → attach_all rest (attach (record { shell = s; children = c }) st)
      ≡ attach_all (node s c rest) st
attach_all-node s c rest ([], roots) =
    ap (λ f. ([], f)) (append-push roots (record { shell = s; children = c }) rest)
attach_all-node s c rest ((outer, p) ∷ stack, roots) =
    ap (λ f. ((outer, record { shell = p.shell; children = f }) ∷ stack, roots))
      (append-push p.children (record { shell = s; children = c }) rest)

close_top-close :
    (d top : ℕ) (n : Node) (stack : List (ℕ × Node)) (roots : Forest)
    → close d (close_top (suc d) top n stack roots) ≡ close_top d top n stack roots
unfolding close close_top
close_top-close d top n [] roots = ground arith
close_top-close d top n ((outer, p) ∷ stack) roots =
    ground (arith, close_top-close d outer (add_child p n) stack roots)

-- Closing in two stages is closing at once.
close-close : (d : ℕ) (st : Open) → close d (close (suc d) st) ≡ close d st
unfolding close
close-close d ([], roots) = refl
close-close d ((top, n) ∷ stack, roots) = close_top-close d top n stack roots

-- What is left open lies above the depth.
abbrev IsOpenAbove : ℕ → Open → Type 0
IsOpenAbove d ([], roots) = Unit
IsOpenAbove d ((top, n) ∷ stack, roots) = leb d top ≡ false

close_top-IsOpenAbove :
    (d top : ℕ) (n : Node) (stack : List (ℕ × Node)) (roots : Forest)
    → IsOpenAbove d (close_top d top n stack roots)
unfolding close_top
close_top-IsOpenAbove d top n [] roots = ground arith
close_top-IsOpenAbove d top n ((outer, p) ∷ stack) roots =
    ground (arith, close_top-IsOpenAbove d outer (add_child p n) stack roots)

close-IsOpenAbove : (d : ℕ) (st : Open) → IsOpenAbove d (close d st)
unfolding close
close-IsOpenAbove d ([], roots) = tt
close-IsOpenAbove d ((top, n) ∷ stack, roots) = close_top-IsOpenAbove d top n stack roots

-- Closing a node of this depth over an open rest attaches it there, and stops.
close-attach :
    (d : ℕ) (n : Node) (st : Open) → IsOpenAbove d st → close d ((d, n) ∷ st.0, st.1) ≡ attach n st
unfolding close close_top
close-attach d n ([], roots) h = ground arith
close-attach d n ((outer, p) ∷ [], roots) h = ground arith
close-attach d n ((outer, p) ∷ (o, q) ∷ stack, roots) h = ground arith

place-append : (es fs : List Entry) (st : Open) → place (es ++ fs) st ≡ place fs (place es st)
unfolding place
place-append [] fs st = refl
place-append ((d, s) ∷ es) fs st = place-append es fs (open_node (d, s) (close d st))

close_open :
    (d : ℕ) (s : Shell) (st : Open) → close (suc d) (open_node (d, s) st) ≡ open_node (d, s) st
unfolding close close_top
close_open d s ([], roots) = ground arith
close_open d s ((outer, p) ∷ stack, roots) = ground arith

-- Placing the nodes of a forest attaches the whole forest where the first of them belongs.
place-entries :
    (f : Forest) (d : ℕ) (st : Open) → close d (place (entries d f) st) ≡ attach_all f (close d st)
unfolding entries place append
place-entries nil d st = sym (attach_all-nil (close d st))
place-entries (node s c rest) d st =
    ap (close d) (place-append (entries (suc d) c) (entries d rest) opened)
    ∙ place-entries rest d (place (entries (suc d) c) opened)
    ∙ ap (attach_all rest) (
        sym (close-close d (place (entries (suc d) c) opened))
        ∙ ap (close d)
            (place-entries c (suc d) opened ∙ ap (attach_all c) (close_open d s (close d st)))
        ∙ close-attach d (record { shell = s; children = c }) (close d st) (close-IsOpenAbove d st))
    ∙ attach_all-node s c rest (close d st)
  where
    opened : Open
    opened = open_node (d, s) (close d st)

-- Assembling the depths and shells of a forest, listed in pre-order, gives the forest back.
pub assemble-entries : (f : Forest) → assemble (entries 0 f) ≡ f
unfolding assemble append close
assemble-entries f = ap (λ st. st.1) (place-entries f 0 ([], nil))

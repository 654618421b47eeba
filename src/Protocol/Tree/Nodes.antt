-- ===== src/Protocol/Tree/Nodes.antt =====
-- The data of tree.rs: `NodeShell`, `Node` and `Vec<Node>`, with the list operations that are used.
use vibesurfer.Prelude.{ℕ, suc, ◌+◌, Bool, List, [], ◌∷◌, ◌++◌, ltb, ◌≡◌, refl, ap}
use vibesurfer.Text.{Text, text_lt}
use vibesurfer.Protocol.Codes.{Role, Op, op_rank}

abbrev pub Attr : Type 0
Attr = Text × Text

-- `ops` is in the order of the declaration of `Op`, `attrs` in the order of the keys.
pub record Shell : Type 0 where
  pub r : ℕ
  pub role : Role
  pub label : Text
  pub ops : List Op
  pub attrs : List Attr

pub data Forest : Type 0 where
  nil : Forest
  node : Shell → Forest → Forest → Forest

pub record Node : Type 0 where
  pub shell : Shell
  pub open shell use *
  pub children : Forest

abbrev pub attr_lt : Attr → Attr → Bool
attr_lt a b = text_lt a.0 b.0

abbrev pub op_lt : Op → Op → Bool
op_lt a b = ltb (op_rank a) (op_rank b)

-- `Vec::push`.
unfoldable pub push : Forest → Node → Forest
push nil n = node n.shell n.children nil
push (node s c rest) n = node s c (push rest n)

unfoldable pub append : Forest → Forest → Forest
append nil g = g
append (node s c rest) g = node s c (append rest g)

-- The number of nodes at every level.
unfoldable pub size : Forest → ℕ
size nil = 0
size (node s c rest) = suc (size c + size rest)

-- The nodes in the order of the wire.
unfoldable pub preorder : Forest → List Shell
preorder nil = []
preorder (node s c rest) = s ∷ (preorder c ++ preorder rest)

pub append-nil : (f : Forest) → append f nil ≡ f
unfolding append
append-nil nil = refl
append-nil (node s c rest) = ap (node s c) (append-nil rest)

pub append_assoc : (f g h : Forest) → append (append f g) h ≡ append f (append g h)
unfolding append
append_assoc nil g h = refl
append_assoc (node s c rest) g h = ap (node s c) (append_assoc rest g h)

pub append-push :
    (f : Forest) (n : Node) (g : Forest)
    → append (push f n) g ≡ append f (node n.shell n.children g)
unfolding append push
append-push nil n g = refl
append-push (node s c rest) n g = ap (node s c) (append-push rest n g)

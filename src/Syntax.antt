-- ===== src/Syntax.antt =====
-- The part of Python's `ast` that scripts/check_topology_markers.py looks at: a syntax tree keeps the kinds
-- of nodes that it tells apart, and any other node is its children.
use couchbase_lite_tests.Prelude.{ℕ, Bool, true, false, List, [], ◌∷◌, ◌++◌, String}

mutual
  pub data Node : Type 0 where
    name : (id : String) → Node
    attribute : (value : Node) → (attr : String) → Node
    subscript : (value slice : Node) → Node
    -- a literal of type `int`, which is not below zero
    constant_int : ℕ → Node
    -- `UnaryOp(USub, operand)`
    minus : (operand : Node) → Node
    call : (func : Node) → (args keywords : Nodes) → Node
    assign : (targets : Nodes) → (value : Node) → Node
    ann_assign : (target annotation value : Node) → Node
    other : (children : Nodes) → Node

  pub data Nodes : Type 0 where
    nil : Nodes
    cons : Node → Nodes → Nodes

-- A node, and whether it is the value of a subscript.
abbrev pub Visit : Type 0
Visit = Bool × Node

-- The rows of two forests, put beside each other.
abbrev pub beside {ℓ} : {A : Type ℓ} → List (List A) → List (List A) → List (List A)
beside [] rows = rows
beside (row ∷ left) [] = row ∷ left
beside (row ∷ left) (next ∷ right) = (row ++ next) ∷ beside left right

abbrev pub mark_first : List (List Visit) → List (List Visit)
mark_first (((_, n) ∷ []) ∷ rows) = ((true, n) ∷ []) ∷ rows
mark_first rows = rows

-- A tree's nodes, one row for each depth.
unfoldable mutual
  pub rows : Node → List (List Visit)
  rows (name id) = ((false, name id) ∷ []) ∷ []
  rows (attribute value attr) = ((false, attribute value attr) ∷ []) ∷ rows value
  rows (subscript value slice) =
      ((false, subscript value slice) ∷ []) ∷ beside (mark_first (rows value)) (rows slice)
  rows (constant_int n) = ((false, constant_int n) ∷ []) ∷ []
  rows (minus operand) = ((false, minus operand) ∷ []) ∷ rows operand
  rows (call func args keywords) =
      ((false, call func args keywords) ∷ [])
      ∷ beside (rows func) (beside (forest args) (forest keywords))
  rows (assign targets value) =
      ((false, assign targets value) ∷ []) ∷ beside (forest targets) (rows value)
  rows (ann_assign target annotation value) =
      ((false, ann_assign target annotation value) ∷ [])
      ∷ beside (rows target) (beside (rows annotation) (rows value))
  rows (other children) = ((false, other children) ∷ []) ∷ forest children

  pub forest : Nodes → List (List Visit)
  forest nil = []
  forest (cons n ns) = beside (rows n) (forest ns)

abbrev pub join {ℓ} : {A : Type ℓ} → List (List A) → List A
join [] = []
join (row ∷ rest) = row ++ join rest

-- `ast.walk`, which goes through a tree row by row.
unfoldable pub walk : Node → List Visit
unfolding rows forest
walk n = join (rows n)

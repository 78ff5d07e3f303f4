-- ===== src/Predicates/Syntax.antt =====
-- The trees that `ast.parse` returns for a predicate (prismpath/predicates.py), the folding of signs
-- (`_SignFolder`), the nodes outside `_ALLOWED_NODES`, and `_depth`.
use Prim.Native.Nat.{max}
use prismpath.Base.{ℕ, ◌+◌, List, [], ◌∷◌, ◌++◌}
use prismpath.Base.Int.{neg}
use prismpath.Base.Text.{Text, codes}
use prismpath.Predicates.Value.{Value, int}

pub data BoolOp : Type 0 where
  and or : BoolOp

pub data UnaryOp : Type 0 where
  not u_sub u_add invert : UnaryOp

-- `In` is spelled `is_in`.
pub data CmpOp : Type 0 where
  eq not_eq lt lt_e gt gt_e is_in not_in is is_not : CmpOp

-- `other` is a node of any type that is not listed, by the name of its type, with its children.
mutual
  pub data Expr : Type 0 where
    constant : Value → Expr
    name : Text → Expr
    bool_op : BoolOp → Exprs → Expr
    unary_op : UnaryOp → Expr → Expr
    compare : Expr → Comparisons → Expr
    list tuple : Exprs → Expr
    other : Text → Exprs → Expr

  pub data Exprs : Type 0 where
    nil : Exprs
    cons : Expr → Exprs → Exprs

  -- The `ops` of a `Compare`, each with its comparator.
  pub data Comparisons : Type 0 where
    end : Comparisons
    then_compare : CmpOp → Expr → Comparisons → Comparisons

-- `_SignFolder.visit_UnaryOp`, once the operand has been visited. A bool is no int here.
abbrev pub fold_sign : UnaryOp → Expr → Expr
fold_sign u_sub (constant (int n)) = constant (int (neg n))
fold_sign u_add (constant (int n)) = constant (int n)
fold_sign op e = unary_op op e

unfoldable mutual
  pub fold_unary_signs : Expr → Expr
  fold_unary_signs (constant v) = constant v
  fold_unary_signs (name x) = name x
  fold_unary_signs (bool_op op es) = bool_op op (fold_all es)
  fold_unary_signs (unary_op op e) = fold_sign op (fold_unary_signs e)
  fold_unary_signs (compare e cs) = compare (fold_unary_signs e) (fold_comparisons cs)
  fold_unary_signs (list es) = list (fold_all es)
  fold_unary_signs (tuple es) = tuple (fold_all es)
  fold_unary_signs (other k es) = other k (fold_all es)

  pub fold_all : Exprs → Exprs
  fold_all nil = nil
  fold_all (cons e es) = cons (fold_unary_signs e) (fold_all es)

  pub fold_comparisons : Comparisons → Comparisons
  fold_comparisons end = end
  fold_comparisons (then_compare op e cs) =
      then_compare op (fold_unary_signs e) (fold_comparisons cs)

abbrev pub disallowed_unary : UnaryOp → List Text
disallowed_unary not = []
disallowed_unary u_sub = codes "USub" ∷ []
disallowed_unary u_add = codes "UAdd" ∷ []
disallowed_unary invert = codes "Invert" ∷ []

abbrev pub disallowed_cmp : CmpOp → List Text
disallowed_cmp is = codes "Is" ∷ []
disallowed_cmp is_not = codes "IsNot" ∷ []
disallowed_cmp _ = []

-- The types of the nodes that are not in `_ALLOWED_NODES`, as a walk over the tree meets them.
-- (`ast.walk` goes breadth first, so only the order of the problems differs.)
unfoldable mutual
  pub disallowed : Expr → List Text
  disallowed (constant v) = []
  disallowed (name x) = []
  disallowed (bool_op op es) = disallowed_all es
  disallowed (unary_op op e) = disallowed_unary op ++ disallowed e
  disallowed (compare e cs) = disallowed e ++ disallowed_comparisons cs
  disallowed (list es) = disallowed_all es
  disallowed (tuple es) = disallowed_all es
  disallowed (other k es) = k ∷ disallowed_all es

  pub disallowed_all : Exprs → List Text
  disallowed_all nil = []
  disallowed_all (cons e es) = disallowed e ++ disallowed_all es

  pub disallowed_comparisons : Comparisons → List Text
  disallowed_comparisons end = []
  disallowed_comparisons (then_compare op e cs) =
      disallowed_cmp op ++ (disallowed e ++ disallowed_comparisons cs)

-- `_depth(node, d)`: operators and the context of a name, list or tuple are children too.
-- `depth_all` is the largest depth of children that stand at `d`, one of which is a leaf.
unfoldable mutual
  pub depth : Expr → ℕ → ℕ
  depth (constant v) d = d
  depth (name x) d = d + 1
  depth (bool_op op es) d = depth_all es (d + 1)
  depth (unary_op op e) d = max (d + 1) (depth e (d + 1))
  depth (compare e cs) d = max (depth e (d + 1)) (depth_comparisons cs (d + 1))
  depth (list es) d = depth_all es (d + 1)
  depth (tuple es) d = depth_all es (d + 1)
  depth (other k es) d = elim es [ nil ↦ d | cons _ _ ↦ depth_all es (d + 1) ]

  pub depth_all : Exprs → ℕ → ℕ
  depth_all nil d = d
  depth_all (cons e es) d = max (depth e d) (depth_all es d)

  pub depth_comparisons : Comparisons → ℕ → ℕ
  depth_comparisons end d = d
  depth_comparisons (then_compare op e cs) d = max (depth e d) (depth_comparisons cs d)

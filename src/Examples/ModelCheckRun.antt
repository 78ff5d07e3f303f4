-- ===== src/Examples/ModelCheckRun.antt =====
-- A chained comparison (prismpath/model_check.py): `0 < x < 10`, and the same in a list that is tested.
use prismpath.Base.{arith, some, Bool, [], ◌∷◌, ◌≡◌, refl}
use prismpath.Base.Int.{pos}
use prismpath.Base.Text.{codes}
use prismpath.Base.Dict.{Dict}
use prismpath.Predicates.Value as V
use prismpath.Predicates.Value.{Value}
use prismpath.Predicates.Syntax.{
  Expr, constant, name, unary_op, compare, list, cons, nil, end, then_compare, CmpOp, UnaryOp,
  disallowed, depth,
}
use prismpath.Predicates.Condition.{eval_tree}
use prismpath.ModelCheck.{classify, desugar_chains}
use prismpath.ModelCheck.Chains.{desugar_chains-eval_tree}
use prismpath.ModelCheck.Fragment.{classify-eval_tree}

-- `not 0 < x < 10`
abbrev between : Expr
between = unary_op UnaryOp.not (
    compare (constant (V.int (pos 0))) (
      then_compare CmpOp.lt (name (codes "x"))
        (then_compare CmpOp.lt (constant (V.int (pos 10))) end)))

-- `x == [x] != y`
abbrev listed : Expr
listed = compare (name (codes "x")) (
    then_compare CmpOp.eq (list (cons (name (codes "x")) nil))
      (then_compare CmpOp.not_eq (name (codes "y")) end))

abbrev context : Dict Value
context = (codes "x", V.int (pos 3)) ∷ []

desugar_chains-eval_tree_example :
    (b : Bool) × (eval_tree listed context ≡ some b)
    × (eval_tree (desugar_chains listed) context ≡ some b)
unfolding disallowed depth
desugar_chains-eval_tree_example = desugar_chains-eval_tree listed context refl (omega arith)

classify-eval_tree_example :
    (b : Bool) × (eval_tree between context ≡ some b)
    × (eval_tree (desugar_chains between) context ≡ some b)
unfolding classify desugar_chains depth
classify-eval_tree_example = classify-eval_tree between context refl (omega arith)

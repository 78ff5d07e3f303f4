-- ===== src/Examples/PredicatesRun.antt =====
-- The predicates (prismpath/predicates.py) at concrete conditions.
use prismpath.Base.{◌+◌, Option, some, true, false, not, [], ◌∷◌, ◌≡◌, refl}
use prismpath.Base.Int.{pos}
use prismpath.Base.Text.{Text, codes, strip, lower}
use prismpath.Base.Dict.{Dict}
use prismpath.Predicates.Value as V
use prismpath.Predicates.Value.{Value, py_in}
use prismpath.Predicates.Syntax.{
  Expr, name, constant, compare, end, then_compare, unary_op, u_sub, CmpOp, fold_unary_signs,
  disallowed,
}
use prismpath.Predicates.Eval.{ev, compare_values}
use prismpath.Predicates.Condition.{
  is_deterministic, is_error, is_event, is_semantic, check_predicate, eval_condition, eval_tree,
  check_tree, event_name, spawn_join_event, expr_of, nested_too_deeply, timeout_event,
}
use prismpath.Predicates.Total.{Returns, eval_condition-Returns}
use prismpath.Predicates.Kinds.{count, one_tier}
use prismpath.Predicates.Fold.{fold_unary_signs_normal}
use prismpath.Predicates.Compare.{compare_values-flipped}
use prismpath.Predicates.Limits.{nots, nots_rejected_and_evaluated}
use prismpath.Predicates.Condition.{is_always, is_never}
use prismpath.Predicates.Syntax.{depth}
use prismpath.Predicates.Eval.{max_depth}

-- `x > -5`, as Python parses it.
abbrev above : Expr
above =
    compare (name (codes "x"))
      (then_compare CmpOp.gt (unary_op u_sub (constant (V.int (pos 5)))) end)

abbrev parse_above : Text → Option Expr
parse_above t = some above

abbrev seven : Dict Value
seven = (codes "x", V.int (pos 7)) ∷ []

above_holds : eval_condition parse_above (codes " When x > -5 ") seven ≡ some true
unfolding eval_condition expr_of strip lower fold_unary_signs disallowed ev compare_values is_always
    is_never V.py_compare
above_holds = refl

timeout_named : event_name (codes "on timeout ") ≡ timeout_event
unfolding event_name strip lower
timeout_named = refl

event_named : event_name (codes "on event  paid ") ≡ codes "paid"
unfolding event_name strip lower
event_named = refl

join_named : spawn_join_event (some (codes "Quorum(2)")) ≡ codes "quorum"
unfolding spawn_join_event strip lower
join_named = refl

eval_condition-Returns_example : Returns (eval_condition parse_above (codes "when x > -5") seven)
unfolding is_deterministic check_predicate expr_of strip lower is_always is_never check_tree
    disallowed fold_unary_signs depth
eval_condition-Returns_example =
    eval_condition-Returns parse_above (codes "when x > -5") seven refl refl

one_tier_example :
    count (is_deterministic (codes "else"))
      + count (is_error (codes "else"))
      + count (is_event (codes "else"))
      + count (is_semantic (codes "else"))
    ≡ 1
one_tier_example = one_tier (codes "else")

-- `1 not in None` holds: the TypeError leaves `in` unsatisfied.
compare_values-flipped_example :
    compare_values CmpOp.not_in (V.int (pos 1)) V.null ≡ some (not false)
unfolding compare_values py_in
compare_values-flipped_example =
    compare_values-flipped CmpOp.is_in (V.int (pos 1)) V.null false (λ e. cc) refl

fold_unary_signs_normal_example :
    (fold_unary_signs (fold_unary_signs above) ≡ fold_unary_signs above)
    × (disallowed above ≡ [] → fold_unary_signs above ≡ above)
fold_unary_signs_normal_example = fold_unary_signs_normal above

nots_rejected_and_evaluated_example :
    (check_tree (nots max_depth (codes "x")) ≡ nested_too_deeply ∷ [])
    × Returns (eval_tree (nots max_depth (codes "x")) seven)
nots_rejected_and_evaluated_example = nots_rejected_and_evaluated (codes "x") seven

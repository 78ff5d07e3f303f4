-- ===== src/Analysis/Routes/Stuck.antt =====
-- What `_check_stuck` (prismpath/analysis.py) takes for exhaustive, against the evaluation of the two
-- conditions (prismpath/predicates.py).
use prismpath.Base.{Option, none, some, Bool, true, false, ◌≡◌, refl, ap, arith}
use prismpath.Base.Int.{ℤ}
use prismpath.Base.Text.{Text, text_eq_refl}
use prismpath.Base.Dict.{Dict, lookup_or}
use prismpath.Predicates.Value as V
use prismpath.Predicates.Value.{Value, py_compare, truthy}
use prismpath.Predicates.Syntax.{
  Expr, constant, name, compare, end, then_compare, CmpOp, disallowed,
}
use prismpath.Predicates.Eval.{ev, compare_values, on_order, or_unsatisfied}
use prismpath.Base.Maybe.{◌>>=◌}
use Prim.Native.Nat.{Ordering}
use prismpath.Predicates.Condition.{eval_tree}
use prismpath.Analysis.Fragment.{
  is_opposite, opposite_compares, negating_trees, not_of, same_tree, same_value,
}

-- `x op n`
abbrev pub comparison : Text → CmpOp → ℤ → Expr
comparison x op n = compare (name x) (then_compare op (constant (V.int n)) end)

abbrev pub is_order : CmpOp → Bool
is_order CmpOp.lt = true
is_order CmpOp.lt_e = true
is_order CmpOp.gt = true
is_order CmpOp.gt_e = true
is_order _ = false

abbrev pub no_number : Value → Bool
no_number V.null = true
no_number (V.str s) = true
no_number (V.list vs) = true
no_number _ = false

py_compare-no_number : (v : Value) (n : ℤ) → no_number v ≡ true → py_compare v (V.int n) ≡ none
unfolding py_compare
py_compare-no_number V.null n m = refl
py_compare-no_number (V.str s) n m = refl
py_compare-no_number (V.list vs) n m = refl
py_compare-no_number _ n m = cc

on_order-none :
    (test : Ordering → Bool) (v w : Value) → py_compare v w ≡ none → on_order test v w ≡ none
on_order-none test v w e = rw (on_order, e) refl

-- An order with a number fails, where the field holds none.
compare_values-no_number :
    (op : CmpOp) (v : Value) (n : ℤ)
    → is_order op ≡ true
    → no_number v ≡ true
    → compare_values op v (V.int n) ≡ some false
unfolding compare_values
compare_values-no_number CmpOp.lt v n h m =
    ap (λ o. some (or_unsatisfied CmpOp.lt o))
      (on_order-none _ v (V.int n) (py_compare-no_number v n m))
compare_values-no_number CmpOp.lt_e v n h m =
    ap (λ o. some (or_unsatisfied CmpOp.lt_e o))
      (on_order-none _ v (V.int n) (py_compare-no_number v n m))
compare_values-no_number CmpOp.gt v n h m =
    ap (λ o. some (or_unsatisfied CmpOp.gt o))
      (on_order-none _ v (V.int n) (py_compare-no_number v n m))
compare_values-no_number CmpOp.gt_e v n h m =
    ap (λ o. some (or_unsatisfied CmpOp.gt_e o))
      (on_order-none _ v (V.int n) (py_compare-no_number v n m))
compare_values-no_number _ v n h m = cc

-- What becomes of the comparison's outcome.
abbrev verdict : Option Bool → Option Bool
verdict o =
    o >>= (λ ok. elim ok [ true ↦ some (V.bool true) | false ↦ some (V.bool false) ]) >>= λ v.
    some (truthy v)

eval_tree-comparison :
    (x : Text) (op : CmpOp) (n : ℤ) (ctx : Dict Value)
    → is_order op ≡ true
    → no_number (lookup_or V.null x ctx) ≡ true
    → eval_tree (comparison x op n) ctx ≡ some false
unfolding eval_tree disallowed ev
eval_tree-comparison x CmpOp.lt n ctx h m =
    ap verdict (compare_values-no_number CmpOp.lt (lookup_or V.null x ctx) n h m)
eval_tree-comparison x CmpOp.lt_e n ctx h m =
    ap verdict (compare_values-no_number CmpOp.lt_e (lookup_or V.null x ctx) n h m)
eval_tree-comparison x CmpOp.gt n ctx h m =
    ap verdict (compare_values-no_number CmpOp.gt (lookup_or V.null x ctx) n h m)
eval_tree-comparison x CmpOp.gt_e n ctx h m =
    ap verdict (compare_values-no_number CmpOp.gt_e (lookup_or V.null x ctx) n h m)
eval_tree-comparison x _ n ctx h m = cc

is_order-opposite : (p q : CmpOp) → is_order p ≡ true → is_opposite p q ≡ true → is_order q ≡ true
is_order-opposite CmpOp.lt CmpOp.gt_e h o = refl
is_order-opposite CmpOp.lt_e CmpOp.gt h o = refl
is_order-opposite CmpOp.gt CmpOp.lt_e h o = refl
is_order-opposite CmpOp.gt_e CmpOp.lt h o = refl
is_order-opposite _ _ h o = cc

negating_comparisons :
    (x : Text) (p q : CmpOp) (n : ℤ)
    → is_opposite p q ≡ true
    → negating_trees (comparison x p n) (comparison x q n) ≡ true
unfolding negating_trees not_of opposite_compares same_tree same_value
negating_comparisons x p q n o = ground (arith, text_eq_refl x, o)

-- Opposite orders of a field and a number count as exhaustive for the check, and yet neither holds
-- where the field is missing or is no number.
pub negating_trees-eval_tree :
    (x : Text) (p q : CmpOp) (n : ℤ) (ctx : Dict Value)
    → is_order p ≡ true
    → is_opposite p q ≡ true
    → no_number (lookup_or V.null x ctx) ≡ true
    → (negating_trees (comparison x p n) (comparison x q n) ≡ true)
      × (eval_tree (comparison x p n) ctx ≡ some false)
      × (eval_tree (comparison x q n) ctx ≡ some false)
negating_trees-eval_tree x p q n ctx h o m = (
  negating_comparisons x p q n o,
  eval_tree-comparison x p n ctx h m,
  eval_tree-comparison x q n ctx (is_order-opposite p q h o) m,
)

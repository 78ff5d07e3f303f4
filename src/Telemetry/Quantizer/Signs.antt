-- ===== src/Telemetry/Quantizer/Signs.antt =====
-- A negative constant, as it is parsed, is a sign in front of a constant: what `_flow_atoms`
-- (adapters/telemetry/quantizer.py) makes of it, and what the evaluator (prismpath/predicates.py) does.
use prismpath.Base.{
  ℕ, suc, some, none, true, false, not, ◌||◌, if◌then◌else◌, Option, Bool, List, [], ◌∷◌, ◌≡◌, refl,
  ap, ◌∙◌, arith,
}
use prismpath.Base.Int.{ℤ, pos, negsuc}
use prismpath.Base.Text.{Text, text_eq_refl, lower}
use prismpath.Base.Dict.{Dict, lookup, lookup_or}
use prismpath.Base.Maybe.{◌>>=◌}
use prismpath.Predicates.Value as V
use prismpath.Predicates.Value.{Value, truthy, py_compare, py_eq}
use prismpath.Predicates.Syntax.{
  Expr, compare, name, constant, unary_op, u_sub, then_compare, end, CmpOp, fold_unary_signs,
  disallowed,
}
use prismpath.Predicates.Eval.{ev, compare_values}
use prismpath.Predicates.Condition.{
  eval_tree, eval_condition, expr_of, is_always, is_never, is_deterministic, is_semantic,
}
use prismpath.Telemetry.Quantizer.{Atom, atoms, compare_atoms, add_atoms, edge_atoms}

-- An order or an equality.
abbrev pub is_cut : CmpOp → Bool
is_cut CmpOp.is_in = false
is_cut CmpOp.not_in = false
is_cut CmpOp.is = false
is_cut CmpOp.is_not = false
is_cut op = true

-- `x OP -(n + 1)`, as it is parsed.
abbrev pub negative_cut : CmpOp → Text → ℕ → Expr
negative_cut op x n =
    compare (name x) (then_compare op (unary_op u_sub (constant (V.int (pos (suc n))))) end)

atoms-negative_cut :
    (op : CmpOp) (x : Text) (n : ℕ) → is_cut op ≡ true → atoms (negative_cut op x n) ≡ []
unfolding atoms compare_atoms
atoms-negative_cut CmpOp.lt x n h = refl
atoms-negative_cut CmpOp.lt_e x n h = refl
atoms-negative_cut CmpOp.gt x n h = refl
atoms-negative_cut CmpOp.gt_e x n h = refl
atoms-negative_cut CmpOp.eq x n h = refl
atoms-negative_cut CmpOp.not_eq x n h = refl
atoms-negative_cut _ x n h = cc

abbrev verdict : Option Bool → Option Bool
verdict o =
    (o >>= λ ok. elim ok [ true ↦ some (V.bool true) | false ↦ some (V.bool false) ]) >>= λ v.
    some (truthy v)

found : (x : Text) (v : Value) → lookup_or V.null x ((x, v) ∷ []) ≡ v
found x v = rw (lookup_or, lookup, text_eq_refl x) refl

eval_tree-negative_cut :
    (op : CmpOp) (x : Text) (n : ℕ) (v : Value)
    → is_cut op ≡ true
    → eval_tree (fold_unary_signs (negative_cut op x n)) ((x, v) ∷ [])
      ≡ verdict (compare_values op v (V.int (negsuc n)))
unfolding eval_tree fold_unary_signs disallowed ev
eval_tree-negative_cut CmpOp.lt x n v h =
    ap (λ w. verdict (compare_values CmpOp.lt w (V.int (negsuc n)))) (found x v)
eval_tree-negative_cut CmpOp.lt_e x n v h =
    ap (λ w. verdict (compare_values CmpOp.lt_e w (V.int (negsuc n)))) (found x v)
eval_tree-negative_cut CmpOp.gt x n v h =
    ap (λ w. verdict (compare_values CmpOp.gt w (V.int (negsuc n)))) (found x v)
eval_tree-negative_cut CmpOp.gt_e x n v h =
    ap (λ w. verdict (compare_values CmpOp.gt_e w (V.int (negsuc n)))) (found x v)
eval_tree-negative_cut CmpOp.eq x n v h =
    ap (λ w. verdict (compare_values CmpOp.eq w (V.int (negsuc n)))) (found x v)
eval_tree-negative_cut CmpOp.not_eq x n v h =
    ap (λ w. verdict (compare_values CmpOp.not_eq w (V.int (negsuc n)))) (found x v)
eval_tree-negative_cut _ x n v h = cc

-- Two numbers that the comparison tells apart.
telling :
    (op : CmpOp) (n : ℕ)
    → is_cut op ≡ true
    → (v w : ℤ) × (compare_values op (V.int v) (V.int (negsuc n)) ≡ some true)
      × (compare_values op (V.int w) (V.int (negsuc n)) ≡ some false)
unfolding compare_values py_compare py_eq
telling CmpOp.lt n h = (negsuc (suc n), pos 0, ground arith, ground arith)
telling CmpOp.lt_e n h = (negsuc n, pos 0, ground arith, ground arith)
telling CmpOp.gt n h = (pos 0, negsuc (suc n), ground arith, ground arith)
telling CmpOp.gt_e n h = (pos 0, negsuc (suc n), ground arith, ground arith)
telling CmpOp.eq n h = (negsuc n, pos 0, ground arith, ground arith)
telling CmpOp.not_eq n h = (pos 0, negsuc n, ground arith, ground arith)
telling _ n h = cc

-- An edge that compares a field with a negative constant, by an order or an equality: the evaluator
-- decides it by the field's value, true for one number and false for another, and the loop of
-- `_flow_atoms` takes no atom from it.
pub edge_atoms-eval_condition :
    (ast_parse : Text → Option Expr) (cond x : Text) (op : CmpOp) (n : ℕ)
    (fields : Dict (List Atom))
    → is_cut op ≡ true
    → is_always (lower (expr_of cond)) ≡ false
    → is_never (lower (expr_of cond)) ≡ false
    → ast_parse (expr_of cond) ≡ some (negative_cut op x n)
    → (edge_atoms ast_parse cond fields ≡ fields)
      × ((v w : ℤ) × (eval_condition ast_parse cond ((x, V.int v) ∷ []) ≡ some true)
          × (eval_condition ast_parse cond ((x, V.int w) ∷ []) ≡ some false))
unfolding edge_atoms eval_condition
edge_atoms-eval_condition ast_parse cond x op n fields cut a k p =
    let (v, w, holds, fails) = telling op n cut in
    (
      no_atoms (not (is_deterministic cond) || is_semantic cond),
      (
        v,
        w,
        rw (a, k, p) (eval_tree-negative_cut op x n (V.int v) cut ∙ ap verdict holds),
        rw (a, k, p) (eval_tree-negative_cut op x n (V.int w) cut ∙ ap verdict fails),
      ),
    )
  where
    no_atoms :
        (b : Bool)
        → (if b
            then fields
            else if is_always (lower (expr_of cond)) || is_never (lower (expr_of cond))
            then fields
            else elim (ast_parse (expr_of cond)) [
              | none ↦ fields
              | some body ↦ add_atoms (atoms body) fields
            ])
          ≡ fields
    no_atoms true = refl
    no_atoms false = rw (a, k, p) (ap (λ l. add_atoms l fields) (atoms-negative_cut op x n cut))

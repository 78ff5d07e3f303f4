-- ===== src/Predicates/Fold.antt =====
-- The folding of signs (prismpath/predicates.py, `_SignFolder`).
use prismpath.Base.{[], ◌≡◌, refl, ap, append-eq-nil}
use prismpath.Predicates.Value as V
use prismpath.Predicates.Syntax.{
  Expr, Exprs, Comparisons, constant, name, bool_op, unary_op, compare, list, tuple, other, nil,
  cons, end, then_compare, UnaryOp, u_sub, u_add, invert, fold_sign, fold_unary_signs, fold_all,
  fold_comparisons, disallowed, disallowed_all, disallowed_comparisons,
}

-- A folded operand stays as it is under its operator.
fold_sign-fixed :
    (op : UnaryOp) (e : Expr)
    → fold_unary_signs e ≡ e
    → fold_unary_signs (fold_sign op e) ≡ fold_sign op e
unfolding fold_unary_signs
fold_sign-fixed u_sub (constant (V.int n)) h = refl
fold_sign-fixed u_add (constant (V.int n)) h = refl
fold_sign-fixed op e h = ap (fold_sign op) h

mutual
  unfolding fold_unary_signs

  fold_idem : (e : Expr) → fold_unary_signs (fold_unary_signs e) ≡ fold_unary_signs e
  fold_idem (constant v) = refl
  fold_idem (name x) = refl
  fold_idem (bool_op op es) = ap (bool_op op) (fold_all_idem es)
  fold_idem (unary_op op e) = fold_sign-fixed op (fold_unary_signs e) (fold_idem e)
  fold_idem (compare e cs) = λ i. compare (fold_idem e i) (fold_comparisons_idem cs i)
  fold_idem (list es) = ap list (fold_all_idem es)
  fold_idem (tuple es) = ap tuple (fold_all_idem es)
  fold_idem (other k es) = ap (other k) (fold_all_idem es)

  fold_all_idem : (es : Exprs) → fold_all (fold_all es) ≡ fold_all es
  fold_all_idem nil = refl
  fold_all_idem (cons e es) = λ i. cons (fold_idem e i) (fold_all_idem es i)

  fold_comparisons_idem :
      (cs : Comparisons) → fold_comparisons (fold_comparisons cs) ≡ fold_comparisons cs
  fold_comparisons_idem end = refl
  fold_comparisons_idem (then_compare op e cs) =
      λ i. then_compare op (fold_idem e i) (fold_comparisons_idem cs i)

-- A tree that the sandbox allows holds no sign, so folding leaves it alone.
mutual
  unfolding fold_unary_signs disallowed

  fold-allowed : (e : Expr) → disallowed e ≡ [] → fold_unary_signs e ≡ e
  fold-allowed (constant v) h = refl
  fold-allowed (name x) h = refl
  fold-allowed (bool_op op es) h = ap (bool_op op) (fold_all-allowed es h)
  fold-allowed (unary_op UnaryOp.not e) h = ap (unary_op UnaryOp.not) (fold-allowed e h)
  fold-allowed (unary_op u_sub e) h = cc
  fold-allowed (unary_op u_add e) h = cc
  fold-allowed (unary_op invert e) h = cc
  fold-allowed (compare e cs) h =
      let (he, hcs) = append-eq-nil _ _ h in
      λ i. compare (fold-allowed e he i) (fold_comparisons-allowed cs hcs i)
  fold-allowed (list es) h = ap list (fold_all-allowed es h)
  fold-allowed (tuple es) h = ap tuple (fold_all-allowed es h)
  fold-allowed (other k es) h = cc

  fold_all-allowed : (es : Exprs) → disallowed_all es ≡ [] → fold_all es ≡ es
  fold_all-allowed nil h = refl
  fold_all-allowed (cons e es) h =
      let (he, hes) = append-eq-nil _ _ h in
      λ i. cons (fold-allowed e he i) (fold_all-allowed es hes i)

  fold_comparisons-allowed :
      (cs : Comparisons) → disallowed_comparisons cs ≡ [] → fold_comparisons cs ≡ cs
  fold_comparisons-allowed end h = refl
  fold_comparisons-allowed (then_compare op e cs) h =
      let (_, rest) = append-eq-nil _ _ h in
      let (he, hcs) = append-eq-nil _ _ rest in
      λ i. then_compare op (fold-allowed e he i) (fold_comparisons-allowed cs hcs i)

-- Folding the signs twice is folding them once, and folding changes no tree that the sandbox allows.
pub fold_unary_signs_normal :
    (e : Expr)
    → (fold_unary_signs (fold_unary_signs e) ≡ fold_unary_signs e)
      × (disallowed e ≡ [] → fold_unary_signs e ≡ e)
fold_unary_signs_normal e = (fold_idem e, fold-allowed e)

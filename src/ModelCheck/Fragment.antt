-- ===== src/ModelCheck/Fragment.antt =====
-- The trees of Level M are trees that the sandbox allows (prismpath/model_check.py, `_classify`).
use prismpath.Base.{
  Option, none, some, Bool, true, false, [], ◌≡◌, refl, sym, ap, ◌∙◌, ◌&&◌, ◌||◌, if◌then◌else◌,
  ◌≤◌, ◌++◌, append-nil, append-eq-nil,
}
use prismpath.Predicates.Value as V
use prismpath.Predicates.Value.{Value}
use prismpath.Predicates.Syntax.{
  Expr, Exprs, Comparisons, constant, name, bool_op, unary_op, compare, list, tuple, other, nil,
  cons, end, then_compare, UnaryOp, CmpOp, u_sub, u_add, invert, disallowed, disallowed_all,
  disallowed_comparisons, disallowed_cmp, depth,
}
use prismpath.Predicates.Eval.{max_depth}
use prismpath.Predicates.Condition.{eval_tree}
use prismpath.Base.Dict.{Dict}
use prismpath.ModelCheck.Chains.{desugar_chains-eval_tree}
use prismpath.ModelCheck.{
  pairs, desugar_chains, desugar_all, Reason, field_vs_field, constant_only, syntax, scalar_const,
  is_name, order_reason, comparison_reason, membership_reason, elements_reason, collection_reason,
  compare_reason, atom_reason, classify, classify_all,
}

elements_reason-disallowed : (es : Exprs) → elements_reason es ≡ none → disallowed_all es ≡ []
unfolding disallowed
elements_reason-disallowed nil h = refl
elements_reason-disallowed (cons (constant (V.list vs)) es) h = cc
elements_reason-disallowed (cons (constant v) es) h = elements_reason-disallowed es h
elements_reason-disallowed (cons e es) h = cc

collection_reason-disallowed : (e : Expr) → collection_reason e ≡ none → disallowed e ≡ []
unfolding disallowed
collection_reason-disallowed (list es) h = elements_reason-disallowed es h
collection_reason-disallowed (tuple es) h = elements_reason-disallowed es h
collection_reason-disallowed (constant v) h = refl
collection_reason-disallowed (name x) h = cc
collection_reason-disallowed (bool_op op es) h = cc
collection_reason-disallowed (unary_op op e) h = cc
collection_reason-disallowed (compare e cs) h = cc
collection_reason-disallowed (other k es) h = cc

membership_reason-disallowed :
    (l r : Expr) → membership_reason l r ≡ none → (disallowed l ≡ []) × (disallowed r ≡ [])
unfolding disallowed
membership_reason-disallowed (name x) r h = (refl, collection_reason-disallowed r h)
membership_reason-disallowed (constant v) r h = cc
membership_reason-disallowed (bool_op op es) r h = cc
membership_reason-disallowed (unary_op op e) r h = cc
membership_reason-disallowed (compare e cs) r h = cc
membership_reason-disallowed (list es) r h = cc
membership_reason-disallowed (tuple es) r h = cc
membership_reason-disallowed (other k es) r h = cc

is_operand-disallowed : (e : Expr) → (is_name e || scalar_const e) ≡ true → disallowed e ≡ []
unfolding disallowed
is_operand-disallowed (name x) h = refl
is_operand-disallowed (constant v) h = refl
is_operand-disallowed (bool_op op es) h = cc
is_operand-disallowed (unary_op op e) h = cc
is_operand-disallowed (compare e cs) h = cc
is_operand-disallowed (list es) h = cc
is_operand-disallowed (tuple es) h = cc
is_operand-disallowed (other k es) h = cc

comparison_reason-disallowed :
    (op : CmpOp) (l r : Expr)
    → comparison_reason op l r ≡ none
    → (disallowed l ≡ []) × (disallowed r ≡ [])
comparison_reason-disallowed op l r h =
    let (a, b) = operands (is_name l) (scalar_const l) (is_name r) (scalar_const r) h in
    (is_operand-disallowed l a, is_operand-disallowed r b)
  where
    operands :
        (nl sl nr sr : Bool)
        → Path
            (Option Reason)
            (if nl && sr
              then order_reason op r
              else if nr && sl
              then order_reason op l
              else if nl && nr
              then some field_vs_field
              else if sl && sr
              then some constant_only
              else some syntax)
            none
        → ((nl || sl) ≡ true) × ((nr || sr) ≡ true)
    operands true sl true sr g = (refl, refl)
    operands true sl false true g = (refl, refl)
    operands true true false false g = (cc, cc)
    operands true false false false g = (cc, cc)
    operands false true true sr g = (refl, refl)
    operands false true false true g = (refl, refl)
    operands false true false false g = (cc, cc)
    operands false false true true g = (cc, cc)
    operands false false true false g = (cc, cc)
    operands false false false true g = (cc, cc)
    operands false false false false g = (cc, cc)

compare_reason-disallowed :
    (op : CmpOp) (l r : Expr)
    → compare_reason op l r ≡ none
    → disallowed (compare l (then_compare op r end)) ≡ []
unfolding disallowed
compare_reason-disallowed CmpOp.is l r h = cc
compare_reason-disallowed CmpOp.is_not l r h = cc
compare_reason-disallowed CmpOp.is_in l r h =
    let (a, b) = membership_reason-disallowed l r h in rw (a, b) refl
compare_reason-disallowed CmpOp.not_in l r h =
    let (a, b) = membership_reason-disallowed l r h in rw (a, b) refl
compare_reason-disallowed CmpOp.eq l r h =
    let (a, b) = comparison_reason-disallowed CmpOp.eq l r h in rw (a, b) refl
compare_reason-disallowed CmpOp.not_eq l r h =
    let (a, b) = comparison_reason-disallowed CmpOp.not_eq l r h in rw (a, b) refl
compare_reason-disallowed CmpOp.lt l r h =
    let (a, b) = comparison_reason-disallowed CmpOp.lt l r h in rw (a, b) refl
compare_reason-disallowed CmpOp.lt_e l r h =
    let (a, b) = comparison_reason-disallowed CmpOp.lt_e l r h in rw (a, b) refl
compare_reason-disallowed CmpOp.gt l r h =
    let (a, b) = comparison_reason-disallowed CmpOp.gt l r h in rw (a, b) refl
compare_reason-disallowed CmpOp.gt_e l r h =
    let (a, b) = comparison_reason-disallowed CmpOp.gt_e l r h in rw (a, b) refl

mutual
  unfolding disallowed classify atom_reason

  classify-disallowed : (e : Expr) → classify e ≡ none → disallowed e ≡ []
  classify-disallowed (bool_op op es) h = classify_all-disallowed es h
  classify-disallowed (unary_op UnaryOp.not e) h = classify-disallowed e h
  classify-disallowed (unary_op u_sub e) h = cc
  classify-disallowed (unary_op u_add e) h = cc
  classify-disallowed (unary_op invert e) h = cc
  classify-disallowed (compare l (then_compare op r end)) h = compare_reason-disallowed op l r h
  classify-disallowed (compare l (then_compare op r (then_compare op' r' cs))) h = cc
  classify-disallowed (compare l end) h = cc
  classify-disallowed (constant v) h = cc
  classify-disallowed (name x) h = refl
  classify-disallowed (list es) h = cc
  classify-disallowed (tuple es) h = cc
  classify-disallowed (other k es) h = cc

  classify_all-disallowed : (es : Exprs) → classify_all es ≡ none → disallowed_all es ≡ []
  classify_all-disallowed nil h = refl
  classify_all-disallowed (cons e es) h =
      first (classify e) refl (classify-disallowed e) (classify_all-disallowed es)
    where
      first :
          (o : Option Reason)
          → classify e ≡ o
          → (classify e ≡ none → disallowed e ≡ [])
          → (classify_all es ≡ none → disallowed_all es ≡ [])
          → disallowed_all (cons e es) ≡ []
      first none g one others =
          rw (one g)
            (others (sym (ap (λ o. elim o [ some r ↦ some r | none ↦ classify_all es ]) g) ∙ h))
      first (some r) g one others =
          let no : Path (Option Reason) (some r) none =
            sym (ap (λ o. elim o [ some r ↦ some r | none ↦ classify_all es ]) g) ∙ h in
          cc

disallowed_all-pairs-inverse :
    (e : Expr) (op : CmpOp) (r : Expr) (cs : Comparisons)
    → disallowed_all (pairs e (then_compare op r cs)) ≡ []
    → disallowed (compare e (then_compare op r cs)) ≡ []
unfolding disallowed pairs
disallowed_all-pairs-inverse e op r end h = sym (append-nil _) ∙ h
disallowed_all-pairs-inverse e op r (then_compare op' r' cs) h =
    let (first, rest) =
      append-eq-nil (disallowed (compare e (then_compare op r end)))
        (disallowed_all (pairs r (then_compare op' r' cs))) h in
    let (he, hcs) =
      append-eq-nil (disallowed e) (disallowed_comparisons (then_compare op r end)) first in
    let (good, hr') = append-eq-nil (disallowed_cmp op) (disallowed r ++ []) hcs in
    let (hr, _) = append-eq-nil (disallowed r) [] hr' in
    let later = disallowed_all-pairs-inverse r op' r' cs rest in
    let (_, hcs') =
      append-eq-nil (disallowed r) (disallowed_comparisons (then_compare op' r' cs)) later in
    rw (he, good, hr) hcs'

mutual
  unfolding disallowed desugar_chains

  disallowed-desugared : (e : Expr) → disallowed (desugar_chains e) ≡ [] → disallowed e ≡ []
  disallowed-desugared (bool_op op es) h = disallowed_all-desugared es h
  disallowed-desugared (unary_op UnaryOp.not e) h = disallowed-desugared e h
  disallowed-desugared (compare e (then_compare op r (then_compare op' r' cs))) h =
      disallowed_all-pairs-inverse e op r (then_compare op' r' cs) h
  disallowed-desugared (compare e end) h = h
  disallowed-desugared (compare e (then_compare op r end)) h = h
  disallowed-desugared (constant v) h = h
  disallowed-desugared (name x) h = h
  disallowed-desugared (unary_op u_sub e) h = h
  disallowed-desugared (unary_op u_add e) h = h
  disallowed-desugared (unary_op invert e) h = h
  disallowed-desugared (list es) h = h
  disallowed-desugared (tuple es) h = h
  disallowed-desugared (other t es) h = h

  disallowed_all-desugared :
      (es : Exprs) → disallowed_all (desugar_all es) ≡ [] → disallowed_all es ≡ []
  disallowed_all-desugared nil h = refl
  disallowed_all-desugared (cons e es) h =
      let (he, hes) = append-eq-nil (disallowed (desugar_chains e)) _ h in
      rw (disallowed-desugared e he) (disallowed_all-desugared es hes)

-- A tree of Level M, nested less deep than the sandbox allows, is evaluated to a truth value in every
-- context, and what its chains are desugared to is evaluated to the same.
pub classify-eval_tree :
    (tree : Expr) (ctx : Dict Value)
    → classify (desugar_chains tree) ≡ none
    → depth tree 1 ≤ max_depth
    → (b : Bool) × (eval_tree tree ctx ≡ some b) × (eval_tree (desugar_chains tree) ctx ≡ some b)
classify-eval_tree tree ctx member shallow =
    desugar_chains-eval_tree tree ctx
      (disallowed-desugared tree (classify-disallowed (desugar_chains tree) member)) shallow

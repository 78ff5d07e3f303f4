-- ===== src/Analysis/Always.antt =====
-- The verdicts on single conditions (prismpath/analysis.py, `_is_always_true` and `_is_always_false`)
-- against their evaluation (prismpath/predicates.py, `eval_condition`).
pub mod Interval
pub mod Narrow
use prismpath.Base.{
  Option, none, some, Bool, true, false, not, ◌&&◌, ◌||◌, if◌then◌else◌, List, [], ◌∷◌, is_nil, ◌≡◌,
  ◌≢◌, refl, sym, ap, ◌∙◌, Bool-cases, Option-cases, inl, inr,
}
use prismpath.Base.Text.{Text, lower}
use prismpath.Base.Maybe.{◌>>=◌}
use prismpath.Base.Dict.{Dict}
use prismpath.Predicates.Value as V
use prismpath.Predicates.Value.{Value, truthy}
use prismpath.Predicates.Syntax.{
  Expr, constant, name, bool_op, unary_op, compare, list, tuple, other, UnaryOp, u_sub, u_add,
  invert, fold_unary_signs, disallowed,
}
use prismpath.Predicates.Eval.{ev}
use prismpath.Predicates.Condition.{
  is_deterministic, expr_of, is_always, is_never, eval_tree, eval_condition,
}
use prismpath.Analysis.Fragment.{fold_below, parse, is_always_true, is_true_constant}

-- A sign at the root.
abbrev pub is_sign : Expr → Bool
is_sign (unary_op u_sub e) = true
is_sign (unary_op u_add e) = true
is_sign e = false

fold_below-fold_unary_signs :
    (t : Expr) → is_sign (fold_below t) ≡ false → fold_unary_signs t ≡ fold_below t
unfolding fold_below fold_unary_signs
fold_below-fold_unary_signs (unary_op u_sub e) h = cc
fold_below-fold_unary_signs (unary_op u_add e) h = cc
fold_below-fold_unary_signs (unary_op UnaryOp.not e) h = refl
fold_below-fold_unary_signs (unary_op invert e) h = refl
fold_below-fold_unary_signs (constant v) h = refl
fold_below-fold_unary_signs (name x) h = refl
fold_below-fold_unary_signs (bool_op op es) h = refl
fold_below-fold_unary_signs (compare e cs) h = refl
fold_below-fold_unary_signs (list es) h = refl
fold_below-fold_unary_signs (tuple es) h = refl
fold_below-fold_unary_signs (other k es) h = refl

-- What is parsed is what is evaluated, unless its root is a sign.
pub eval_condition-parse :
    (ast_parse : Text → Option Expr) (cond : Text) (tree : Expr) (ctx : Dict Value)
    → parse ast_parse cond ≡ some tree
    → is_sign tree ≡ false
    → (is_deterministic cond ≡ true) × (eval_condition ast_parse cond ctx ≡ eval_tree tree ctx)
unfolding parse eval_condition
eval_condition-parse ast_parse cond tree ctx p unsigned =
    at (is_deterministic cond) (is_always (lower (expr_of cond))) (is_never (lower (expr_of cond)))
      (ast_parse (expr_of cond)) refl p
  where
    same_tree : (t : Expr) → some (fold_below t) ≡ some tree → fold_below t ≡ tree
    same_tree t q = cc

    folded : (t : Expr) → some (fold_below t) ≡ some tree → fold_unary_signs t ≡ tree
    folded t q =
        fold_below-fold_unary_signs t (ap is_sign (same_tree t q) ∙ unsigned) ∙ same_tree t q

    at :
        (d a n : Bool) (o : Option Expr)
        → is_deterministic cond ≡ d
        → (if not d then none else if a || n then none else (o >>= λ t. some (fold_below t)))
          ≡ some tree
        → (is_deterministic cond ≡ true)
          × ((if a
                then some true
                else if n
                then some false
                else (o >>= λ t. eval_tree (fold_unary_signs t) ctx))
              ≡ eval_tree tree ctx)
    at false a n o e q = cc
    at true true n o e q = cc
    at true false true o e q = cc
    at true false false none e q = cc
    at true false false (some t) e q = (e, ap (λ u. eval_tree u ctx) (folded t q))

eval_tree-constant : (v : Value) (ctx : Dict Value) → eval_tree (constant v) ctx ≡ some (truthy v)
unfolding eval_tree ev disallowed
eval_tree-constant v ctx = refl

true_constant :
    (ast_parse : Text → Option Expr) (cond : Text) (ctx : Dict Value) (o : Option Expr)
    → parse ast_parse cond ≡ o
    → is_true_constant o ≡ true
    → eval_condition ast_parse cond ctx ≡ some true
true_constant ast_parse cond ctx (some (constant v)) p t =
    (eval_condition-parse ast_parse cond (constant v) ctx p refl).1
    ∙ eval_tree-constant v ctx
    ∙ ap some t
true_constant ast_parse cond ctx _ p t = cc

keyword :
    (ast_parse : Text → Option Expr) (cond : Text) (ctx : Dict Value)
    → is_always (lower (expr_of cond)) ≡ true
    → eval_condition ast_parse cond ctx ≡ some true
unfolding eval_condition
keyword ast_parse cond ctx a = rw a

-- A condition that the analysis takes for always true holds in every context.
pub is_always_true-eval_condition :
    (ast_parse : Text → Option Expr) (cond : Text) (ctx : Dict Value)
    → is_always_true ast_parse cond ≡ true
    → eval_condition ast_parse cond ctx ≡ some true
unfolding is_always_true
is_always_true-eval_condition ast_parse cond ctx h =
    at (is_deterministic cond) (is_always (lower (expr_of cond))) refl h
  where
    at :
        (d a : Bool)
        → is_always (lower (expr_of cond)) ≡ a
        → (if not d then false else if a then true else is_true_constant (parse ast_parse cond))
          ≡ true
        → eval_condition ast_parse cond ctx ≡ some true
    at false a e q = cc
    at true true e q = keyword ast_parse cond ctx e
    at true false e q = true_constant ast_parse cond ctx (parse ast_parse cond) refl q

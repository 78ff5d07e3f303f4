-- ===== src/Predicates/Limits.antt =====
-- Where `check_predicate` and `eval_condition` differ (prismpath/predicates.py).
use prismpath.Base.{ℕ, zero, suc, ◌+◌, ◌≤◌, [], ◌∷◌, ◌≡◌, refl, arith, ge→ltb}
use prismpath.Base.Text.{Text}
use prismpath.Base.Dict.{Dict}
use prismpath.Predicates.Value.{Value}
use prismpath.Predicates.Syntax.{Expr, name, unary_op, UnaryOp, disallowed, depth}
use prismpath.Predicates.Eval.{ev, max_depth}
use prismpath.Predicates.Total.{Returns}
use prismpath.Predicates.Condition.{check_tree, eval_tree, nested_too_deeply}

-- `not not … x`
pub nots : ℕ → Text → Expr
nots zero x = name x
nots (suc n) x = unary_op UnaryOp.not (nots n x)

disallowed-nots : (n : ℕ) (x : Text) → disallowed (nots n x) ≡ []
unfolding disallowed nots
disallowed-nots zero x = refl
disallowed-nots (suc n) x = disallowed-nots n x

depth-nots : (n : ℕ) (x : Text) (d : ℕ) → depth (nots n x) d ≡ d + n + 1
unfolding depth nots
depth-nots zero x d = omega arith
depth-nots (suc n) x d = omega (arith, depth-nots n x (d + 1))

ev-nots :
    (n : ℕ) (x : Text) (ctx : Dict Value) (d : ℕ)
    → d + n ≤ max_depth
    → Returns (ev ctx (nots n x) d)
unfolding ev nots
ev-nots zero x ctx d h = rw (ge→ltb max_depth d (omega arith)) (_, refl)
ev-nots (suc n) x ctx d h =
    let (v, r) = ev-nots n x ctx (d + 1) (omega arith) in
    rw (ge→ltb max_depth d (omega arith)) (rw r (_, refl))

-- Fifty negations in front of a name: `check_predicate` counts the name's context node and rejects
-- the tree as nested too deeply, and `eval_condition` evaluates it in every context.
pub nots_rejected_and_evaluated :
    (x : Text) (ctx : Dict Value)
    → (check_tree (nots max_depth x) ≡ nested_too_deeply ∷ [])
      × Returns (eval_tree (nots max_depth x) ctx)
unfolding check_tree eval_tree
nots_rejected_and_evaluated x ctx =
    (rw (disallowed-nots max_depth x, depth-nots max_depth x 0) refl, evaluated)
  where
    evaluated : Returns (eval_tree (nots max_depth x) ctx)
    evaluated =
        let (v, r) = ev-nots max_depth x ctx 0 (omega arith) in
        rw (disallowed-nots max_depth x, r) (_, refl)

-- ===== src/ModelCheck/Deeper.antt =====
-- The evaluator's depth (prismpath/predicates.py, `_ev`): a tree has the same value one level further down.
use prismpath.Base.{
  ℕ, ◌+◌, ◌≤◌, Option, some, true, false, [], ◌≡◌, refl, sym, ap, ◌∙◌, arith, append-eq-nil, ge→ltb,
  not,
}
use prismpath.Base.Dict.{Dict}
use prismpath.Base.Maybe.{◌>>=◌}
use prismpath.Predicates.Value as V
use prismpath.Predicates.Value.{Value, Values, bool, truthy}
use prismpath.Predicates.Syntax.{
  Expr, Exprs, Comparisons, constant, name, bool_op, unary_op, compare, list, tuple, other, nil,
  cons, end, then_compare, UnaryOp, u_sub, u_add, invert, disallowed, disallowed_all,
  disallowed_comparisons, depth, depth_all, depth_comparisons,
}
use prismpath.Predicates.Eval.{ev, ev_all, ev_chain, compare_values, max_depth, guard_depth, join}
use prismpath.Predicates.Total.{depth-le, depth_all-le}

pub guard_depth-within : (d : ℕ) (r : Option Value) → d ≤ max_depth → guard_depth d r ≡ r
guard_depth-within d r h = rw (ge→ltb max_depth d h) refl

guarded :
    (d : ℕ) (r s : Option Value)
    → d + 1 ≤ max_depth
    → r ≡ s
    → guard_depth d r ≡ guard_depth (d + 1) s
guarded d r s h e = guard_depth-within d r (omega arith) ∙ e ∙ sym (guard_depth-within (d + 1) s h)

mutual
  unfolding depth

  depth_mono : (e : Expr) (d : ℕ) → depth e d ≤ depth e (d + 1)
  depth_mono (constant v) d = omega arith
  depth_mono (name x) d = omega arith
  depth_mono (bool_op op es) d = depth_all_mono es (d + 1)
  depth_mono (unary_op op e) d = omega (arith, depth_mono e (d + 1))
  depth_mono (compare e cs) d =
      omega (arith, depth_mono e (d + 1), depth_comparisons_mono cs (d + 1))
  depth_mono (list es) d = depth_all_mono es (d + 1)
  depth_mono (tuple es) d = depth_all_mono es (d + 1)
  depth_mono (other k nil) d = omega arith
  depth_mono (other k (cons e es)) d = depth_all_mono (cons e es) (d + 1)

  depth_all_mono : (es : Exprs) (d : ℕ) → depth_all es d ≤ depth_all es (d + 1)
  depth_all_mono nil d = omega arith
  depth_all_mono (cons e es) d = omega (arith, depth_mono e d, depth_all_mono es d)

  depth_comparisons_mono :
      (cs : Comparisons) (d : ℕ) → depth_comparisons cs d ≤ depth_comparisons cs (d + 1)
  depth_comparisons_mono end d = omega arith
  depth_comparisons_mono (then_compare op e cs) d =
      omega (arith, depth_mono e d, depth_comparisons_mono cs d)

pub depth-higher : (e : Expr) (d : ℕ) → depth e (d + 1) ≤ max_depth → depth e d ≤ max_depth
depth-higher e d h = omega (arith, h, depth_mono e d)

module _ (ctx : Dict Value) where
  -- One level further down, a tree has the same value.
  mutual
    unfolding ev disallowed depth

    pub ev-deeper :
        (e : Expr) (d : ℕ)
        → disallowed e ≡ []
        → depth e (d + 1) ≤ max_depth
        → ev ctx e d ≡ ev ctx e (d + 1)
    ev-deeper (constant v) d h k = guarded d _ _ k refl
    ev-deeper (name x) d h k = guarded d _ _ (omega arith) refl
    ev-deeper (bool_op op es) d h k =
        guarded d _ _ (omega (arith, depth_all-le es (d + 1 + 1)))
          (ap (λ o. o >>= λ vs. some (bool (join op vs))) (ev_all-deeper es (d + 1) h k))
    ev-deeper (unary_op UnaryOp.not e) d h k =
        guarded d _ _ (omega arith)
          (ap (λ o. o >>= λ v. some (bool (not (truthy v)))) (ev-deeper e (d + 1) h (omega arith)))
    ev-deeper (unary_op u_sub e) d h k = refl
    ev-deeper (unary_op u_add e) d h k = refl
    ev-deeper (unary_op invert e) d h k = refl
    ev-deeper (compare e cs) d h k =
        let (he, hcs) = append-eq-nil _ _ h in
        guarded d _ _ (omega (arith, depth-le e (d + 1 + 1))) (
          ap (λ o. o >>= λ left. ev_chain ctx left cs (d + 1))
            (ev-deeper e (d + 1) he (omega arith))
          ∙ ap (λ f. ev ctx e (d + 1 + 1) >>= f)
              (λ i left. ev_chain-deeper left cs (d + 1) hcs (omega arith) i))
    ev-deeper (list es) d h k =
        guarded d _ _ (omega (arith, depth_all-le es (d + 1 + 1)))
          (ap (λ o. o >>= λ vs. some (V.list vs)) (ev_all-deeper es (d + 1) h k))
    ev-deeper (tuple es) d h k =
        guarded d _ _ (omega (arith, depth_all-le es (d + 1 + 1)))
          (ap (λ o. o >>= λ vs. some (V.list vs)) (ev_all-deeper es (d + 1) h k))
    ev-deeper (other t es) d h k = refl

    ev_all-deeper :
        (es : Exprs) (d : ℕ)
        → disallowed_all es ≡ []
        → depth_all es (d + 1) ≤ max_depth
        → ev_all ctx es d ≡ ev_all ctx es (d + 1)
    ev_all-deeper nil d h k = refl
    ev_all-deeper (cons e es) d h k =
        let (he, hes) = append-eq-nil _ _ h in
        λ i. ev-deeper e d he (omega arith) i >>= λ v.
        ev_all-deeper es d hes (omega arith) i >>= λ vs. some (V.cons v vs)

    ev_chain-deeper :
        (left : Value) (cs : Comparisons) (d : ℕ)
        → disallowed_comparisons cs ≡ []
        → depth_comparisons cs (d + 1) ≤ max_depth
        → ev_chain ctx left cs d ≡ ev_chain ctx left cs (d + 1)
    ev_chain-deeper left end d h k = refl
    ev_chain-deeper left (then_compare op e cs) d h k =
        let (_, rest) = append-eq-nil _ _ h in
        let (he, hcs) = append-eq-nil _ _ rest in
        let shallow : depth_comparisons cs (d + 1) ≤ max_depth = omega (arith, k) in
        let same = ev-deeper e d he (omega arith) in
        let later : (right : Value) → ev_chain ctx right cs d ≡ ev_chain ctx right cs (d + 1) =
          λ right. ev_chain-deeper right cs d hcs shallow in
        λ i. same i >>= λ right. compare_values op left right >>= λ ok. elim ok [
          | true ↦ later right i
          | false ↦ some (bool false)
        ]

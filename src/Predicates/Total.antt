-- ===== src/Predicates/Total.antt =====
-- What `check_predicate` accepts, `eval_condition` evaluates: the static check stands in front of
-- `_ev` (prismpath/predicates.py).
use prismpath.Base.{
  ℕ, ◌+◌, ◌≤◌, Option, none, some, true, false, ◌||◌, List, [], ◌∷◌, map, ◌≡◌, refl, arith,
  append-eq-nil, Bool-cases, ge→ltb, inl, inr,
}
use prismpath.Base.Text.{Text, lower}
use prismpath.Base.Dict.{Dict}
use prismpath.Base.Maybe.{◌>>=◌}
use prismpath.Predicates.Value as V
use prismpath.Predicates.Value.{Value, Values, bool}
use prismpath.Predicates.Syntax.{
  Expr, Exprs, Comparisons, constant, name, bool_op, unary_op, compare, list, tuple, other, nil,
  cons, end, then_compare, UnaryOp, CmpOp, u_sub, u_add, invert, disallowed, disallowed_all,
  disallowed_comparisons, disallowed_cmp, depth, depth_all, depth_comparisons, fold_unary_signs,
}
use prismpath.Predicates.Eval.{ev, ev_all, ev_chain, compare_values, max_depth, guard_depth}
use prismpath.Predicates.Condition.{
  Problem, disallowed_syntax, dedup, check_tree, check_predicate, eval_tree, is_always, is_never,
  eval_condition, is_deterministic, expr_of,
}

-- Something was returned.
abbrev pub Returns {ℓ} : {A : Type ℓ} → Option A → Type ℓ
Returns {A} o = (a : A) × (o ≡ some a)

map-eq-nil : {A B : Type 0} (f : A → B) (xs : List A) → map f xs ≡ [] → xs ≡ []
map-eq-nil f [] h = refl
map-eq-nil f (x ∷ xs) h = cc

-- An allowed operator is in the table.
pub compare_values-Returns :
    (op : CmpOp) (v w : Value) → disallowed_cmp op ≡ [] → Returns (compare_values op v w)
unfolding compare_values
compare_values-Returns CmpOp.is v w h = cc
compare_values-Returns CmpOp.is_not v w h = cc
compare_values-Returns _ v w h = (_, refl)

mutual
  unfolding ev disallowed depth

  pub depth-le : (e : Expr) (d : ℕ) → d ≤ depth e d
  depth-le (constant v) d = omega arith
  depth-le (name x) d = omega arith
  depth-le (bool_op op es) d = omega (arith, depth_all-le es (d + 1))
  depth-le (unary_op op e) d = omega (arith, depth-le e (d + 1))
  depth-le (compare e cs) d = omega (arith, depth-le e (d + 1))
  depth-le (list es) d = omega (arith, depth_all-le es (d + 1))
  depth-le (tuple es) d = omega (arith, depth_all-le es (d + 1))
  depth-le (other k nil) d = omega arith
  depth-le (other k (cons e es)) d = omega (arith, depth-le e (d + 1))

  pub depth_all-le : (es : Exprs) (d : ℕ) → d ≤ depth_all es d
  depth_all-le nil d = omega arith
  depth_all-le (cons e es) d = omega (arith, depth-le e d)

  depth_comparisons-le : (cs : Comparisons) (d : ℕ) → d ≤ depth_comparisons cs d
  depth_comparisons-le end d = omega arith
  depth_comparisons-le (then_compare op e cs) d = omega (arith, depth-le e d)

guard_depth-Returns :
    (d : ℕ) (r : Option Value) → d ≤ max_depth → Returns r → Returns (guard_depth d r)
guard_depth-Returns d r h k = rw (ge→ltb max_depth d h) k

>>=-Returns {ℓ κ} :
    {A : Type ℓ} {B : Type κ} (m : Option A) (f : A → Option B)
    → Returns m
    → ((a : A) → Returns (f a))
    → Returns (m >>= f)
>>=-Returns none f (a, e) h = cc
>>=-Returns (some b) f r h = h b

mutual
  unfolding ev disallowed depth

  pub ev-Returns :
      (ctx : Dict Value) (e : Expr) (d : ℕ)
      → disallowed e ≡ []
      → depth e d ≤ max_depth
      → Returns (ev ctx e d)
  ev-Returns ctx (constant v) d h k = guard_depth-Returns d _ k (v, refl)
  ev-Returns ctx (name x) d h k = guard_depth-Returns d _ (omega arith) (_, refl)
  ev-Returns ctx (bool_op op es) d h k =
      guard_depth-Returns d _ (omega (arith, depth_all-le es (d + 1)))
        (>>=-Returns _ _ (ev_all-Returns ctx es (d + 1) h k) (λ vs. (_, refl)))
  ev-Returns ctx (unary_op UnaryOp.not e) d h k =
      guard_depth-Returns d _ (omega arith)
        (>>=-Returns _ _ (ev-Returns ctx e (d + 1) h (omega arith)) (λ v. (_, refl)))
  ev-Returns ctx (unary_op u_sub e) d h k = cc
  ev-Returns ctx (unary_op u_add e) d h k = cc
  ev-Returns ctx (unary_op invert e) d h k = cc
  ev-Returns ctx (compare e cs) d h k =
      let (none_in_e, none_in_cs) = append-eq-nil _ _ h in
      guard_depth-Returns d _ (omega (arith, depth-le e (d + 1))) (
        >>=-Returns _ _ (ev-Returns ctx e (d + 1) none_in_e (omega arith))
          (λ left. ev_chain-Returns ctx left cs (d + 1) none_in_cs (omega arith)))
  ev-Returns ctx (list es) d h k =
      guard_depth-Returns d _ (omega (arith, depth_all-le es (d + 1)))
        (>>=-Returns _ _ (ev_all-Returns ctx es (d + 1) h k) (λ vs. (_, refl)))
  ev-Returns ctx (tuple es) d h k =
      guard_depth-Returns d _ (omega (arith, depth_all-le es (d + 1)))
        (>>=-Returns _ _ (ev_all-Returns ctx es (d + 1) h k) (λ vs. (_, refl)))
  ev-Returns ctx (other t es) d h k = cc

  ev_all-Returns :
      (ctx : Dict Value) (es : Exprs) (d : ℕ)
      → disallowed_all es ≡ []
      → depth_all es d ≤ max_depth
      → Returns (ev_all ctx es d)
  ev_all-Returns ctx nil d h k = (V.nil, refl)
  ev_all-Returns ctx (cons e es) d h k =
      let (none_in_e, none_in_es) = append-eq-nil _ _ h in
      >>=-Returns _ _ (ev-Returns ctx e d none_in_e (omega arith))
        (λ v. >>=-Returns _ _ (ev_all-Returns ctx es d none_in_es (omega arith)) (λ vs. (_, refl)))

  ev_chain-Returns :
      (ctx : Dict Value) (left : Value) (cs : Comparisons) (d : ℕ)
      → disallowed_comparisons cs ≡ []
      → depth_comparisons cs d ≤ max_depth
      → Returns (ev_chain ctx left cs d)
  ev_chain-Returns ctx left end d h k = (bool true, refl)
  ev_chain-Returns ctx left (then_compare op e cs) d h k =
      let (good_op, rest) = append-eq-nil _ _ h in
      let (none_in_e, none_in_cs) = append-eq-nil _ _ rest in
      >>=-Returns _ _ (ev-Returns ctx e d none_in_e (omega arith)) (λ right.
        >>=-Returns _ _ (compare_values-Returns op left right good_op) (elim [
          | true ↦ ev_chain-Returns ctx right cs d none_in_cs (omega arith)
          | false ↦ (_, refl)
        ]))

dedup-eq-nil : (ps : List Problem) → dedup [] ps ≡ [] → ps ≡ []
unfolding dedup
dedup-eq-nil [] h = refl
dedup-eq-nil (p ∷ ps) h = cc

check_tree-eq-nil :
    (tree : Expr) → check_tree tree ≡ [] → (disallowed tree ≡ []) × (depth tree 0 ≤ max_depth)
unfolding check_tree
check_tree-eq-nil tree h =
    let (kinds, deep) = append-eq-nil _ _ (dedup-eq-nil _ h) in
    (map-eq-nil disallowed_syntax _ kinds, ground arith)

pub eval_tree-Returns :
    (tree : Expr) (ctx : Dict Value) → check_tree tree ≡ [] → Returns (eval_tree tree ctx)
unfolding eval_tree
eval_tree-Returns tree ctx h =
    let (allowed, shallow) = check_tree-eq-nil tree h in
    rw allowed (>>=-Returns _ _ (ev-Returns ctx tree 0 allowed shallow) (λ v. (_, refl)))

-- A clean condition that is no keyword was parsed, and its tree passed the two tests.
check_predicate-eq-nil :
    (ast_parse : Text → Option Expr) (condition : Text)
    → is_deterministic condition ≡ true
    → (is_always (lower (expr_of condition)) || is_never (lower (expr_of condition))) ≡ false
    → check_predicate ast_parse condition ≡ []
    → (tree : Expr) × (ast_parse (expr_of condition) ≡ some tree)
      × (check_tree (fold_unary_signs tree) ≡ [])
unfolding check_predicate
check_predicate-eq-nil ast_parse condition det key clean = ground arith

-- A deterministic condition in which `check_predicate` finds no problem is evaluated to a truth
-- value in every context: it never raises.
pub eval_condition-Returns :
    (ast_parse : Text → Option Expr) (condition : Text) (ctx : Dict Value)
    → is_deterministic condition ≡ true
    → check_predicate ast_parse condition ≡ []
    → Returns (eval_condition ast_parse condition ctx)
unfolding eval_condition
eval_condition-Returns ast_parse condition ctx det clean =
    let expr = expr_of condition in
    elim (Bool-cases (is_always (lower expr))) [
      | inl a ↦ (true, rw a refl)
      | inr a ↦ elim (Bool-cases (is_never (lower expr))) [
        | inl n ↦ (false, rw (a, n) refl)
        | inr n ↦
            let (tree, p, t) = check_predicate-eq-nil ast_parse condition det (rw (a, n)) clean in
            rw (a, n, p) (eval_tree-Returns (fold_unary_signs tree) ctx t)
      ]
    ]

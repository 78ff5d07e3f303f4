-- ===== src/Analysis/Always/Interval.antt =====
-- The interval check (prismpath/analysis.py, `_is_always_false`): a conjunction whose bounds contradict each
-- other is satisfied by no value.
use prismpath.Base.{
  ℕ, ◌+◌, Option, none, some, Bool, true, false, ◌&&◌, List, All, All-append, ◌≡◌, refl, ap, subst,
  ◌∙◌, arith, and_left, and_right,
}
use prismpath.Base.Int.{ℤ, ◌≤ℤ◌, suc_ℤ}
use prismpath.Base.Text.{Text}
use prismpath.Base.Maybe.{◌>>=◌}
use prismpath.Base.Dict.{Dict, lookup_or}
use prismpath.Predicates.Value as V
use prismpath.Predicates.Value.{Value, Values, truthy, int_of_bool, py_eq, py_compare}
use prismpath.Predicates.Syntax.{
  Expr, Exprs, constant, name, bool_op, compare, nil, cons, end, then_compare, BoolOp, CmpOp,
}
use prismpath.Predicates.Eval.{ev, ev_all, ev_chain, compare_values, guard_depth, all_truthy}
use prismpath.Analysis.Fragment.{Simple, as_simple_compare, flatten_and, flatten_all, Bound, flip}

-- The number that a value is compared as.
abbrev pub number_of : Value → Option ℤ
number_of (V.bool b) = some (int_of_bool b)
number_of (V.int n) = some n
number_of _ = none

-- The value is a number above, or below, a bound.
abbrev pub Above : Bound → Value → Type 0
Above (b, true) v = (n : ℤ) × (number_of v ≡ some n) × (b ≤ℤ n)
Above (b, false) v = (n : ℤ) × (number_of v ≡ some n) × (suc_ℤ b ≤ℤ n)

abbrev pub Below : Bound → Value → Type 0
Below (b, true) v = (n : ℤ) × (number_of v ≡ some n) × (n ≤ℤ b)
Below (b, false) v = (n : ℤ) × (number_of v ≡ some n) × (suc_ℤ n ≤ℤ b)

-- What a satisfied comparison with a number says.
abbrev pub Satisfies : CmpOp → ℤ → Value → Type 0
Satisfies CmpOp.gt n v = Above (n, false) v
Satisfies CmpOp.gt_e n v = Above (n, true) v
Satisfies CmpOp.lt n v = Below (n, false) v
Satisfies CmpOp.lt_e n v = Below (n, true) v
Satisfies CmpOp.eq n v = Above (n, true) v × Below (n, true) v
Satisfies _ n v = Unit

compare_values-Satisfies :
    (op : CmpOp) (v : Value) (n : ℤ) → compare_values op v (V.int n) ≡ some true → Satisfies op n v
unfolding compare_values py_eq py_compare
compare_values-Satisfies CmpOp.gt (V.bool b) n h = (int_of_bool b, refl, ground arith)
compare_values-Satisfies CmpOp.gt (V.int m) n h = (m, refl, ground arith)
compare_values-Satisfies CmpOp.gt _ n h = cc
compare_values-Satisfies CmpOp.gt_e (V.bool b) n h = (int_of_bool b, refl, ground arith)
compare_values-Satisfies CmpOp.gt_e (V.int m) n h = (m, refl, ground arith)
compare_values-Satisfies CmpOp.gt_e _ n h = cc
compare_values-Satisfies CmpOp.lt (V.bool b) n h = (int_of_bool b, refl, ground arith)
compare_values-Satisfies CmpOp.lt (V.int m) n h = (m, refl, ground arith)
compare_values-Satisfies CmpOp.lt _ n h = cc
compare_values-Satisfies CmpOp.lt_e (V.bool b) n h = (int_of_bool b, refl, ground arith)
compare_values-Satisfies CmpOp.lt_e (V.int m) n h = (m, refl, ground arith)
compare_values-Satisfies CmpOp.lt_e _ n h = cc
compare_values-Satisfies CmpOp.eq (V.bool b) n h =
    ((int_of_bool b, refl, ground arith), (int_of_bool b, refl, ground arith))
compare_values-Satisfies CmpOp.eq (V.int m) n h = ((m, refl, ground arith), (m, refl, ground arith))
compare_values-Satisfies CmpOp.eq _ n h = cc
compare_values-Satisfies _ v n h = tt

guard_depth-eq-some : (d : ℕ) (r : Option Value) (v : Value) → guard_depth d r ≡ some v → r ≡ some v
guard_depth-eq-some d r v h = ground (arith, h)

pub >>=-eq-some {ℓ κ} :
    {A : Type ℓ} {B : Type κ} (m : Option A) (f : A → Option B) {b : B}
    → (m >>= f) ≡ some b
    → (a : A) × (m ≡ some a) × (f a ≡ some b)
>>=-eq-some none f h = cc
>>=-eq-some (some a) f h = (a, refl, h)

-- Every conjunct is evaluated, at some depth, to a true value.
abbrev pub AllTrue : Dict Value → List Expr → Type 0
AllTrue ctx = All (λ c. (d : ℕ) × (v : Value) × (ev ctx c d ≡ some v) × (truthy v ≡ true))

same_list : {A : Type 0} → (x y : A) → some x ≡ some y → x ≡ y
same_list x y e = cc

-- The number on the left: the operator as it reads from the right.
swapped-Satisfies :
    (op : CmpOp) (v : Value) (n : ℤ)
    → compare_values op (V.int n) v ≡ some true
    → (op' : CmpOp) → flip op ≡ some op'
    → Satisfies op' n v
unfolding compare_values py_eq py_compare
swapped-Satisfies CmpOp.lt (V.bool b) n h op' f =
    subst (λ o. Satisfies o n (V.bool b)) (same_list CmpOp.gt op' f)
      (int_of_bool b, refl, ground arith)
swapped-Satisfies CmpOp.lt (V.int m) n h op' f =
    subst (λ o. Satisfies o n (V.int m)) (same_list CmpOp.gt op' f) (m, refl, ground arith)
swapped-Satisfies CmpOp.lt _ n h op' f = cc
swapped-Satisfies CmpOp.gt (V.bool b) n h op' f =
    subst (λ o. Satisfies o n (V.bool b)) (same_list CmpOp.lt op' f)
      (int_of_bool b, refl, ground arith)
swapped-Satisfies CmpOp.gt (V.int m) n h op' f =
    subst (λ o. Satisfies o n (V.int m)) (same_list CmpOp.lt op' f) (m, refl, ground arith)
swapped-Satisfies CmpOp.gt _ n h op' f = cc
swapped-Satisfies CmpOp.lt_e (V.bool b) n h op' f =
    subst (λ o. Satisfies o n (V.bool b)) (same_list CmpOp.gt_e op' f)
      (int_of_bool b, refl, ground arith)
swapped-Satisfies CmpOp.lt_e (V.int m) n h op' f =
    subst (λ o. Satisfies o n (V.int m)) (same_list CmpOp.gt_e op' f) (m, refl, ground arith)
swapped-Satisfies CmpOp.lt_e _ n h op' f = cc
swapped-Satisfies CmpOp.gt_e (V.bool b) n h op' f =
    subst (λ o. Satisfies o n (V.bool b)) (same_list CmpOp.lt_e op' f)
      (int_of_bool b, refl, ground arith)
swapped-Satisfies CmpOp.gt_e (V.int m) n h op' f =
    subst (λ o. Satisfies o n (V.int m)) (same_list CmpOp.lt_e op' f) (m, refl, ground arith)
swapped-Satisfies CmpOp.gt_e _ n h op' f = cc
swapped-Satisfies CmpOp.eq (V.bool b) n h op' f =
    subst (λ o. Satisfies o n (V.bool b)) (same_list CmpOp.eq op' f)
      ((int_of_bool b, refl, ground arith), (int_of_bool b, refl, ground arith))
swapped-Satisfies CmpOp.eq (V.int m) n h op' f =
    subst (λ o. Satisfies o n (V.int m)) (same_list CmpOp.eq op' f)
      ((m, refl, ground arith), (m, refl, ground arith))
swapped-Satisfies CmpOp.eq _ n h op' f = cc
swapped-Satisfies CmpOp.not_eq v n h op' f =
    subst (λ o. Satisfies o n v) (same_list CmpOp.not_eq op' f) tt
swapped-Satisfies _ v n h op' f = cc

mutual
  unfolding ev flatten_and

  pub flatten_and-AllTrue :
      (ctx : Dict Value) (e : Expr) (d : ℕ) (v : Value) (cs : List Expr)
      → ev ctx e d ≡ some v
      → truthy v ≡ true
      → flatten_and e ≡ some cs
      → AllTrue ctx cs
  flatten_and-AllTrue ctx (bool_op BoolOp.and es) d v cs h t f =
      let (vs, all_ev, is_v) =
        >>=-eq-some (ev_all ctx es (d + 1)) _ (guard_depth-eq-some d _ v h) in
      flatten_all-AllTrue ctx es (d + 1) vs cs all_ev (ap truthy (same_list _ v is_v) ∙ t) f
  flatten_and-AllTrue ctx (bool_op BoolOp.or es) d v cs h t f = cc
  flatten_and-AllTrue ctx e d v cs h t f = subst (AllTrue ctx) (same_list _ cs f) ((d, v, h, t), tt)

  flatten_all-AllTrue :
      (ctx : Dict Value) (es : Exprs) (d : ℕ) (vs : Values) (cs : List Expr)
      → ev_all ctx es d ≡ some vs
      → all_truthy vs ≡ true
      → flatten_all es ≡ some cs
      → AllTrue ctx cs
  flatten_all-AllTrue ctx nil d vs cs h t f = subst (AllTrue ctx) (same_list _ cs f) tt
  flatten_all-AllTrue ctx (cons e es) d vs cs h t f =
      let (v, one, rest) = >>=-eq-some (ev ctx e d) _ h in
      let (ws, more, is_vs) = >>=-eq-some (ev_all ctx es d) _ rest in
      let t' : (truthy v && all_truthy ws) ≡ true = ap all_truthy (same_list _ vs is_vs) ∙ t in
      let (sub, sub_eq, g) = >>=-eq-some (flatten_and e) _ f in
      let (out, out_eq, both) = >>=-eq-some (flatten_all es) _ g in
      subst (AllTrue ctx) (same_list _ cs both) (
        All-append _ sub out
          (flatten_and-AllTrue ctx e d v sub one (and_left (truthy v) (all_truthy ws) t') sub_eq)
          (flatten_all-AllTrue ctx es d ws out more (and_right (truthy v) (all_truthy ws) t')
            out_eq))

-- A comparison that is evaluated to a true value holds of its operands.
chain-holds :
    (ctx : Dict Value) (left : Value) (op : CmpOp) (r : Expr) (d : ℕ) (v : Value)
    → ev_chain ctx left (then_compare op r end) d ≡ some v
    → truthy v ≡ true
    → (right : Value) × (ev ctx r d ≡ some right) × (compare_values op left right ≡ some true)
unfolding ev
chain-holds ctx left op r d v h t =
    let (right, one, rest) = >>=-eq-some (ev ctx r d) _ h in
    let (ok, compared, last) = >>=-eq-some (compare_values op left right) _ rest in
    (right, one, compared ∙ ap some (held ok last))
  where
    held :
        (ok : Bool)
        → (elim ok [ true ↦ some (V.bool true) | false ↦ some (V.bool false) ]) ≡ some v
        → ok ≡ true
    held true q = refl
    held false q = ap truthy (same_list (V.bool false) v q) ∙ t

compare-holds :
    (ctx : Dict Value) (l r : Expr) (op : CmpOp) (d : ℕ) (v : Value)
    → ev ctx (compare l (then_compare op r end)) d ≡ some v
    → truthy v ≡ true
    → (left right : Value) × (ev ctx l (d + 1) ≡ some left)
      × (ev ctx r (d + 1) ≡ some right)
      × (compare_values op left right ≡ some true)
unfolding ev
compare-holds ctx l r op d v h t =
    let (left, one, rest) = >>=-eq-some (ev ctx l (d + 1)) _ (guard_depth-eq-some d _ v h) in
    let (right, two, holds) = chain-holds ctx left op r (d + 1) v rest t in
    (left, right, one, two, holds)

ev-name :
    (ctx : Dict Value) (x : Text) (d : ℕ) (v : Value)
    → ev ctx (name x) d ≡ some v
    → lookup_or V.null x ctx ≡ v
unfolding ev
ev-name ctx x d v h = same_list _ v (guard_depth-eq-some d _ v h)

pub ev-constant :
    (ctx : Dict Value) (w : Value) (d : ℕ) (v : Value) → ev ctx (constant w) d ≡ some v → w ≡ v
unfolding ev
ev-constant ctx w d v h = same_list w v (guard_depth-eq-some d _ v h)

-- What a recognised comparison says of the field's value.
abbrev pub Says : Dict Value → Simple → Type 0
Says ctx (x, op, n) = Satisfies op n (lookup_or V.null x ctx)

same_simple : (s t : Simple) → some (some s) ≡ some (some t) → s ≡ t
same_simple s t e = cc

pub as_simple_compare-Says :
    (ctx : Dict Value) (c : Expr) (d : ℕ) (v : Value) (s : Simple)
    → ev ctx c d ≡ some v
    → truthy v ≡ true
    → as_simple_compare c ≡ some (some s)
    → Says ctx s
unfolding as_simple_compare
as_simple_compare-Says ctx (compare (name x) (then_compare op (constant (V.int n)) end)) d v s h t
      e =
    let (left, right, l, r, holds) = compare-holds ctx (name x) (constant (V.int n)) op d v h t in
    subst (Says ctx) (same_simple (x, op, n) s e) (
      compare_values-Satisfies op (lookup_or V.null x ctx) n (
        ap (λ w. compare_values op w (V.int n)) (ev-name ctx x (d + 1) left l)
        ∙ ap (compare_values op left) (ev-constant ctx (V.int n) (d + 1) right r)
        ∙ holds))
as_simple_compare-Says ctx (compare (constant (V.int n)) (then_compare op (name x) end)) d v s h t
      e =
    let (left, right, l, r, holds) = compare-holds ctx (constant (V.int n)) (name x) op d v h t in
    let (op', turned, is_s) = >>=-eq-some (flip op) _ e in
    subst (Says ctx) (same_simple (x, op', n) s is_s) (
      swapped-Satisfies op (lookup_or V.null x ctx) n
        (ap (compare_values op (V.int n)) (ev-name ctx x (d + 1) right r)
          ∙ ap (λ w. compare_values op w right) (ev-constant ctx (V.int n) (d + 1) left l)
          ∙ holds)
        op' turned)
as_simple_compare-Says ctx _ d v s h t e = cc

-- ===== src/Analysis/Always/Narrow.antt =====
-- The bounds that `_is_always_false` (prismpath/analysis.py) gathers hold of the fields' values.
use prismpath.Base.{
  ℕ, Option, none, some, Bool, true, false, not, if◌then◌else◌, List, [], ◌∷◌, is_nil, All, ◌≡◌,
  ◌≢◌, ◌⊎◌, refl, sym, ap, subst, ◌∙◌, Bool-cases, inl, inr, arith,
}
use prismpath.Base.Int.{ℤ, ◌≤ℤ◌, suc_ℤ}
use prismpath.Base.Text.{Text}
use prismpath.Base.Maybe.{◌>>=◌}
use prismpath.Base.Dict.{Dict, lookup, lookup_or, insert-All, All-lookup}
use prismpath.Predicates.Value as V
use prismpath.Predicates.Value.{Value, truthy}
use prismpath.Predicates.Syntax.{
  Expr, CmpOp, constant, name, bool_op, unary_op, compare, list, tuple, other, UnaryOp, u_sub,
  u_add, invert, disallowed,
}
use prismpath.Predicates.Eval.{ev}
use prismpath.Predicates.Condition.{eval_tree, eval_condition}
use prismpath.Analysis.Fragment.{
  Simple, as_simple_compare, flatten_and, Bound, Limits, tighten_lo, tighten_hi, tightens_lo,
  tightens_hi, narrow, narrow_by, narrow_all, crossed, contradicts, never_holds, parse,
  is_always_false,
}
use prismpath.Analysis.Always.{is_sign, eval_condition-parse}
use prismpath.Analysis.Always.Interval.{
  Above, Below, Satisfies, Says, AllTrue, ev-constant, as_simple_compare-Says, flatten_and-AllTrue,
  >>=-eq-some,
}

module _ (ctx : Dict Value) where
  abbrev value_of : Text → Value
  value_of x = lookup_or V.null x ctx

  abbrev Holding : Limits × Limits → Type 0
  Holding (lo, hi) =
      All (λ (e : Text × Bound). Above e.1 (value_of e.0)) lo
      × All (λ (e : Text × Bound). Below e.1 (value_of e.0)) hi

  tighten_lo-Above :
      (x : Text) (b : Bound) (lo : Limits)
      → Above b (value_of x)
      → All (λ (e : Text × Bound). Above e.1 (value_of e.0)) lo
      → All (λ (e : Text × Bound). Above e.1 (value_of e.0)) (tighten_lo x b lo)
  unfolding tighten_lo
  tighten_lo-Above x b lo h hs = elim (Bool-cases (tightens_lo (lookup x lo) b)) [
    | inl t ↦ rw t (insert-All _ x b lo (λ j e. subst (λ k. Above b (value_of k)) (sym e) h) hs)
    | inr t ↦ rw t hs
  ]

  tighten_hi-Below :
      (x : Text) (b : Bound) (hi : Limits)
      → Below b (value_of x)
      → All (λ (e : Text × Bound). Below e.1 (value_of e.0)) hi
      → All (λ (e : Text × Bound). Below e.1 (value_of e.0)) (tighten_hi x b hi)
  unfolding tighten_hi
  tighten_hi-Below x b hi h hs = elim (Bool-cases (tightens_hi (lookup x hi) b)) [
    | inl t ↦ rw t (insert-All _ x b hi (λ j e. subst (λ k. Below b (value_of k)) (sym e) h) hs)
    | inr t ↦ rw t hs
  ]

  narrow-Holding :
      (x : Text) (op : CmpOp) (n : ℤ) (limits : Limits × Limits)
      → Satisfies op n (value_of x)
      → Holding limits
      → Holding (narrow x op n limits)
  unfolding narrow
  narrow-Holding x CmpOp.gt n (lo, hi) h (a, b) = (tighten_lo-Above x (n, false) lo h a, b)
  narrow-Holding x CmpOp.gt_e n (lo, hi) h (a, b) = (tighten_lo-Above x (n, true) lo h a, b)
  narrow-Holding x CmpOp.lt n (lo, hi) h (a, b) = (a, tighten_hi-Below x (n, false) hi h b)
  narrow-Holding x CmpOp.lt_e n (lo, hi) h (a, b) = (a, tighten_hi-Below x (n, true) hi h b)
  narrow-Holding x CmpOp.eq n (lo, hi) (h, k) (a, b) =
      (tighten_lo-Above x (n, true) lo h a, tighten_hi-Below x (n, true) hi k b)
  narrow-Holding x _ n limits h both = both

  narrow_by-Holding :
      (o : Option Simple) (limits : Limits × Limits)
      → ((s : Simple) → o ≡ some s → Says ctx s)
      → Holding limits
      → Holding (narrow_by o limits)
  unfolding narrow_by
  narrow_by-Holding none limits h both = both
  narrow_by-Holding (some (x, op, n)) limits h both =
      narrow-Holding x op n limits (h (x, op, n) refl) both

  narrow_all-Holding :
      (cs : List Expr) (limits limits' : Limits × Limits)
      → AllTrue ctx cs
      → Holding limits
      → narrow_all cs limits ≡ some limits'
      → Holding limits'
  unfolding narrow_all
  narrow_all-Holding [] limits limits' t both e = subst Holding (same_some e) both
    where
      same_some : {a b : Limits × Limits} → some a ≡ some b → a ≡ b
      same_some q = cc
  narrow_all-Holding (c ∷ cs) limits limits' ((d, v, h, t), ts) both e =
      let (parsed, p, rest) = >>=-eq-some (as_simple_compare c) _ e in
      narrow_all-Holding cs (narrow_by parsed limits) limits' ts
        (narrow_by-Holding parsed limits
          (λ s q. as_simple_compare-Says ctx c d v s h t (p ∙ ap some q)) both)
        rest

-- No number is above the one bound and below the other.
between_tt : (a b n : ℤ) → a ≤ℤ n → n ≤ℤ b → crossed (a, true) (some (b, true)) ≡ true → ⊥
between_tt a b n l u c = ground arith

between_tf : (a b n : ℤ) → a ≤ℤ n → suc_ℤ n ≤ℤ b → crossed (a, true) (some (b, false)) ≡ true → ⊥
between_tf a b n l u c = ground arith

between_ft : (a b n : ℤ) → suc_ℤ a ≤ℤ n → n ≤ℤ b → crossed (a, false) (some (b, true)) ≡ true → ⊥
between_ft a b n l u c = ground arith

between_ff :
    (a b n : ℤ) → suc_ℤ a ≤ℤ n → suc_ℤ n ≤ℤ b → crossed (a, false) (some (b, false)) ≡ true → ⊥
between_ff a b n l u c = ground arith

same_number : {a b : ℤ} → some a ≡ some b → a ≡ b
same_number q = cc

not-crossed :
    (lo hi : Bound) (v : Value) → Above lo v → Below hi v → crossed lo (some hi) ≡ true → ⊥
not-crossed (a, true) (b, true) v (n, en, l) (m, em, u) c =
    between_tt a b n l (subst (λ k. k ≤ℤ b) (same_number (sym em ∙ en)) u) c
not-crossed (a, true) (b, false) v (n, en, l) (m, em, u) c =
    between_tf a b n l (subst (λ k. suc_ℤ k ≤ℤ b) (same_number (sym em ∙ en)) u) c
not-crossed (a, false) (b, true) v (n, en, l) (m, em, u) c =
    between_ft a b n l (subst (λ k. k ≤ℤ b) (same_number (sym em ∙ en)) u) c
not-crossed (a, false) (b, false) v (n, en, l) (m, em, u) c =
    between_ff a b n l (subst (λ k. suc_ℤ k ≤ℤ b) (same_number (sym em ∙ en)) u) c

not-contradicts :
    (ctx : Dict Value) (lo hi : Limits) → Holding ctx (lo, hi) → contradicts lo hi ≡ true → ⊥
unfolding contradicts
not-contradicts ctx [] hi both e = cc
not-contradicts ctx ((x, b) ∷ lo) hi ((h, hs), below) e =
    at (lookup x hi) refl (Bool-cases (crossed b (lookup x hi)))
      (λ q. not-contradicts ctx lo hi (hs, below) q)
  where
    at :
        (o : Option Bound)
        → lookup x hi ≡ o
        → (crossed b (lookup x hi) ≡ true) ⊎ (crossed b (lookup x hi) ≡ false)
        → (contradicts lo hi ≡ true → ⊥)
        → ⊥
    at none q (inl c) rest = differ (ap (crossed b) (sym q) ∙ c)
      where
        differ : false ≡ true → ⊥
        differ z = cc
    at (some k) q (inl c) rest =
        not-crossed b k (value_of ctx x) h (All-lookup _ x k hi below q)
          (ap (crossed b) (sym q) ∙ c)
    at o q (inr c) rest = rest (rw c at e)

-- A conjunction whose bounds contradict each other is not evaluated to a true value.
conjunction :
    (ctx : Dict Value) (e : Expr) (d : ℕ) (v : Value) (o : Option (List Expr))
    → flatten_and e ≡ o
    → (elim o [
      | none ↦ some false
      | some conj ↦
          (narrow_all conj ([], []) >>= λ (limits : Limits × Limits).
          some (contradicts limits.0 limits.1))
    ])
      ≡ some true
    → ev ctx e d ≡ some v
    → truthy v ≡ true
    → ⊥
conjunction ctx e d v none f h run t = cc
conjunction ctx e d v (some conj) f h run t =
    let (limits, narrowed, last) = >>=-eq-some (narrow_all conj ([], [])) _ h in
    not-contradicts ctx limits.0 limits.1
      (narrow_all-Holding ctx conj ([], []) limits (flatten_and-AllTrue ctx e d v conj run t f)
        (tt, tt) narrowed)
      (same_bool last)
  where
    same_bool : {a : Bool} → some a ≡ some true → a ≡ true
    same_bool q = cc

never_holds-ev :
    (ctx : Dict Value) (e : Expr) (d : ℕ) (v : Value)
    → never_holds e ≡ some true
    → ev ctx e d ≡ some v
    → truthy v ≡ true
    → ⊥
unfolding never_holds ev
never_holds-ev ctx (constant w) d v h run t =
    falsy (truthy w) (truthy v) h (ap truthy (ev-constant ctx w d v run)) t
  where
    falsy : (a b : Bool) → some (not a) ≡ some true → a ≡ b → b ≡ true → ⊥
    falsy true b q e k = cc
    falsy false b q e k = cc
never_holds-ev ctx e d v h run t = conjunction ctx e d v (flatten_and e) refl h run t

eval_tree-never :
    (ctx : Dict Value) (e : Expr) → never_holds e ≡ some true → eval_tree e ctx ≢ some true
unfolding eval_tree
eval_tree-never ctx e h run = at (is_nil (disallowed e)) run
  where
    same_bool : {a : Bool} → some a ≡ some true → a ≡ true
    same_bool q = cc

    at : (b : Bool) → (if b then (ev ctx e 0 >>= λ v. some (truthy v)) else none) ≡ some true → ⊥
    at false q = cc
    at true q =
        let (v, evaluated, t) = >>=-eq-some (ev ctx e 0) _ q in
        never_holds-ev ctx e 0 v h evaluated (same_bool t)

-- A sign at the root is no comparison, and contradicts nothing.
never_holds-is_sign : (e : Expr) → never_holds e ≡ some true → is_sign e ≡ false
unfolding never_holds flatten_and narrow_all as_simple_compare narrow_by contradicts
never_holds-is_sign (unary_op u_sub e) h = cc
never_holds-is_sign (unary_op u_add e) h = cc
never_holds-is_sign (unary_op UnaryOp.not e) h = refl
never_holds-is_sign (unary_op invert e) h = refl
never_holds-is_sign (constant v) h = refl
never_holds-is_sign (name x) h = refl
never_holds-is_sign (bool_op op es) h = refl
never_holds-is_sign (compare e cs) h = refl
never_holds-is_sign (list es) h = refl
never_holds-is_sign (tuple es) h = refl
never_holds-is_sign (other k es) h = refl

-- A condition that the analysis takes for always false holds in no context.
pub is_always_false-eval_condition :
    (ast_parse : Text → Option Expr) (cond : Text) (ctx : Dict Value)
    → is_always_false ast_parse cond ≡ some true
    → eval_condition ast_parse cond ctx ≢ some true
unfolding is_always_false
is_always_false-eval_condition ast_parse cond ctx h holds = at (parse ast_parse cond) refl h
  where
    at :
        (o : Option Expr)
        → parse ast_parse cond ≡ o
        → (elim o [ none ↦ some false | some tree ↦ never_holds tree ]) ≡ some true
        → ⊥
    at none p q = cc
    at (some tree) p q = eval_tree-never ctx tree q (
        sym (eval_condition-parse ast_parse cond tree ctx p (never_holds-is_sign tree q)).1 ∙ holds)

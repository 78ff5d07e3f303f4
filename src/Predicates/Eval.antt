-- ===== src/Predicates/Eval.antt =====
-- `_compare` and `_ev` (prismpath/predicates.py). `none` is a PredicateError.
use Prim.Native.Nat.{Ordering}
use prismpath.Base.{
  ℕ, suc, ◌+◌, Option, none, some, Bool, true, false, ◌&&◌, ◌||◌, if◌then◌else◌, ltb,
}
use prismpath.Base as Bs
use prismpath.Base.Maybe.{◌>>=◌}
use prismpath.Base.Dict.{Dict, lookup_or}
use prismpath.Predicates.Value as V
use prismpath.Predicates.Value.{Value, Values, null, bool, py_eq, py_compare, py_in, truthy}
use prismpath.Predicates.Syntax.{
  Expr, Exprs, Comparisons, constant, name, bool_op, unary_op, compare, list, tuple, other, nil,
  cons, end, then_compare, BoolOp, UnaryOp, CmpOp, u_sub, u_add, invert,
}

abbrev pub max_depth : ℕ
max_depth = 50

abbrev pub on_order : (Ordering → Bool) → Value → Value → Option Bool
on_order test v w = elim (py_compare v w) [ none ↦ none | some o ↦ some (test o) ]

abbrev pub negated : Option Bool → Option Bool
negated none = none
negated (some b) = some (Bs.not b)

-- The table `_CMP`: the outer `none` is a missing key, the inner one an exception.
pub cmp_fn : CmpOp → Option (Value → Value → Option Bool)
cmp_fn CmpOp.eq = some (λ v w. some (py_eq v w))
cmp_fn CmpOp.not_eq = some (λ v w. some (Bs.not (py_eq v w)))
cmp_fn CmpOp.lt = some (on_order (elim [ Ordering.lt ↦ true | _ ↦ false ]))
cmp_fn CmpOp.lt_e = some (on_order (elim [ Ordering.gt ↦ false | _ ↦ true ]))
cmp_fn CmpOp.gt = some (on_order (elim [ Ordering.gt ↦ true | _ ↦ false ]))
cmp_fn CmpOp.gt_e = some (on_order (elim [ Ordering.lt ↦ false | _ ↦ true ]))
cmp_fn CmpOp.is_in = some py_in
cmp_fn CmpOp.not_in = some (λ v w. negated (py_in v w))
cmp_fn CmpOp.is = none
cmp_fn CmpOp.is_not = none

abbrev pub is_not_in : CmpOp → Bool
is_not_in CmpOp.not_in = true
is_not_in _ = false

-- What an exception inside the comparison stands for.
abbrev pub or_unsatisfied : CmpOp → Option Bool → Bool
or_unsatisfied op none = is_not_in op
or_unsatisfied op (some b) = b

-- `_compare`
unfoldable pub compare_values : CmpOp → Value → Value → Option Bool
unfolding cmp_fn
compare_values op left right = elim (cmp_fn op) [
  | none ↦ none
  | some fn ↦ some (or_unsatisfied op (fn left right))
]

abbrev pub all_truthy : Values → Bool
all_truthy V.nil = true
all_truthy (V.cons v vs) = truthy v && all_truthy vs

abbrev pub any_truthy : Values → Bool
any_truthy V.nil = false
any_truthy (V.cons v vs) = truthy v || any_truthy vs

abbrev pub join : BoolOp → Values → Bool
join BoolOp.and vs = all_truthy vs
join BoolOp.or vs = any_truthy vs

abbrev pub guard_depth : ℕ → Option Value → Option Value
guard_depth depth r = if ltb max_depth depth then none else r

-- `_ev`. A comparison chain stops at the first pair that fails.
unfoldable mutual
  pub ev : Dict Value → Expr → ℕ → Option Value
  ev ctx (constant v) depth = guard_depth depth (some v)
  ev ctx (name x) depth = guard_depth depth (some (lookup_or null x ctx))
  ev ctx (bool_op op es) depth =
      guard_depth depth (ev_all ctx es (depth + 1) >>= λ vs. some (bool (join op vs)))
  ev ctx (unary_op UnaryOp.not e) depth =
      guard_depth depth (ev ctx e (depth + 1) >>= λ v. some (bool (Bs.not (truthy v))))
  ev ctx (unary_op u_sub e) depth = none
  ev ctx (unary_op u_add e) depth = none
  ev ctx (unary_op invert e) depth = none
  ev ctx (compare e cs) depth =
      guard_depth depth (ev ctx e (depth + 1) >>= λ left. ev_chain ctx left cs (depth + 1))
  ev ctx (list es) depth = guard_depth depth (ev_all ctx es (depth + 1) >>= λ vs. some (V.list vs))
  ev ctx (tuple es) depth = guard_depth depth (ev_all ctx es (depth + 1) >>= λ vs. some (V.list vs))
  ev ctx (other k es) depth = none

  pub ev_all : Dict Value → Exprs → ℕ → Option Values
  ev_all ctx nil depth = some V.nil
  ev_all ctx (cons e es) depth =
      ev ctx e depth >>= λ v. ev_all ctx es depth >>= λ vs. some (V.cons v vs)

  pub ev_chain : Dict Value → Value → Comparisons → ℕ → Option Value
  ev_chain ctx left end depth = some (bool true)
  ev_chain ctx left (then_compare op e cs) depth = ev ctx e depth >>= λ right.
      compare_values op left right >>= λ ok. elim ok [
        | true ↦ ev_chain ctx right cs depth
        | false ↦ some (bool false)
      ]

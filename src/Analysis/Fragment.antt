-- ===== src/Analysis/Fragment.antt =====
-- What the analysis decides about single conditions (prismpath/analysis.py): `_parse`, `_is_always_true`,
-- `_references_visits`, `_negates`, `_as_simple_compare`, `_flatten_and` and `_is_always_false`.
-- `ast.dump` is compared by structure; of a node that the sandbox refuses, the tree has its type and
-- its children.
use prismpath.Base.{
  Option, none, some, Bool, true, false, not, ◌&&◌, ◌||◌, if◌then◌else◌, List, [], ◌∷◌, ◌++◌,
}
use prismpath.Base.Int.{ℤ, eq_ℤ, leb_ℤ}
use prismpath.Base.Text.{Text, codes, text_eq, lower}
use prismpath.Base.Maybe.{◌>>=◌}
use prismpath.Base.Dict.{Dict, lookup, insert}
use prismpath.Predicates.Value as V
use prismpath.Predicates.Value.{Value, Values, truthy}
use prismpath.Predicates.Syntax.{
  Expr, Exprs, Comparisons, constant, name, bool_op, unary_op, compare, list, tuple, other, nil,
  cons, end, then_compare, BoolOp, UnaryOp, CmpOp, u_sub, u_add, invert, fold_unary_signs,
}
use prismpath.Predicates.Condition.{is_deterministic, expr_of, is_always, is_never}

-- Constants with the same text: a bool is no int here.
unfoldable mutual
  pub same_value : Value → Value → Bool
  same_value V.null w = elim w [ V.null ↦ true | _ ↦ false ]
  same_value (V.bool a) w = elim w [ V.bool b ↦ if a then b else not b | _ ↦ false ]
  same_value (V.int m) w = elim w [ V.int n ↦ eq_ℤ m n | _ ↦ false ]
  same_value (V.str s) w = elim w [ V.str t ↦ text_eq s t | _ ↦ false ]
  same_value (V.list vs) w = elim w [ V.list ws ↦ same_values vs ws | _ ↦ false ]

  pub same_values : Values → Values → Bool
  same_values V.nil ws = elim ws [ V.nil ↦ true | V.cons _ _ ↦ false ]
  same_values (V.cons v vs) V.nil = false
  same_values (V.cons v vs) (V.cons w ws) = same_value v w && same_values vs ws

abbrev pub same_bool_op : BoolOp → BoolOp → Bool
same_bool_op BoolOp.and p = elim p [ BoolOp.and ↦ true | BoolOp.or ↦ false ]
same_bool_op BoolOp.or p = elim p [ BoolOp.or ↦ true | BoolOp.and ↦ false ]

abbrev pub same_unary_op : UnaryOp → UnaryOp → Bool
same_unary_op UnaryOp.not p = elim p [ UnaryOp.not ↦ true | _ ↦ false ]
same_unary_op u_sub p = elim p [ u_sub ↦ true | _ ↦ false ]
same_unary_op u_add p = elim p [ u_add ↦ true | _ ↦ false ]
same_unary_op invert p = elim p [ invert ↦ true | _ ↦ false ]

abbrev pub same_cmp_op : CmpOp → CmpOp → Bool
same_cmp_op CmpOp.eq p = elim p [ CmpOp.eq ↦ true | _ ↦ false ]
same_cmp_op CmpOp.not_eq p = elim p [ CmpOp.not_eq ↦ true | _ ↦ false ]
same_cmp_op CmpOp.lt p = elim p [ CmpOp.lt ↦ true | _ ↦ false ]
same_cmp_op CmpOp.lt_e p = elim p [ CmpOp.lt_e ↦ true | _ ↦ false ]
same_cmp_op CmpOp.gt p = elim p [ CmpOp.gt ↦ true | _ ↦ false ]
same_cmp_op CmpOp.gt_e p = elim p [ CmpOp.gt_e ↦ true | _ ↦ false ]
same_cmp_op CmpOp.is_in p = elim p [ CmpOp.is_in ↦ true | _ ↦ false ]
same_cmp_op CmpOp.not_in p = elim p [ CmpOp.not_in ↦ true | _ ↦ false ]
same_cmp_op CmpOp.is p = elim p [ CmpOp.is ↦ true | _ ↦ false ]
same_cmp_op CmpOp.is_not p = elim p [ CmpOp.is_not ↦ true | _ ↦ false ]

-- `ast.dump(x) == ast.dump(y)`
unfoldable mutual
  unfolding same_value

  pub same_tree : Expr → Expr → Bool
  same_tree (constant v) y = elim y [ constant w ↦ same_value v w | _ ↦ false ]
  same_tree (name s) y = elim y [ name t ↦ text_eq s t | _ ↦ false ]
  same_tree (bool_op p es) y = elim y [
    | bool_op q fs ↦ same_bool_op p q && same_trees es fs
    | _ ↦ false
  ]
  same_tree (unary_op p e) y = elim y [
    | unary_op q f ↦ same_unary_op p q && same_tree e f
    | _ ↦ false
  ]
  same_tree (compare e cs) y = elim y [
    | compare f ds ↦ same_tree e f && same_comparisons cs ds
    | _ ↦ false
  ]
  same_tree (list es) y = elim y [ list fs ↦ same_trees es fs | _ ↦ false ]
  same_tree (tuple es) y = elim y [ tuple fs ↦ same_trees es fs | _ ↦ false ]
  same_tree (other k es) y = elim y [ other l fs ↦ text_eq k l && same_trees es fs | _ ↦ false ]

  pub same_trees : Exprs → Exprs → Bool
  same_trees nil fs = elim fs [ nil ↦ true | cons _ _ ↦ false ]
  same_trees (cons e es) nil = false
  same_trees (cons e es) (cons f fs) = same_tree e f && same_trees es fs

  pub same_comparisons : Comparisons → Comparisons → Bool
  same_comparisons end ds = elim ds [ end ↦ true | then_compare _ _ _ ↦ false ]
  same_comparisons (then_compare p e cs) end = false
  same_comparisons (then_compare p e cs) (then_compare q f ds) =
      same_cmp_op p q && (same_tree e f && same_comparisons cs ds)

-- `isinstance(n, ast.Name) and n.id == x` for some node of the tree.
unfoldable mutual
  pub mentions : Text → Expr → Bool
  mentions x (constant v) = false
  mentions x (name y) = text_eq y x
  mentions x (bool_op op es) = mentions_any x es
  mentions x (unary_op op e) = mentions x e
  mentions x (compare e cs) = mentions x e || mentions_compared x cs
  mentions x (list es) = mentions_any x es
  mentions x (tuple es) = mentions_any x es
  mentions x (other k es) = mentions_any x es

  pub mentions_any : Text → Exprs → Bool
  mentions_any x nil = false
  mentions_any x (cons e es) = mentions x e || mentions_any x es

  pub mentions_compared : Text → Comparisons → Bool
  mentions_compared x end = false
  mentions_compared x (then_compare op e cs) = mentions x e || mentions_compared x cs

-- `_not_of`
unfoldable pub not_of : Expr → Expr → Bool
unfolding same_tree
not_of (unary_op UnaryOp.not e) y = same_tree e y
not_of x y = false

-- `_OPP.get`
abbrev pub opposite : CmpOp → Option CmpOp
opposite CmpOp.eq = some CmpOp.not_eq
opposite CmpOp.not_eq = some CmpOp.eq
opposite CmpOp.lt = some CmpOp.gt_e
opposite CmpOp.gt_e = some CmpOp.lt
opposite CmpOp.gt = some CmpOp.lt_e
opposite CmpOp.lt_e = some CmpOp.gt
opposite _ = none

abbrev pub is_opposite : CmpOp → CmpOp → Bool
is_opposite p q = elim (opposite p) [ some r ↦ same_cmp_op r q | none ↦ false ]

-- Two single comparisons of the same operands, with opposite operators.
unfoldable pub opposite_compares : Expr → Expr → Bool
unfolding same_tree
opposite_compares (compare l (then_compare p r end)) y = elim y [
  | compare l' cs ↦ elim cs [
    | then_compare q r' ds ↦ elim ds [
      | end ↦ same_tree l l' && (same_tree r r' && is_opposite p q)
      | _ ↦ false
    ]
    | end ↦ false
  ]
  | _ ↦ false
]
opposite_compares x y = false

-- The body of `_negates`, on the two trees.
unfoldable pub negating_trees : Expr → Expr → Bool
unfolding not_of opposite_compares
negating_trees x y = not_of x y || (not_of y x || opposite_compares x y)

-- The table `flip`; `none` is the KeyError of an operator that it lacks.
abbrev pub flip : CmpOp → Option CmpOp
flip CmpOp.lt = some CmpOp.gt
flip CmpOp.gt = some CmpOp.lt
flip CmpOp.lt_e = some CmpOp.gt_e
flip CmpOp.gt_e = some CmpOp.lt_e
flip CmpOp.eq = some CmpOp.eq
flip CmpOp.not_eq = some CmpOp.not_eq
flip _ = none

abbrev pub Simple : Type 0
Simple = Text × CmpOp × ℤ

abbrev pub flipped : Text → CmpOp → ℤ → Option (Option Simple)
flipped x op n = flip op >>= λ op'. some (some (x, op', n))

-- `_as_simple_compare`: the outer `none` is a KeyError, the inner one None.
unfoldable pub as_simple_compare : Expr → Option (Option Simple)
as_simple_compare (compare (name x) (then_compare op (constant (V.int n)) end)) =
    some (some (x, op, n))
as_simple_compare (compare (constant (V.int n)) (then_compare op (name x) end)) = flipped x op n
as_simple_compare e = some none

-- `_flatten_and`
unfoldable mutual
  pub flatten_and : Expr → Option (List Expr)
  flatten_and (bool_op BoolOp.and es) = flatten_all es
  flatten_and (bool_op BoolOp.or es) = none
  flatten_and e = some (e ∷ [])

  pub flatten_all : Exprs → Option (List Expr)
  flatten_all nil = some []
  flatten_all (cons e es) = flatten_and e >>= λ sub. flatten_all es >>= λ out. some (sub ++ out)

-- A bound: its value, and whether it is inclusive.
abbrev pub Bound : Type 0
Bound = ℤ × Bool

abbrev pub Limits : Type 0
Limits = Dict Bound

-- `lo.get(var)` is None, or the new bound is tighter.
abbrev pub tightens_lo : Option Bound → Bound → Bool
tightens_lo none b = true
tightens_lo (some (w, incl)) (v, inc) = not (leb_ℤ v w) || (eq_ℤ v w && (incl && not inc))

abbrev pub tightens_hi : Option Bound → Bound → Bool
tightens_hi none b = true
tightens_hi (some (w, incl)) (v, inc) = not (leb_ℤ w v) || (eq_ℤ v w && (incl && not inc))

unfoldable pub tighten_lo : Text → Bound → Limits → Limits
tighten_lo x b lo = if tightens_lo (lookup x lo) b then insert x b lo else lo

unfoldable pub tighten_hi : Text → Bound → Limits → Limits
tighten_hi x b hi = if tightens_hi (lookup x hi) b then insert x b hi else hi

-- What one comparison does to `lo` and `hi`.
unfoldable pub narrow : Text → CmpOp → ℤ → Limits × Limits → Limits × Limits
unfolding tighten_lo tighten_hi
narrow x CmpOp.gt n (lo, hi) = (tighten_lo x (n, false) lo, hi)
narrow x CmpOp.gt_e n (lo, hi) = (tighten_lo x (n, true) lo, hi)
narrow x CmpOp.lt n (lo, hi) = (lo, tighten_hi x (n, false) hi)
narrow x CmpOp.lt_e n (lo, hi) = (lo, tighten_hi x (n, true) hi)
narrow x CmpOp.eq n (lo, hi) = (tighten_lo x (n, true) lo, tighten_hi x (n, true) hi)
narrow x op n limits = limits

unfoldable pub narrow_by : Option Simple → Limits × Limits → Limits × Limits
unfolding narrow
narrow_by none limits = limits
narrow_by (some (x, op, n)) limits = narrow x op n limits

-- The loop over the conjuncts; `none` is a KeyError.
unfoldable pub narrow_all : List Expr → Limits × Limits → Option (Limits × Limits)
unfolding as_simple_compare narrow_by
narrow_all [] limits = some limits
narrow_all (c ∷ cs) limits =
    as_simple_compare c >>= λ parsed. narrow_all cs (narrow_by parsed limits)

abbrev pub crossed : Bound → Option Bound → Bool
crossed b none = false
crossed (lv, li) (some (hv, hi_inc)) = not (leb_ℤ lv hv) || (eq_ℤ lv hv && not (li && hi_inc))

-- Some variable has a lower and an upper bound that leave nothing in between.
unfoldable pub contradicts : Limits → Limits → Bool
contradicts [] hi = false
contradicts ((x, b) ∷ lo) hi = crossed b (lookup x hi) || contradicts lo hi

-- `_is_always_false`, once the condition is parsed; `none` is a KeyError.
unfoldable pub never_holds : Expr → Option Bool
unfolding flatten_and narrow_all contradicts
never_holds (constant v) = some (not (truthy v))
never_holds e = elim (flatten_and e) [
  | none ↦ some false
  | some conj ↦ (narrow_all conj ([], []) >>= λ (lo, hi). some (contradicts lo hi))
]

abbrev pub is_true_constant : Option Expr → Bool
is_true_constant (some (constant v)) = truthy v
is_true_constant _ = false

-- `fold_unary_signs` of a bare expression: its result is the tree that it was given, whose root the
-- visitor cannot replace, so that a sign at the root stays.
unfoldable pub fold_below : Expr → Expr
fold_below (unary_op op e) = unary_op op (fold_unary_signs e)
fold_below e = fold_unary_signs e

module _ (ast_parse : Text → Option Expr) where
  -- `_parse`
  unfoldable pub parse : Text → Option Expr
  unfolding fold_below
  parse cond =
      let expr = expr_of cond in
      if not (is_deterministic cond)
      then none
      else if is_always (lower expr) || is_never (lower expr)
      then none
      else (ast_parse expr >>= λ tree. some (fold_below tree))

  unfoldable pub is_always_true : Text → Bool
  unfolding parse
  is_always_true cond =
      if not (is_deterministic cond)
      then false
      else if is_always (lower (expr_of cond))
      then true
      else is_true_constant (parse cond)

  unfoldable pub references_visits : Text → Bool
  unfolding parse mentions
  references_visits cond = elim (parse cond) [
    | none ↦ false
    | some tree ↦ mentions (codes "visits") tree
  ]

  unfoldable pub negates : Text → Text → Bool
  unfolding parse negating_trees
  negates a b = elim (parse a) [
    | none ↦ false
    | some na ↦ elim (parse b) [ none ↦ false | some nb ↦ negating_trees na nb ]
  ]

  -- `none` is a KeyError.
  unfoldable pub is_always_false : Text → Option Bool
  unfolding parse never_holds
  is_always_false cond = elim (parse cond) [ none ↦ some false | some tree ↦ never_holds tree ]

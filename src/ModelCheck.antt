-- ===== src/ModelCheck.antt =====
-- The match-action fragment, Level M (prismpath/model_check.py): which conditions are in it, and the report
-- on the edges of a flow. A condition that is in the fragment has no reason against it.
pub mod Deeper
pub mod Chains
pub mod Fragment
use prismpath.Base.{
  Option, none, some, Bool, true, false, not, ◌&&◌, ◌||◌, if◌then◌else◌, List, [], ◌∷◌, ◌++◌,
  is_nil,
}
use prismpath.Base.Text.{Text, codes, lower, starts_with}
use prismpath.Base.Dict.{Dict, lookup}
use prismpath.Graph.{Node, Graph, Edge}
use prismpath.Predicates.Value as V
use prismpath.Predicates.Value.{Value}
use prismpath.Predicates.Syntax.{
  Expr, Exprs, Comparisons, constant, name, bool_op, unary_op, compare, list, tuple, other, nil,
  cons, end, then_compare, BoolOp, UnaryOp, CmpOp, u_sub, u_add, invert,
}
use prismpath.Predicates.Condition.{
  is_deterministic, is_error, is_semantic, error_expr, expr_of, is_always, is_never,
}
use prismpath.Analysis.Fragment.{parse}
use prismpath.Analysis.Reach.{reachable}
use prismpath.Analysis.Finding.{sorted}

-- The reason codes.
pub data Reason : Type 0 where
  chained field_vs_field substring non_literal string_order constant_only nested syntax : Reason
  not_deterministic : Reason

-- `_scalar_const`
abbrev pub scalar_const : Expr → Bool
scalar_const (constant (V.list vs)) = false
scalar_const (constant v) = true
scalar_const e = false

abbrev pub elements_reason : Exprs → Option Reason
elements_reason nil = none
elements_reason (cons (list es) rest) = some nested
elements_reason (cons (tuple es) rest) = some nested
elements_reason (cons e rest) =
    let later = elements_reason rest in if scalar_const e then later else some non_literal

abbrev pub collection_reason : Expr → Option Reason
collection_reason (constant (V.str s)) = some substring
collection_reason (list es) = elements_reason es
collection_reason (tuple es) = elements_reason es
collection_reason right = some non_literal

-- `field in [literals]`
abbrev pub membership_reason : Expr → Expr → Option Reason
membership_reason (name x) right = collection_reason right
membership_reason (constant v) right = some constant_only
membership_reason left right = some field_vs_field

abbrev is_order : CmpOp → Bool
is_order CmpOp.lt = true
is_order CmpOp.lt_e = true
is_order CmpOp.gt = true
is_order CmpOp.gt_e = true
is_order op = false

abbrev pub order_reason : CmpOp → Expr → Option Reason
order_reason op (constant (V.str s)) = if is_order op then some string_order else none
order_reason op e = none

abbrev pub is_name : Expr → Bool
is_name (name x) = true
is_name e = false

-- `field OP constant`, either way round.
abbrev pub comparison_reason : CmpOp → Expr → Expr → Option Reason
comparison_reason op left right =
    if is_name left && scalar_const right
    then order_reason op right
    else if is_name right && scalar_const left
    then order_reason op left
    else if is_name left && is_name right
    then some field_vs_field
    else if scalar_const left && scalar_const right
    then some constant_only
    else some syntax

abbrev pub compare_reason : CmpOp → Expr → Expr → Option Reason
compare_reason CmpOp.is left right = some syntax
compare_reason CmpOp.is_not left right = some syntax
compare_reason CmpOp.is_in left right = membership_reason left right
compare_reason CmpOp.not_in left right = membership_reason left right
compare_reason op left right = comparison_reason op left right

-- `_atom_reason`
unfoldable pub atom_reason : Expr → Option Reason
atom_reason (name x) = none
atom_reason (constant v) = some constant_only
atom_reason (compare left (then_compare op right end)) = compare_reason op left right
atom_reason (compare left cs) = some chained
atom_reason e = some syntax

-- The comparisons of a chain, each with its two operands.
unfoldable pub pairs : Expr → Comparisons → Exprs
pairs left end = nil
pairs left (then_compare op right cs) =
    cons (compare left (then_compare op right end)) (pairs right cs)

-- `_desugar_chains`
unfoldable mutual
  unfolding pairs

  pub desugar_chains : Expr → Expr
  desugar_chains (bool_op op es) = bool_op op (desugar_all es)
  desugar_chains (unary_op UnaryOp.not e) = unary_op UnaryOp.not (desugar_chains e)
  desugar_chains (compare left (then_compare op right (then_compare op' right' cs))) =
      bool_op BoolOp.and (pairs left (then_compare op right (then_compare op' right' cs)))
  desugar_chains e = e

  pub desugar_all : Exprs → Exprs
  desugar_all nil = nil
  desugar_all (cons e es) = cons (desugar_chains e) (desugar_all es)

-- `_classify`
unfoldable mutual
  unfolding atom_reason

  pub classify : Expr → Option Reason
  classify (bool_op op es) = classify_all es
  classify (unary_op UnaryOp.not e) = classify e
  classify e = atom_reason e

  pub classify_all : Exprs → Option Reason
  classify_all nil = none
  classify_all (cons e es) =
      let later = classify_all es in elim (classify e) [ some r ↦ some r | none ↦ later ]

-- A row of the report: a deterministic edge of a node, with the reason against it.
pub record Row : Type 0 where
  pub node : Text
  pub target : Text
  pub condition : Text
  pub reason : Option Reason

module _ (ast_parse : Text → Option Expr) where
  -- Of a deterministic condition.
  abbrev level_m_of : Text → Option Reason
  level_m_of cond =
      let low = lower (expr_of cond) in
      if is_always low || is_never low then none else elim (parse ast_parse cond) [
        | none ↦ some syntax
        | some tree ↦ classify (desugar_chains tree)
      ]

  -- The clause of an error edge starts with `when`, so that it is deterministic.
  unfoldable pub is_level_m : Text → Option Reason
  unfolding classify desugar_chains
  is_level_m cond =
      if is_deterministic cond
      then level_m_of cond
      else if not (is_error cond)
      then some not_deterministic
      else if is_nil (error_expr cond)
      then none
      else if starts_with (codes "when ") (lower (error_expr cond))
      then level_m_of (error_expr cond)
      else level_m_of (codes "when " ++ error_expr cond)

  abbrev edge_rows : Text → List Edge → List Row
  edge_rows x [] = []
  edge_rows x ((t, c) ∷ es) =
      (if is_deterministic c
        then record { node = x; target = t; condition = c; reason = is_level_m c } ∷ []
        else [])
      ++ edge_rows x es

  abbrev node_rows : Text → Option Node → List Row
  node_rows x none = []
  node_rows x (some n) = edge_rows x n.edges

  abbrev rows_over : Dict Node → List Text → List Row
  rows_over nodes [] = []
  rows_over nodes (x ∷ xs) = node_rows x (lookup x nodes) ++ rows_over nodes xs

  unfoldable pub level_m_report : Graph → List Row
  unfolding is_level_m reachable
  level_m_report graph = rows_over graph.nodes (sorted (reachable graph))

  abbrev outside : List Row → List Row
  outside [] = []
  outside (r ∷ rs) = elim r.reason [ none ↦ outside rs | some _ ↦ r ∷ outside rs ]

  -- The rows against the flow; the flow is in the fragment if there are none.
  unfoldable pub flow_level_m : Graph → List Row
  unfolding level_m_report
  flow_level_m graph = outside (level_m_report graph)

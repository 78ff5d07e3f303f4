-- ===== src/Examples/QuantizerRun.antt =====
-- The quantizer (adapters/telemetry/quantizer.py) on a field with two constants.
use prismpath.Base.{ℕ, Option, some, true, false, List, [], ◌∷◌, ◌≡◌, refl, inl}
use prismpath.Base.Int.{ℤ, pos}
use prismpath.Base.Text.{Text, codes, strip, lower}
use prismpath.Base.Dict.{Dict}
use prismpath.Graph.{Graph}
use prismpath.Predicates.Value as V
use prismpath.Predicates.Value.{Value}
use prismpath.Predicates.Syntax.{
  Expr, BoolOp, UnaryOp, CmpOp, bool_op, unary_op, compare, name, constant, cons, nil, then_compare,
  end,
}
use prismpath.Predicates.Condition.{
  eval_condition, expr_of, is_always, is_never, is_deterministic, is_semantic,
}
use prismpath.Telemetry.Quantizer.{
  NumAtom, num_cut, numeric_cells, numeric, symbol, atoms, compare_atoms, edge_atoms, flow_atoms,
  Partition, build_partitions, quantize, reconstruct,
}
use prismpath.Telemetry.Quantizer.Signs.{negative_cut, edge_atoms-eval_condition}
use prismpath.Telemetry.Quantizer.Decisions.{
  connective, negation, field_first, constant_first, none_left, one_more,
}
use prismpath.Telemetry.Quantizer.Reading.{reconstruct-quantize}
use prismpath.Examples.EngineRun.{node_of}

-- x < 3 and x == 7
abbrev atoms_of_x : List NumAtom
atoms_of_x = num_cut CmpOp.lt (pos 3) ∷ num_cut CmpOp.eq (pos 7) ∷ []

-- 5 and 3 are in one cell, 7 is in another.
five_is_three : symbol (numeric (numeric_cells atoms_of_x)) (V.int (pos 5)) ≡ some 1
unfolding symbol numeric_cells
five_is_three = refl

seven_is_alone : symbol (numeric (numeric_cells atoms_of_x)) (V.int (pos 7)) ≡ some 2
unfolding symbol numeric_cells
seven_is_alone = refl

-- `when x < 3 or not 7 == x`
abbrev tree_of_x : Expr
tree_of_x = bool_op BoolOp.or (
    cons (compare (name (codes "x")) (then_compare CmpOp.lt (constant (V.int (pos 3))) end)) (
      cons
        (unary_op UnaryOp.not
          (compare (constant (V.int (pos 7))) (then_compare CmpOp.eq (name (codes "x")) end)))
        nil))

abbrev parse_x : Text → Option Expr
parse_x t = some tree_of_x

abbrev flow_of_x : Graph
flow_of_x = record {
  name = codes "x";
  start = codes "a";
  nodes =
      (codes "a", node_of (codes "a") ((codes "b", codes "when x") ∷ []))
      ∷ (codes "b", node_of (codes "b") [])
      ∷ [];
}

abbrev reading_of_x : Dict Value
reading_of_x = (codes "x", V.int (pos 5)) ∷ []

reconstruct-quantize_example :
    (parts : Dict Partition) × (symbols : Dict ℕ) × (restored : Dict Value) × (build_partitions
        parse_x flow_of_x
      ≡ some parts)
    × (quantize parts reading_of_x ≡ some symbols)
    × (reconstruct parts symbols ≡ some restored)
    × (eval_condition parse_x (codes "when x") reading_of_x
        ≡ eval_condition parse_x (codes "when x") restored)
unfolding flow_atoms edge_atoms atoms is_deterministic is_semantic is_always is_never strip lower
    expr_of compare_atoms
reconstruct-quantize_example =
    reconstruct-quantize parse_x flow_of_x reading_of_x (codes "when x") tree_of_x
      ((refl, (refl, tt)), tt) ((pos 5, refl), tt) (inl (inl refl))
      (record { deterministic = refl; no_always = refl; no_never = refl }) refl
      (connective
        (one_more (field_first refl) (one_more (negation (constant_first refl)) none_left)))

-- `when x >= -5`
abbrev parse_negative : Text → Option Expr
parse_negative t = some (negative_cut CmpOp.gt_e (codes "x") 4)

edge_atoms-eval_condition_example :
    (edge_atoms parse_negative (codes "when x >= -5") [] ≡ [])
    × ((v w : ℤ) × (eval_condition parse_negative (codes "when x >= -5") ((codes "x", V.int v) ∷ [])
          ≡ some true)
        × (eval_condition parse_negative (codes "when x >= -5") ((codes "x", V.int w) ∷ [])
            ≡ some false))
unfolding expr_of strip lower is_always is_never
edge_atoms-eval_condition_example =
    edge_atoms-eval_condition parse_negative (codes "when x >= -5") (codes "x") CmpOp.gt_e 4 [] refl
      refl refl refl

-- ===== src/Examples/AnalysisRun.antt =====
-- The analysis (prismpath/analysis.py) of small flows.
use prismpath.Base.{
  ℕ, suc, none, some, true, false, List, [], ◌∷◌, ◌++◌, ◌≡◌, refl, get_elem?, Option, ◌↔◌, ◌≢◌,
}
use prismpath.Base.Int.{pos}
use prismpath.Base.Text.{Text, codes, strip, lower}
use prismpath.Base.Dict.{has_key}
use prismpath.Graph.{Graph, Edge}
use prismpath.Predicates.Value as V
use prismpath.Predicates.Value.{Value, py_eq}
use prismpath.Predicates.Syntax.{
  Expr, constant, unary_op, u_sub, bool_op, BoolOp, cons, nil, CmpOp, fold_unary_signs, disallowed,
}
use prismpath.Predicates.Condition.{
  is_deterministic, is_semantic, eval_condition, eval_tree, expr_of,
}
use prismpath.Engine.State.{by_predicate, empty_state}
use prismpath.Engine.Turn.{Decision, Config, Loop, again, move, route_turn}
use prismpath.Engine.Run.{run, bound_of}
use prismpath.Analysis.Finding.{Finding}
use prismpath.Analysis.Fragment.{is_always_true, is_always_false, negating_trees}
use prismpath.Analysis.Reach.{member, edge_count, reachable}
use prismpath.Analysis.Reach.Correct.{Reaches, reachable_iff}
use prismpath.Analysis.Reach.Stack.{In}
use prismpath.Analysis.Reach.Fuel.{Ends, reachable-Ends}
use prismpath.Analysis.Reach.Runs.{path_of, run-reachable}
use prismpath.Analysis.Always.{is_always_true-eval_condition}
use prismpath.Analysis.Always.Narrow.{is_always_false-eval_condition}
use prismpath.Analysis.Routes.{first_true, is_shadowed}
use prismpath.Analysis.Routes.Shadowed.{route_turn-is_shadowed}
use prismpath.Analysis.Routes.Stuck.{comparison, negating_trees-eval_tree}
use prismpath.Analysis.Compose.{portability}
use prismpath.Analysis.Compose.Portable.{with_router, run-portability}
use prismpath.Analysis.Analyze.{analyze}
use prismpath.Analysis.Analyze.Clean.{OutcomeFound, run-analyze}
use prismpath.Predicates.Condition.{
  check_predicate, check_tree, is_always, is_error, is_event, is_never,
}
use prismpath.Predicates.Syntax.{depth}
use prismpath.Contract.Derive.{compare_fields, edge_fields, walk}
use prismpath.Examples.EngineRun.{node_of, flow, env, options, first_edge-RoutesAmong}

-- The flow with a node that no edge leads to.
abbrev island : Graph
island = record {
  name = flow.name;
  start = flow.start;
  nodes =
      flow.nodes
      ++ (codes "lone", node_of (codes "lone") ((codes "done", codes "always") ∷ [])) ∷ [];
}

reachable_iff_example :
    (member (codes "lone") (reachable island) ≡ true)
    ↔ (Reaches island (codes "lone") × (has_key (codes "lone") island.nodes ≡ true))
reachable_iff_example = reachable_iff island (codes "lone")

reachable-Ends_example :
    Ends island.nodes (suc (edge_count island.nodes)) [] (island.start ∷ []) (reachable island)
reachable-Ends_example = reachable-Ends island

-- `when -5`
abbrev parse_signed : Text → Option Expr
parse_signed t = some (unary_op u_sub (constant (V.int (pos 5))))

run-reachable_example : ¬ In (codes "lone") (path_of (run env options island))
unfolding reachable bound_of
run-reachable_example =
    run-reachable env options island none first_edge-RoutesAmong refl refl refl (codes "lone") refl
      refl

is_always_true-eval_condition_example :
    eval_condition env.ast_parse (codes "otherwise") [] ≡ some true
unfolding is_always_true is_deterministic lower strip is_always expr_of
is_always_true-eval_condition_example =
    is_always_true-eval_condition env.ast_parse (codes "otherwise") [] refl

-- x < 1 and x > 3
abbrev impossible : Expr
impossible = bool_op BoolOp.and (
    cons (comparison (codes "x") CmpOp.lt (pos 1))
      (cons (comparison (codes "x") CmpOp.gt (pos 3)) nil))

is_always_false-eval_condition_example :
    eval_condition
      (λ t. some impossible)
      (codes "when x < 1 and x > 3")
      ((codes "x", V.int (pos 2)) ∷ [])
    ≢ some true
unfolding is_always_false is_deterministic lower strip is_always expr_of is_never fold_unary_signs
is_always_false-eval_condition_example =
    is_always_false-eval_condition (λ t. some impossible) (codes "when x < 1 and x > 3")
      ((codes "x", V.int (pos 2)) ∷ []) refl

abbrev two_ways : List Edge
two_ways =
    (codes "fix", codes "when x == 1")
    ∷ (codes "done", codes "always")
    ∷ (codes "lone", codes "all is well")
    ∷ []

abbrev config : Config ℕ
config = record { bound = none; human_floor = none; type_gate = false; contracts = [] }

abbrev at_triage : Loop
at_triage = record {
  node = codes "triage";
  state = empty_state;
  path = codes "triage" ∷ [];
  steps = [];
  saved = [];
}

route_turn-is_shadowed_example :
    (i : ℕ) × (t : Text) × (c : Text) × (get_elem? two_ways i ≡ some (t, c))
    × (is_shadowed 1 i c ≡ false)
    × (route_turn env config (node_of (codes "triage") two_ways) [] [] at_triage
        ≡ again (
            move
              (record { node = codes "triage"; outcome = []; target = t; used = by_predicate c })
              at_triage))
unfolding first_true is_deterministic lower strip is_always_true is_always expr_of is_never
    fold_unary_signs
route_turn-is_shadowed_example =
    route_turn-is_shadowed env config (node_of (codes "triage") two_ways) [] [] at_triage 1 refl

negating_trees-eval_tree_example :
    (negating_trees
        (comparison (codes "x") CmpOp.lt (pos 1))
        (comparison (codes "x") CmpOp.gt_e (pos 1))
      ≡ true)
    × (eval_tree (comparison (codes "x") CmpOp.lt (pos 1)) [] ≡ some false)
    × (eval_tree (comparison (codes "x") CmpOp.gt_e (pos 1)) [] ≡ some false)
negating_trees-eval_tree_example =
    negating_trees-eval_tree (codes "x") CmpOp.lt CmpOp.gt_e (pos 1) [] refl refl refl

-- triage -> done: when x == 1; triage -> fix: else; fix -> done: always
abbrev portable_flow : Graph
portable_flow = record {
  name = codes "flow";
  start = codes "triage";
  nodes =
      (
        codes "triage",
        node_of (codes "triage")
            ((codes "done", codes "when x == 1") ∷ (codes "fix", codes "else") ∷ []),
      )
      ∷ (codes "fix", node_of (codes "fix") ((codes "done", codes "always") ∷ []))
      ∷ (codes "done", node_of (codes "done") [])
      ∷ [];
}

abbrev nowhere : Text → List Edge → Text → Decision ℕ
nowhere said es instruction = record { target = []; score = some 0 }

run-portability_example :
    run env options portable_flow
    ≡ run (with_router nowhere (λ a b. true) env) options portable_flow
unfolding portability is_semantic is_deterministic lower strip is_always
run-portability_example = run-portability env nowhere (λ a b. true) options portable_flow refl refl

abbrev findings_of : Option (List Finding) → List Finding
findings_of none = []
findings_of (some fs) = fs

run-analyze_example : OutcomeFound (run env options portable_flow)
unfolding analyze is_deterministic is_always expr_of is_never fold_unary_signs check_predicate
    check_tree disallowed depth is_semantic is_error is_event edge_fields walk compare_fields
run-analyze_example =
    run-analyze env options portable_flow (λ xs. xs)
      (findings_of (analyze env.ast_parse (λ xs. xs) portable_flow)) first_edge-RoutesAmong refl
      refl refl

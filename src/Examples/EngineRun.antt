-- ===== src/Examples/EngineRun.antt =====
-- The engine (prismpath/engine.py) on a flow of three nodes.
use prismpath.Base.{ℕ, none, some, true, List, [], ◌∷◌, ◌≡◌, refl, inl, ltb}
use prismpath.Base.Int.{pos}
use prismpath.Base.Text.{Text, codes, strip, lower}
use prismpath.Graph.{Node, Graph, Edge}
use prismpath.Predicates.Value as V
use prismpath.Predicates.Value.{Value, py_eq}
use prismpath.Predicates.Syntax.{
  name, constant, compare, end, then_compare, CmpOp, fold_unary_signs, disallowed,
}
use prismpath.Predicates.Eval.{ev, compare_values}
use prismpath.Predicates.Condition.{is_deterministic, is_semantic, eval_condition, expr_of}
use prismpath.Engine.State.{window, bound_transcript, empty_state}
use prismpath.Engine.Turn.{Env, fields, Decision, turn, Config, Loop, Turn, again, outcome_turn}
use prismpath.Engine.Run.{Outcome, returned, Options, run, bound_of, first_loop}
use prismpath.Engine.Walk.{RoutesAmong}
use prismpath.Engine.Trace.{OutcomeSpec, run_walks}
use prismpath.Contract.Gate.{py_type_ok, validate_output}
use prismpath.Contract.Derive.{compare_fields, derive_contract, edge_fields, walk}
use prismpath.Predicates.Condition.{is_always, is_error, is_event, is_never}
use prismpath.Contract.Spec.{Spec, number, add, as_dict, routed_values}
use prismpath.Engine.TypeGate.{outcome_turn-py_type_ok}
use prismpath.Engine.Window.{erase_outcome, run_window}

abbrev pub node_of : Text → List Edge → Node
node_of x es = record { name = x; instruction = []; edges = es; annotations = [] }

-- triage -> fix: when x == 1; fix -> done: all is well
abbrev pub flow : Graph
flow = record {
  name = codes "flow";
  start = codes "triage";
  nodes =
      (codes "triage", node_of (codes "triage") ((codes "fix", codes "when x == 1") ∷ []))
      ∷ (codes "fix", node_of (codes "fix") ((codes "done", codes "all is well") ∷ []))
      ∷ (codes "done", node_of (codes "done") [])
      ∷ [];
}

abbrev pub first_edge : Text → List Edge → Text → Decision ℕ
first_edge said [] instruction = record { target = []; score = none }
first_edge said (e ∷ es) instruction = record { target = e.0; score = some 1 }

abbrev pub env : Env ℕ
env = record {
  agent = λ x instruction s. fields ((codes "x", V.int (pos 1)) ∷ []);
  route = first_edge;
  below = ltb;
  ast_parse =
      λ t. some (compare (name (codes "x")) (then_compare CmpOp.eq (constant (V.int (pos 1))) end));
  py_str = λ v. [];
}

abbrev pub options : Options ℕ
options = record {
  max_steps = 25;
  start = none;
  state = none;
  human_floor = none;
  type_gate = true;
  max_transcript = none;
  seed_path = [];
  seed_steps = [];
}

pub first_edge-RoutesAmong : RoutesAmong env
first_edge-RoutesAmong said [] instruction h = absurd (h refl)
first_edge-RoutesAmong said (e ∷ es) instruction h = inl refl

abbrev path_of : Outcome → List Text
path_of (returned res saved) = res.path
path_of _ = []

flow_runs : path_of (run env options flow) ≡ codes "triage" ∷ codes "fix" ∷ codes "done" ∷ []
unfolding run turn is_deterministic is_semantic eval_condition expr_of strip lower fold_unary_signs
    disallowed ev compare_values py_eq window bound_transcript validate_output derive_contract
    edge_fields is_always is_never walk compare_fields py_type_ok as_dict add routed_values is_error
    is_event
flow_runs = refl

run_walks_example :
    OutcomeSpec flow (window none []) (window none []) (codes "triage") 25 (run env options flow)
unfolding bound_of first_loop
run_walks_example = run_walks env options flow none first_edge-RoutesAmong refl

run_window_example :
    erase_outcome (run env (record options { max_transcript = some 1 }) flow)
    ≡ erase_outcome (run env (record options { max_transcript = some 0 }) flow)
run_window_example = run_window env options flow 1 0 (λ x instruction s. refl) refl refl

abbrev number_spec : Spec
number_spec = record { type = number; values = none; conflict = none }

abbrev gated : Config ℕ
gated = record {
  bound = none;
  human_floor = none;
  type_gate = true;
  contracts = (codes "triage", (codes "x", number_spec) ∷ []) ∷ [];
}

abbrev at_triage : Loop
at_triage = record {
  node = codes "triage";
  state = empty_state;
  path = codes "triage" ∷ [];
  steps = [];
  saved = [];
}

abbrev next_loop : Turn → Loop
next_loop (again l) = l
next_loop _ = at_triage

outcome_turn-py_type_ok_example : py_type_ok number (V.int (pos 1)) ≡ true
unfolding outcome_turn is_deterministic is_semantic eval_condition expr_of strip lower
    fold_unary_signs disallowed ev compare_values py_eq window bound_transcript validate_output
    is_always is_never py_type_ok is_error is_event
outcome_turn-py_type_ok_example =
    outcome_turn-py_type_ok env gated
      (node_of (codes "triage") ((codes "fix", codes "when x == 1") ∷ [])) []
      ((codes "x", V.int (pos 1)) ∷ []) at_triage
      (next_loop (
        outcome_turn env gated (node_of (codes "triage") ((codes "fix", codes "when x == 1") ∷ []))
          ([], (codes "x", V.int (pos 1)) ∷ []) at_triage))
      refl refl 0 (codes "x") number_spec refl (V.int (pos 1)) refl

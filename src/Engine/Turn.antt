-- ===== src/Engine/Turn.antt =====
-- One turn of the loop of `run` (prismpath/engine.py), branch by branch. What the engine calls is in
-- `Env`: the agent and the router, Python's parser and `str`, and the order of the router's scores.
-- Printing and the `on_decision` observer change nothing and are left out.
use prismpath.Base.{
  ℕ, ◌+◌, Option, none, some, Bool, true, false, ◌&&◌, ◌||◌, not, if◌then◌else◌, List, [], ◌∷◌,
  ◌++◌, is_nil,
}
use prismpath.Base.Int.{pos}
use prismpath.Base.Text.{Text, codes}
use prismpath.Base.Dict.{Dict, lookup, lookup_or, insert}
use prismpath.Graph.{Node, Graph, Edge, is_terminal}
use prismpath.Predicates.Value as V
use prismpath.Predicates.Value.{Value, truthy}
use prismpath.Predicates.Syntax.{Expr}
use prismpath.Predicates.Condition.{
  is_deterministic, is_error, is_event, is_semantic, event_name, error_expr, eval_condition,
}
use prismpath.Contract.Spec.{Spec}
use prismpath.Contract.Gate.{Violation, type, validate_output}
use prismpath.Engine.State.{
  State, Entry, EntryKind, StepLog, by_predicate, by_error, by_router, Stopped, unset, terminal,
  stuck, needs_human, waiting, contract_violation, Pending, violated, asked, awaiting, doubtful,
  RunResult, log_entry,
}

-- What a worker returns: text, or a dict of fields. Or it raises, with a type name and a message.
pub data Reply : Type 0 where
  text : Text → Reply
  fields : Dict Value → Reply
  raised : Text → Text → Reply

-- The part of a `RouteDecision` that `run` reads.
pub record Decision (Score : Type 0) : Type 0 where
  pub target : Text
  pub score : Option Score

pub record Env (Score : Type 0) : Type 0 where
  pub agent : Text → Text → State → Reply
  pub route : Text → List Edge → Text → Decision Score
  pub below : Score → Score → Bool
  pub ast_parse : Text → Option Expr
  pub py_str : Value → Text

-- The keyword arguments that stay fixed. `contracts` is empty without the type gate.
pub record Config (Score : Type 0) : Type 0 where
  pub bound : Option ℕ
  pub human_floor : Option Score
  pub type_gate : Bool
  pub contracts : Dict (Dict Spec)

-- A call of `on_step`: the result as it stands, and the node that a resume re-enters.
pub record Saved : Type 0 where
  pub result : RunResult
  pub pending_node : Option Text

-- The variables of the loop. `saved` lists the calls of `on_step`, the latest first.
pub record Loop : Type 0 where
  pub node : Text
  pub state : State
  pub path : List Text
  pub steps : List StepLog
  pub saved : List Saved

pub data Fault : Type 0 where
  key_error : Text → Fault
  worker_error : Text → Text → Fault

pub data Turn : Type 0 where
  again : Loop → Turn
  stops : RunResult → List Saved → Turn
  fails : Fault → List Saved → Turn

abbrev pub result_of : Stopped → Option Pending → Loop → RunResult
result_of why pending l = record {
  path = l.path;
  steps = l.steps;
  stopped = why;
  state = l.state;
  pending = pending;
}

-- `checkpoint(pending_node)` in the middle of a turn.
abbrev pub checkpoint : Option Text → Loop → Loop
checkpoint pending_node l = record l {
  saved = record { result = result_of unset none l; pending_node = pending_node } ∷ l.saved;
}

-- `res.stopped = …; res.pending = …; checkpoint(pending_node); break`
abbrev pub stop : Stopped → Option Pending → Option Text → Loop → Turn
stop why pending pending_node l =
    let res = result_of why pending l in
    stops res (record { result = res; pending_node = pending_node } ∷ l.saved)

-- `res.steps.append(…); node = target; res.path.append(node)`
abbrev pub move : StepLog → Loop → Loop
move step l = record l {
  node = step.target;
  path = l.path ++ step.target ∷ [];
  steps = l.steps ++ step ∷ [];
}

abbrev count_value : ℕ → Value
count_value n = V.int (pos n)

-- The edges of one kind.
abbrev pub select : (Text → Bool) → List Edge → List Edge
select p [] = []
select p ((t, c) ∷ es) = if p c then (t, c) ∷ select p es else select p es

abbrev event_names : List Edge → List Text
event_names [] = []
event_names ((t, c) ∷ es) = event_name c ∷ event_names es

abbrev pub is_type_violation : Violation → Bool
is_type_violation (type field) = true
is_type_violation _ = false

abbrev pub type_violations : List Violation → List Violation
type_violations [] = []
type_violations (v ∷ vs) =
    if is_type_violation v then v ∷ type_violations vs else type_violations vs

module _ {Score : Type 0} (env : Env Score) where
  -- `_normalize`
  unfoldable pub normalize_fields : Dict Value → Text × Dict Value
  normalize_fields d = (env.py_str (lookup_or (V.str []) (codes "text") d), d)

  unfoldable pub normalize_text : Text → Text × Dict Value
  normalize_text t = (t, (codes "text", V.str t) ∷ [])

  -- `first_deterministic`: a predicate that raises does not match.
  unfoldable pub first_deterministic : List Edge → Dict Value → Option Edge
  first_deterministic [] ctx = none
  first_deterministic ((t, c) ∷ es) ctx =
      let later = first_deterministic es ctx in
      if is_deterministic c
      then elim (eval_condition env.ast_parse c ctx) [ some true ↦ some (t, c) | _ ↦ later ]
      else later

  -- The first error edge whose clause is empty or holds.
  unfoldable pub error_target : List Edge → Dict Value → Option Text
  error_target [] ctx = none
  error_target ((t, c) ∷ es) ctx =
      let later = error_target es ctx in
      if is_error c
      then if is_nil (error_expr c)
        then some t
        else elim (eval_condition env.ast_parse (error_expr c) ctx) [
          | some true ↦ some t
          | _ ↦ later
        ]
      else later

  abbrev error_context : Text → Text → ℕ → ℕ → Dict Value
  error_context kind message count visited =
      (codes "error", V.bool true)
      ∷ (codes "error_type", V.str kind)
      ∷ (codes "error_message", V.str message)
      ∷ (codes "error_count", count_value count)
      ∷ (codes "visits", count_value visited)
      ∷ []

  abbrev error_text_of : Text → Text → Text
  error_text_of kind message = codes "[error: " ++ (kind ++ (codes ": " ++ (message ++ codes "]")))

  module _ (cfg : Config Score) where
    abbrev log_in : Entry → Loop → Loop
    log_in e l = record l { state = log_entry cfg.bound e l.state }

    -- `ec[node] = ec.get(node, 0) + 1`
    abbrev pub count_error : Loop → Loop
    count_error l =
        let s = l.state in
        record l {
          state = record s { errors = insert l.node (lookup_or 0 l.node s.errors + 1) s.errors };
        }

    abbrev pub error_context_of : Text → Text → Loop → Dict Value
    error_context_of kind message l =
        error_context kind message (lookup_or 0 l.node l.state.errors)
          (lookup_or 0 l.node l.state.visits)

    abbrev pub error_entry : Text → Text → Loop → Entry
    error_entry kind message l = record {
      node = l.node;
      outcome = error_text_of kind message;
      kind = EntryKind.error;
    }

    abbrev pub error_step : Text → Text → Loop → Text → StepLog
    error_step kind message l target = record {
      node = l.node;
      outcome = error_text_of kind message;
      target = target;
      used = by_error kind;
    }

    abbrev pub handle : Text → Text → Loop → Option Text → Turn
    handle kind message l none = fails (worker_error kind message) l.saved
    handle kind message l (some target) =
        again (move (error_step kind message l target) (log_in (error_entry kind message l) l))

    -- The `except` branch: the worker raised.
    unfoldable pub error_turn : Node → Text → Text → Loop → Turn
    unfolding error_target
    error_turn n kind message l =
        let l' = count_error l in
        handle kind message l' (error_target n.edges (error_context_of kind message l'))

    -- `ctx = {**fields, "visits": state["visits"][node]}`
    abbrev pub routing_context : Dict Value → Loop → Dict Value
    routing_context given l =
        insert (codes "visits") (count_value (lookup_or 0 l.node l.state.visits)) given

    -- `human_floor is not None and score is not None and score < human_floor`
    abbrev pub is_doubtful : Option Score → Option Score → Bool
    is_doubtful none score = false
    is_doubtful (some low) none = false
    is_doubtful (some low) (some score) = env.below score low

    -- What follows from the deterministic tier's answer, the semantic edges, and the router's.
    abbrev pub choose : Text → Loop → Option Edge → List Edge → Decision Score → Bool → Turn
    choose said l (some (target, c)) sem d doubt =
        again (
          move (record { node = l.node; outcome = said; target = target; used = by_predicate c }) l)
    choose said l none [] d doubt = stop stuck none (some l.node) l
    choose said l none (e ∷ es) d true =
        stop needs_human (some (doubtful l.node d.target (e ∷ es))) (some l.node) l
    choose said l none (e ∷ es) d false =
        again
          (move (record { node = l.node; outcome = said; target = d.target; used = by_router }) l)

    -- The deterministic tier, then the router; a doubtful decision goes to a human.
    unfoldable pub route_turn : Node → Text → Dict Value → Loop → Turn
    unfolding first_deterministic
    route_turn n said given l =
        let sem = select is_semantic n.edges in
        let d = env.route said sem n.instruction in
        choose said l (first_deterministic n.edges (routing_context given l)) sem d
          (is_doubtful cfg.human_floor d.score)

    abbrev pub wants_wait : Dict Value → Bool
    wants_wait given =
        truthy (lookup_or V.null (codes "wait") given)
        || elim (lookup_or V.null (codes "spawn") given) [ V.null ↦ false | _ ↦ true ]

    abbrev spawn_spec : Dict Value → Option Value
    spawn_spec given = elim (lookup_or V.null (codes "spawn") given) [ V.null ↦ none | v ↦ some v ]

    -- `fields.get("reason") or text`
    abbrev reason_of : Dict Value → Text → Value
    reason_of given said =
        let reason = lookup_or V.null (codes "reason") given in
        if truthy reason then reason else V.str said

    abbrev pub asks_human : Dict Value → Bool
    asks_human given = truthy (lookup_or V.null (codes "needs_human") given)

    abbrev pub ask : Node → Text → Dict Value → Loop → Turn
    ask n said given l =
        stop needs_human (some (asked l.node (reason_of given said) n.edges)) (some l.node) l

    abbrev pub wait : Node → Dict Value → Loop → Turn
    wait n given l =
        let events = select is_event n.edges in
        stop waiting
          (some (
            awaiting l.node (event_names events) (lookup (codes "timeout_s") given) events
              (spawn_spec given)))
          (some l.node) l

    -- The suspensions that the worker asks for, and otherwise the routing.
    unfoldable pub suspend_turn : Node → Text → Dict Value → Loop → Turn
    unfolding route_turn
    suspend_turn n said given l =
        if asks_human given
        then ask n said given l
        else if wants_wait given
        then wait n given l
        else route_turn n said given l

    -- The transcript and the latest structured outcome of the node.
    abbrev pub keep_outcome : Text → Dict Value → Loop → Loop
    keep_outcome said given l =
        let s =
          log_entry cfg.bound (record { node = l.node; outcome = said; kind = EntryKind.worker })
            l.state in
        record l { state = record s { outcomes = insert l.node given s.outcomes } }

    -- What the type gate holds against the output.
    abbrev pub gate_findings : Dict Value → Loop → List Violation
    gate_findings given l =
        type_violations (validate_output (lookup_or [] l.node cfg.contracts) given)

    abbrev pub refuse : List Violation → Loop → Turn
    refuse found l = stop contract_violation (some (violated l.node found)) (some l.node) l

    -- The branch after a worker has returned: the log, the type gate, and what follows.
    unfoldable pub outcome_turn : Node → Text × Dict Value → Loop → Turn
    unfolding suspend_turn
    outcome_turn n (said, given) l =
        let l' = keep_outcome said given l in
        let found = gate_findings given l' in
        if cfg.type_gate && not (is_nil found)
        then refuse found l'
        else suspend_turn n said given l'

    -- `state["visits"][node] = state["visits"].get(node, 0) + 1`
    abbrev pub visit : Loop → Loop
    visit l =
        let s = l.state in
        record l {
          state = record s { visits = insert l.node (lookup_or 0 l.node s.visits + 1) s.visits };
        }

    -- `agent(node, n.instruction, state)` has returned or raised.
    unfoldable pub reply_turn : Node → Loop → Reply → Turn
    unfolding error_turn outcome_turn normalize_fields normalize_text
    reply_turn n l (text t) = outcome_turn n (normalize_text t) l
    reply_turn n l (fields d) = outcome_turn n (normalize_fields d) l
    reply_turn n l (raised kind message) = error_turn n kind message l

    unfoldable pub node_turn : Node → Loop → Turn
    unfolding reply_turn
    node_turn n l =
        let l' = visit (checkpoint (some l.node) l) in
        if is_terminal n.edges
        then stop terminal none none l
        else reply_turn n l' (env.agent l.node n.instruction l'.state)

    -- `n = graph.nodes[node]`, which may raise.
    unfoldable pub at_node : Loop → Option Node → Turn
    unfolding node_turn
    at_node l none = fails (key_error l.node) l.saved
    at_node l (some n) = node_turn n l

    unfoldable pub turn : Graph → Loop → Turn
    unfolding at_node
    turn graph l = at_node l (lookup l.node graph.nodes)

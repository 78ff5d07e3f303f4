-- ===== src/Checkpoint/Resume.antt =====
-- `resume` (prismpath/checkpoint.py): the four ways back into a run.
use prismpath.Base.{ℕ, Option, none, some, Bool, false, ◌&&◌, if◌then◌else◌, List, [], ◌∷◌, ◌++◌}
use prismpath.Base.Text.{Text, codes, text_eq}
use prismpath.Base.Dict.{lookup, has_key}
use prismpath.Graph.{Node, Graph, Edge}
use prismpath.Predicates.Condition.{is_event, event_name}
use prismpath.Engine.State.{
  State, Entry, EntryKind, StepLog, by_human, by_event, Stopped, terminal, stuck, needs_human,
  waiting, max_steps,
}
use prismpath.Engine.Turn.{Env}
use prismpath.Engine.Run.{Options, Outcome, run}
use prismpath.Analysis.Reach.{member}
use prismpath.Checkpoint.{
  Snapshot, Refusal, unparseable_flow, not_in_flow, not_an_edge, no_event_edge, awaits_human,
  awaits_event, finished, no_pending_node, version_refusal, flow_refusal, prior_steps, pending_of,
  edge_targets,
}

-- The keyword arguments of `resume`.
pub record Wanted (Score : Type 0) : Type 0 where
  pub choose : Option Text
  pub event : Option Text
  pub human_floor : Option Score
  pub max_steps : ℕ
  pub type_gate : Option Bool

-- What stands around the call: the flow's file, and the environment.
pub record Site : Type 0 where
  pub hash_of : Text → Text
  pub parse_file : Text → Option Graph
  pub policy : Text

pub data Resumed : Type 0 where
  refused : Refusal → Resumed
  resumed : Outcome → Resumed

-- `decision.get("node", cp.get("pending_node"))`
abbrev pub decided_node : Snapshot → Option Text
decided_node cp = elim cp.pending_decision [ some p ↦ some (pending_of p) | none ↦ cp.pending_node ]

-- `decision.get("node") or cp.get("pending_node")`
abbrev pub waiting_node : Snapshot → Option Text
waiting_node cp = elim cp.pending_decision [
  | some p ↦ elim (pending_of p) [ [] ↦ cp.pending_node | c ∷ cs ↦ some (c ∷ cs) ]
  | none ↦ cp.pending_node
]

abbrev find_node : Graph → Option Text → Option Node
find_node graph none = none
find_node graph (some x) = lookup x graph.nodes

-- `state["transcript"].append(…)`, without the window.
abbrev with_entry : Entry → State → State
with_entry e s = record s { transcript = s.transcript ++ e ∷ [] }

abbrev pub but_last {ℓ} : {A : Type ℓ} → List A → List A
but_last [] = []
but_last (x ∷ []) = []
but_last (x ∷ y ∷ xs) = x ∷ but_last (y ∷ xs)

abbrev pub human_entry : Text → Text → Entry
human_entry x target = record {
  node = x;
  outcome = codes "[human chose -> " ++ (target ++ codes "]");
  kind = EntryKind.human;
}

abbrev pub human_step : Text → Text → StepLog
human_step x target = record {
  node = x;
  outcome = codes "[human decision]";
  target = target;
  used = by_human;
}

abbrev event_text : Text → Text
event_text name = codes "[event: " ++ (name ++ codes "]")

abbrev pub event_entry : Text → Text → Entry
event_entry x name = record { node = x; outcome = event_text name; kind = EntryKind.event }

abbrev pub event_step : Text → Text → Text → StepLog
event_step x name target = record {
  node = x;
  outcome = event_text name;
  target = target;
  used = by_event;
}

-- The first edge for an event.
unfoldable pub event_target : Text → List Edge → Option Text
event_target name [] = none
event_target name ((t, c) ∷ es) =
    let later = event_target name es in
    if is_event c && text_eq (event_name c) name then some t else later

-- `cp.get("type_gate", False) if type_gate is None else type_gate`
abbrev pub gate_of : Option Bool → Bool → Bool
gate_of none saved = saved
gate_of (some b) saved = b

-- `choose`, or the decision that is recorded.
abbrev pub chosen : Option Text → Option Text → Option Text
chosen none decision = decision
chosen (some t) decision = some t

-- What `stopped` says of a run without a choice and an event.
abbrev pub stopped_refusal : Stopped → Option Refusal
stopped_refusal needs_human = some awaits_human
stopped_refusal waiting = some awaits_event
stopped_refusal terminal = some (finished terminal)
stopped_refusal stuck = some (finished stuck)
stopped_refusal max_steps = some (finished max_steps)
stopped_refusal _ = none

module _ {Score : Type 0} (env : Env Score) (w : Wanted Score) (graph : Graph) (cp : Snapshot) where
  -- The keyword arguments that the calls of `run` share.
  abbrev pub options_at : Text → State → Bool → List Text → List StepLog → Options Score
  options_at start state type_gate seed_path seed_steps = record {
    max_steps = w.max_steps;
    start = some start;
    state = some state;
    human_floor = w.human_floor;
    type_gate = type_gate;
    max_transcript = none;
    seed_path = seed_path;
    seed_steps = seed_steps;
  }

  -- The run from the human's choice.
  unfoldable pub choice_options : Text → Text → Options Score
  unfolding prior_steps
  choice_options x target =
      options_at target (with_entry (human_entry x target) cp.state)
        (gate_of w.type_gate cp.type_gate) cp.path
        (prior_steps cp.steps ++ human_step x target ∷ [])

  unfoldable pub resume_choice : Text → Option Text → Resumed
  unfolding choice_options
  resume_choice target none = refused (not_in_flow none)
  resume_choice target (some x) = elim (lookup x graph.nodes) [
    | none ↦ refused (not_in_flow (some x))
    | some n ↦
        if member target (edge_targets n.edges)
        then resumed (run env (choice_options x target) graph)
        else refused (not_an_edge target x)
  ]

  -- The run from the event's edge.
  unfoldable pub event_options : Text → Text → Text → Options Score
  unfolding prior_steps
  event_options x name target =
      options_at target (with_entry (event_entry x name) cp.state)
        (gate_of w.type_gate cp.type_gate) cp.path
        (prior_steps cp.steps ++ event_step x name target ∷ [])

  unfoldable pub resume_event : Text → Option Text → Resumed
  unfolding event_target event_options
  resume_event name none = refused (not_in_flow none)
  resume_event name (some x) = elim (lookup x graph.nodes) [
    | none ↦ refused (not_in_flow (some x))
    | some n ↦ elim (event_target name n.edges) [
      | none ↦ refused (no_event_edge name x)
      | some target ↦ resumed (run env (event_options x name target) graph)
    ]
  ]

  -- The run from the pending node. No gate is passed on: `run` has its default.
  unfoldable pub crash_options : Text → Options Score
  unfolding prior_steps
  crash_options x = options_at x cp.state false (but_last cp.path) (prior_steps cp.steps)

  unfoldable pub resume_pending : Option Text → Resumed
  unfolding crash_options
  resume_pending none = refused (no_pending_node none)
  resume_pending (some x) =
      if has_key x graph.nodes
      then resumed (run env (crash_options x) graph)
      else refused (no_pending_node (some x))

  -- A run that has crashed, or that a worker's output has stopped.
  unfoldable pub resume_crash : Resumed
  unfolding resume_pending
  resume_crash = elim (stopped_refusal cp.stopped) [
    | some r ↦ refused r
    | none ↦ resume_pending cp.pending_node
  ]

  unfoldable pub resume_in : Option Text → Option Text → Resumed
  unfolding resume_choice resume_event resume_crash
  resume_in (some target) event = resume_choice target (decided_node cp)
  resume_in none (some name) = resume_event name (waiting_node cp)
  resume_in none none = resume_crash

module _ {Score : Type 0} (env : Env Score) (site : Site) (w : Wanted Score) where
  abbrev pub with_graph : Snapshot → Option Graph → Resumed
  with_graph cp none = refused unparseable_flow
  with_graph cp (some graph) = resume_in env w graph cp (chosen w.choose cp.decision) w.event

  abbrev pub unless_refused : Snapshot → Option Refusal → Option Refusal → Resumed
  unless_refused cp (some r) r' = refused r
  unless_refused cp none (some r) = refused r
  unless_refused cp none none = with_graph cp (site.parse_file cp.flow_path)

  unfoldable pub resume : Snapshot → Resumed
  unfolding version_refusal flow_refusal resume_in
  resume cp =
      unless_refused cp (version_refusal cp)
        (flow_refusal cp (site.hash_of cp.flow_path) site.policy)

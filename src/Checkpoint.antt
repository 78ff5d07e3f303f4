-- ===== src/Checkpoint.antt =====
-- Checkpoints of a run (prismpath/checkpoint.py): what one holds, how it is made from a result, what is
-- tested when it is read, and the decision that a human records in it. Of the time `saved_at` nothing is
-- kept. What hashes and parses the flow's file is a parameter.
pub mod Resume
pub mod Durable
pub mod Walks
pub mod Decided
use prismpath.Base.{
  ℕ, Option, none, some, Bool, true, false, not, ◌&&◌, if◌then◌else◌, List, [], ◌∷◌, is_nil, ◌==◌,
}
use prismpath.Base.Text.{Text, codes, text_eq, lower}
use prismpath.Graph.{Edge}
use prismpath.Engine.State.{
  State, StepLog, Used, by_predicate, by_error, by_router, by_human, by_event, Stopped, needs_human,
  Pending, violated, asked, awaiting, doubtful, RunResult,
}
use prismpath.Analysis.Reach.{member}

-- The value of `used` alone: the other entries of a step's `info` are not saved.
pub data UsedTag : Type 0 where
  deterministic error router human event unrecorded : UsedTag

pub record StepSummary : Type 0 where
  pub node : Text
  pub target : Text
  pub used : UsedTag

-- The document that is saved. `decision` is the edge that a human has chosen.
pub record Snapshot : Type 0 where
  pub version : ℕ
  pub flow_path : Text
  pub flow_hash : Text
  pub pending_node : Option Text
  pub stopped : Stopped
  pub type_gate : Bool
  pub path : List Text
  pub state : State
  pub pending_decision : Option Pending
  pub steps : List StepSummary
  pub decision : Option Text

abbrev pub checkpoint_version : ℕ
checkpoint_version = 1

unfoldable pub tag_of : Used → UsedTag
tag_of (by_predicate c) = UsedTag.deterministic
tag_of (by_error kind) = UsedTag.error
tag_of by_router = UsedTag.router
tag_of by_human = UsedTag.human
tag_of by_event = UsedTag.event
tag_of Used.unrecorded = UsedTag.unrecorded

unfoldable pub summaries : List StepLog → List StepSummary
unfolding tag_of
summaries [] = []
summaries (s ∷ ss) =
    record { node = s.node; target = s.target; used = tag_of s.used } ∷ summaries ss

-- The document of `save_checkpoint`, under the flow's path and hash.
unfoldable pub snapshot : Text → Text → RunResult → Option Text → Bool → Snapshot
unfolding summaries
snapshot flow_path flow_hash result pending_node type_gate = record {
  version = checkpoint_version;
  flow_path = flow_path;
  flow_hash = flow_hash;
  pending_node = pending_node;
  stopped = result.stopped;
  type_gate = type_gate;
  path = result.path;
  state = result.state;
  pending_decision = result.pending;
  steps = summaries result.steps;
  decision = none;
}

-- The messages of CheckpointError, and a flow that does not parse.
pub data Refusal : Type 0 where
  unsupported_version : ℕ → Refusal
  flow_changed unparseable_flow : Refusal
  not_in_flow : Option Text → Refusal
  not_an_edge : Text → Text → Refusal
  no_event_edge : Text → Text → Refusal
  awaits_human awaits_event : Refusal
  finished : Stopped → Refusal
  no_pending_node : Option Text → Refusal
  not_awaiting_human : Stopped → Refusal
  not_a_candidate : Text → Refusal

-- What `info` is left with: the condition and the error's type are missing, and empty here.
unfoldable pub used_of : UsedTag → Used
used_of UsedTag.deterministic = by_predicate []
used_of UsedTag.error = by_error []
used_of UsedTag.router = by_router
used_of UsedTag.human = by_human
used_of UsedTag.event = by_event
used_of UsedTag.unrecorded = Used.unrecorded

-- `_prior_steps`
unfoldable pub prior_steps : List StepSummary → List StepLog
unfolding used_of
prior_steps [] = []
prior_steps (s ∷ ss) =
    record { node = s.node; outcome = []; target = s.target; used = used_of s.used }
    ∷ prior_steps ss

-- The test of `load_checkpoint`.
unfoldable pub version_refusal : Snapshot → Option Refusal
version_refusal cp =
    if cp.version == checkpoint_version then none else some (unsupported_version cp.version)

-- `_check_flow_unchanged`: `now` is the hash of the file as it is, empty if it cannot be read, and
-- `policy` the environment's PRISMPATH_RESUME_ON_FLOW_CHANGE.
unfoldable pub flow_refusal : Snapshot → Text → Text → Option Refusal
flow_refusal cp now policy =
    if is_nil cp.flow_hash
    then none
    else if not (is_nil now) && text_eq now cp.flow_hash
    then none
    else if text_eq (lower policy) (codes "allow")
    then none
    else if text_eq (lower policy) (codes "warn")
    then none
    else some flow_changed

abbrev pub edge_targets : List Edge → List Text
edge_targets [] = []
edge_targets ((t, c) ∷ es) = t ∷ edge_targets es

-- The node, and the targets under `candidates`, of a pending decision.
abbrev pub pending_of : Pending → Text
pending_of (violated x found) = x
pending_of (asked x reason es) = x
pending_of (awaiting x names timeout es spawn) = x
pending_of (doubtful x would es) = x

abbrev pub candidates_of : Option Pending → List Text
candidates_of none = []
candidates_of (some (violated x found)) = []
candidates_of (some (asked x reason es)) = edge_targets es
candidates_of (some (awaiting x names timeout es spawn)) = edge_targets es
candidates_of (some (doubtful x would es)) = edge_targets es

abbrev pub is_needs_human : Stopped → Bool
is_needs_human needs_human = true
is_needs_human _ = false

pub data Recorded : Type 0 where
  rejected : Refusal → Recorded
  recorded : Snapshot → Recorded

-- `record_decision`, of a document that is loaded. Who has decided is not kept.
unfoldable pub record_choice : Text → Snapshot → Recorded
record_choice choose cp =
    if not (is_needs_human cp.stopped)
    then rejected (not_awaiting_human cp.stopped)
    else if member choose (candidates_of cp.pending_decision)
    then recorded (record cp { decision = some choose })
    else rejected (not_a_candidate choose)

unfoldable pub record_decision : Text → Snapshot → Recorded
unfolding version_refusal record_choice
record_decision choose cp = elim (version_refusal cp) [
  | some r ↦ rejected r
  | none ↦ record_choice choose cp
]

-- ===== src/Examples/CheckpointRun.antt =====
-- A run that is saved, suspended and resumed (prismpath/checkpoint.py).
use prismpath.Base.{ℕ, none, some, true, List, [], ◌∷◌, take, ◌≡◌, ◌≢◌, ◌⊎◌, refl}
use prismpath.Base.Text.{codes, lower}
use prismpath.Base.Dict.{lookup}
use prismpath.Graph.{Graph}
use prismpath.Predicates.Value as V
use prismpath.Engine.State.{empty_state, needs_human, contract_violation, asked, RunResult}
use prismpath.Engine.Turn.{Saved}
use prismpath.Engine.Run.{returned, run}
use prismpath.Checkpoint.{Snapshot, recorded, record_decision}
use prismpath.Checkpoint.Resume.{Wanted, Site, Resumed, resumed, resume}
use prismpath.Checkpoint.Walks.{WalkedOn, resume-WalkedOn}
use prismpath.Checkpoint.Decided.{record_decision-resume, resume-type_gate}
use prismpath.Checkpoint.Durable.{apply_all, atomic_write}
use prismpath.Checkpoint.Durable.Atomic.{atomic_write-OldOr}
use prismpath.Engine.Turn.{turn}
use prismpath.Contract.Gate.{validate_output}
use prismpath.Contract.Derive.{derive_contract, edge_fields}
use prismpath.Predicates.Value.{py_eq}
use prismpath.Predicates.Syntax.{disallowed, fold_unary_signs}
use prismpath.Predicates.Eval.{ev, compare_values}
use prismpath.Predicates.Condition.{
  eval_condition, expr_of, is_always, is_deterministic, is_error, is_event, is_never, is_semantic,
}
use prismpath.Base.Text.{strip}
use prismpath.Examples.EngineRun.{flow, env, first_edge-RoutesAmong}

-- A human is asked at `triage`.
abbrev waiting : Snapshot
waiting = record {
  version = 1;
  flow_path = codes "flow.md";
  flow_hash = codes "sha256:1";
  pending_node = some (codes "triage");
  stopped = needs_human;
  type_gate = true;
  path = codes "triage" ∷ [];
  state = empty_state;
  pending_decision = some (asked (codes "triage") V.null ((codes "fix", codes "when x == 1") ∷ []));
  steps = [];
  decision = none;
}

abbrev decided : Snapshot
decided = record waiting { decision = some (codes "fix") }

abbrev plain : Wanted ℕ
plain = record { choose = none; event = none; human_floor = none; max_steps = 25; type_gate = none }

abbrev site : Site
site = record {
  hash_of = λ p. codes "sha256:1";
  parse_file = λ p. some flow;
  policy = codes "refuse";
}

decision_is_recorded : record_decision (codes "fix") waiting ≡ recorded decided
unfolding record_decision
decision_is_recorded = refl

record_decision-resume_example :
    resume env site plain decided
    ≡ resume env site (record plain { choose = some (codes "fix") }) waiting
unfolding record_decision
record_decision-resume_example =
    record_decision-resume env site plain waiting decided (codes "fix") refl refl

abbrev result_of : Resumed → RunResult
result_of (resumed (returned res saved)) = res
result_of _ = record {
  path = [];
  steps = [];
  stopped = needs_human;
  state = empty_state;
  pending = none;
}

abbrev saved_by : Resumed → List Saved
saved_by (resumed (returned res saved)) = saved
saved_by _ = []

resume-WalkedOn_example :
    (graph : Graph) × (some flow ≡ some graph)
    × WalkedOn plain graph decided (result_of (resume env site plain decided))
unfolding resume run turn validate_output derive_contract edge_fields is_deterministic lower strip
    is_always is_never is_semantic is_error is_event
resume-WalkedOn_example =
    resume-WalkedOn env site plain decided (result_of (resume env site plain decided))
      (saved_by (resume env site plain decided)) first_edge-RoutesAmong refl

abbrev violated_contract : Snapshot
violated_contract = record waiting { stopped = contract_violation; pending_decision = none }

-- The gate is asked for.
abbrev gated : Wanted ℕ
gated = record plain { type_gate = some true }

resume-type_gate_example :
    (result_of (resume env site gated violated_contract)).stopped ≢ contract_violation
unfolding resume run turn validate_output derive_contract edge_fields is_deterministic lower strip
    is_always is_never is_semantic is_error is_event eval_condition expr_of disallowed
    fold_unary_signs ev compare_values py_eq
resume-type_gate_example =
    resume-type_gate env site gated violated_contract
      (result_of (resume env site gated violated_contract))
      (saved_by (resume env site gated violated_contract)) refl refl refl refl

atomic_write-OldOr_example :
    (lookup (codes "a") (
        apply_all
          (take 3 (atomic_write (codes "a") (codes "new" ∷ codes "er" ∷ [])))
          ((codes "a", codes "old") ∷ []))
      ≡ some (codes "old"))
    ⊎ (lookup (codes "a") (
          apply_all
            (take 3 (atomic_write (codes "a") (codes "new" ∷ codes "er" ∷ [])))
            ((codes "a", codes "old") ∷ []))
        ≡ some (codes "newer"))
atomic_write-OldOr_example =
    atomic_write-OldOr (codes "a") 3 (codes "new" ∷ codes "er" ∷ []) ((codes "a", codes "old") ∷ [])

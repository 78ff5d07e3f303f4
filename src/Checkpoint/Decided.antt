-- ===== src/Checkpoint/Decided.antt =====
-- A decision recorded in a checkpoint, and the gate on the way back (prismpath/checkpoint.py,
-- `record_decision` and `resume`).
use prismpath.Base.{
  Option, none, some, Bool, true, false, not, if◌then◌else◌, List, ◌≢◌, subst, ◌≡◌, refl, sym, ap,
  ◌∙◌,
}
use prismpath.Base.Text.{Text}
use prismpath.Base.Dict.{lookup, has_key}
use prismpath.Graph.{Graph}
use prismpath.Engine.State.{RunResult, contract_violation}
use prismpath.Engine.Turn.{Env, Saved}
use prismpath.Engine.Run.{Options, Outcome, returned, run}
use prismpath.Engine.Ungated.{EndsUnrefused, run-EndsUnrefused}
use prismpath.Analysis.Reach.{member}
use prismpath.Checkpoint.{
  Snapshot, Refusal, rejected, recorded, is_needs_human, candidates_of, not_awaiting_human,
  not_a_candidate, not_in_flow, not_an_edge, edge_targets, no_pending_node, version_refusal,
  flow_refusal, record_choice, record_decision,
}
use prismpath.Checkpoint.Resume.{
  Wanted, Site, refused, resumed, resume_choice, resume_crash, resume_pending, resume_in,
  with_graph, unless_refused, resume, choice_options, crash_options, decided_node, stopped_refusal,
  chosen,
}

same_snapshot : (a b : Snapshot) → recorded a ≡ recorded b → a ≡ b
same_snapshot a b e = cc

record_decision-decision :
    (t : Text) (cp cp' : Snapshot)
    → record_decision t cp ≡ recorded cp'
    → record cp { decision = some t } ≡ cp'
unfolding record_decision record_choice
record_decision-decision t cp cp' h =
    at (version_refusal cp) (is_needs_human cp.stopped)
      (member t (candidates_of cp.pending_decision)) h
  where
    at :
        (r : Option Refusal) (a b : Bool)
        → (elim r [
          | some x ↦ rejected x
          | none ↦
              if not a
              then rejected (not_awaiting_human cp.stopped)
              else if b
              then recorded (record cp { decision = some t })
              else rejected (not_a_candidate t)
        ])
          ≡ recorded cp'
        → record cp { decision = some t } ≡ cp'
    at none true true e = same_snapshot _ _ e
    at _ _ _ e = cc

module _ {Score : Type 0} (env : Env Score) (site : Site) (w : Wanted Score) where
  abbrev choosing : Text → Wanted Score
  choosing t = record w { choose = some t }

  choice_options-decision :
      (graph : Graph) (cp : Snapshot) (t x : Text)
      → choice_options env w graph (record cp { decision = some t }) x t
        ≡ choice_options env (choosing t) graph cp x t
  unfolding choice_options
  choice_options-decision graph cp t x = refl

  resume_choice-decision :
      (graph : Graph) (cp : Snapshot) (t : Text) (o : Option Text)
      → resume_choice env w graph (record cp { decision = some t }) t o
        ≡ resume_choice env (choosing t) graph cp t o
  unfolding resume_choice
  resume_choice-decision graph cp t none = refl
  resume_choice-decision graph cp t (some x) =
      ap
        (λ o. elim (lookup x graph.nodes) [
          | none ↦ refused (not_in_flow (some x))
          | some n ↦
              if member t (edge_targets n.edges)
              then resumed (run env o graph)
              else refused (not_an_edge t x)
        ])
        (choice_options-decision graph cp t x)

module _ {Score : Type 0} (env : Env Score) (site : Site) (w : Wanted Score) where
  with_graph-decision :
      (cp : Snapshot) (t : Text) (o : Option Graph) (c : Option Text)
      → c ≡ none
      → with_graph env site (record w { choose = c }) (record cp { decision = some t }) o
        ≡ with_graph env site (record w { choose = some t }) cp o
  unfolding resume_in
  with_graph-decision cp t none c e = refl
  with_graph-decision cp t (some graph) none e =
      resume_choice-decision env site (record w { choose = none }) graph cp t (decided_node cp)
  with_graph-decision cp t (some graph) (some x) e = cc

  resume-decision :
      (cp : Snapshot) (t : Text)
      → w.choose ≡ none
      → resume env site w (record cp { decision = some t })
        ≡ resume env site (record w { choose = some t }) cp
  unfolding resume version_refusal flow_refusal
  resume-decision cp t e =
      at (version_refusal cp) (flow_refusal cp (site.hash_of cp.flow_path) site.policy)
    where
      at :
          (r r' : Option Refusal)
          → unless_refused env site w (record cp { decision = some t }) r r'
            ≡ unless_refused env site (record w { choose = some t }) cp r r'
      at (some r) r' = refl
      at none (some r) = refl
      at none none = with_graph-decision cp t (site.parse_file cp.flow_path) w.choose e

-- A decision that is recorded is the one that a resume without a choice applies: it goes on as a resume
-- of the checkpoint before with this choice.
pub record_decision-resume :
    {Score : Type 0} (env : Env Score) (site : Site) (w : Wanted Score) (cp cp' : Snapshot)
    (t : Text)
    → record_decision t cp ≡ recorded cp'
    → w.choose ≡ none
    → resume env site w cp' ≡ resume env site (record w { choose = some t }) cp
record_decision-resume env site w cp cp' t h e =
    ap (resume env site w) (sym (record_decision-decision t cp cp' h))
    ∙ resume-decision env site w cp t e

module _ {Score : Type 0} (env : Env Score) (w : Wanted Score) (graph : Graph) (cp : Snapshot)
    (res : RunResult) (saved : List Saved) where
  run_unrefused :
      (o : Options Score)
      → o.type_gate ≡ false
      → resumed (run env o graph) ≡ resumed (returned res saved)
      → res.stopped ≢ contract_violation
  run_unrefused o open_gate e =
      subst EndsUnrefused (same_outcome _ _ e) (run-EndsUnrefused env o graph open_gate)
    where
      same_outcome : (a b : Outcome) → resumed a ≡ resumed b → a ≡ b
      same_outcome a b q = cc

  resume_crash_unrefused :
      resume_crash env w graph cp ≡ resumed (returned res saved) → res.stopped ≢ contract_violation
  unfolding resume_crash resume_pending crash_options
  resume_crash_unrefused e = at (stopped_refusal cp.stopped) cp.pending_node e
    where
      tested :
          (x : Text) (b : Bool)
          → (if b
              then resumed (run env (crash_options env w graph cp x) graph)
              else refused (no_pending_node (some x)))
            ≡ resumed (returned res saved)
          → res.stopped ≢ contract_violation
      tested x true q = run_unrefused (crash_options env w graph cp x) refl q
      tested x false q = cc

      at :
          (r : Option Refusal) (o : Option Text)
          → (elim r [ some y ↦ refused y | none ↦ resume_pending env w graph cp o ])
            ≡ resumed (returned res saved)
          → res.stopped ≢ contract_violation
      at (some r) o q = cc
      at none none q = cc
      at none (some x) q = tested x (has_key x graph.nodes) q

  resume_in_unrefused :
      (c e : Option Text)
      → c ≡ none
      → e ≡ none
      → resume_in env w graph cp c e ≡ resumed (returned res saved)
      → res.stopped ≢ contract_violation
  unfolding resume_in
  resume_in_unrefused none none f g q = resume_crash_unrefused q
  resume_in_unrefused (some t) e f g q = cc
  resume_in_unrefused none (some name) f g q = cc

-- A resume without a choice and an event, which resumes a crash or a violated contract, runs without the
-- type gate: whatever gate the checkpoint was saved with and whatever gate is asked for, the run that it
-- returns has not stopped for a violated contract.
pub resume-type_gate :
    {Score : Type 0} (env : Env Score) (site : Site) (w : Wanted Score) (cp : Snapshot)
    (res : RunResult) (saved : List Saved)
    → w.choose ≡ none
    → cp.decision ≡ none
    → w.event ≡ none
    → resume env site w cp ≡ resumed (returned res saved)
    → res.stopped ≢ contract_violation
unfolding resume
resume-type_gate env site w cp res saved no_choice no_decision no_event h =
    at (version_refusal cp) (flow_refusal cp (site.hash_of cp.flow_path) site.policy) h
  where
    parsed :
        (o : Option Graph)
        → with_graph env site w cp o ≡ resumed (returned res saved)
        → res.stopped ≢ contract_violation
    parsed none q = cc
    parsed (some graph) q =
        resume_in_unrefused env w graph cp res saved (chosen w.choose cp.decision) w.event
          (λ i. chosen (no_choice i) (no_decision i)) no_event q

    at :
        (r r' : Option Refusal)
        → unless_refused env site w cp r r' ≡ resumed (returned res saved)
        → res.stopped ≢ contract_violation
    at (some r) r' q = cc
    at none (some r) q = cc
    at none none q = parsed (site.parse_file cp.flow_path) q

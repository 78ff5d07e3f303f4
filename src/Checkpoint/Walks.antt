-- ===== src/Checkpoint/Walks.antt =====
-- Where a resumed run goes (prismpath/checkpoint.py, `resume`): on from the node at which it was
-- suspended, along an edge of the flow.
use prismpath.Base.{
  ℕ, Option, none, some, Bool, true, false, ◌&&◌, if◌then◌else◌, List, [], ◌∷◌, ◌++◌, ◌≡◌, ◌≢◌,
  refl, ap, sym, ◌∙◌, subst, inl, inr, Bool-cases,
}
use prismpath.Base.Text.{Text, text_eq, text_eq_iff}
use prismpath.Base.Dict.{lookup, has_key}
use prismpath.Graph.{Graph, Node, Edge}
use prismpath.Predicates.Condition.{is_event, event_name}
use prismpath.Engine.State.{
  StepLog, RunResult, window, Stopped, unset, terminal, stuck, needs_human, waiting, max_steps,
  contract_violation,
}
use prismpath.Engine.Turn.{Env, Saved}
use prismpath.Engine.Run.{Options, Outcome, returned, run, bound_of, with_bound, first_loop}
use prismpath.Engine.Walk.{HasTarget, IsEdge, RoutesAmong}
use prismpath.Engine.Trace.{RunSpec, OutcomeSpec, run_walks}
use prismpath.Analysis.Reach.{member}
use prismpath.Checkpoint.{
  Snapshot, Refusal, edge_targets, prior_steps, version_refusal, flow_refusal, not_an_edge,
  not_in_flow, no_event_edge, no_pending_node,
}
use prismpath.Checkpoint.Resume.{
  Wanted, Site, refused, resumed, resume_choice, resume_event, resume_crash, resume_pending,
  resume_in, with_graph, unless_refused, resume, choice_options, event_options, crash_options,
  decided_node, waiting_node, chosen, event_target, but_last, human_step, event_step,
  stopped_refusal,
}

-- `t` is the target of the first edge that waits for the event.
pub data FirstForEvent (name : Text) : List Edge → Text → Type 0 where
  this_edge :
      {t c : Text} {es : List Edge}
      → is_event c ≡ true
      → event_name c ≡ name
      → FirstForEvent name ((t, c) ∷ es) t
  later_edge :
      {t u c : Text} {es : List Edge}
      → (is_event c ≡ true → event_name c ≢ name)
      → FirstForEvent name es t
      → FirstForEvent name ((u, c) ∷ es) t

-- The run has been cut off, or refused for a worker's output.
abbrev pub IsInterrupted : Stopped → Type 0
IsInterrupted unset = Unit
IsInterrupted contract_violation = Unit
IsInterrupted _ = ⊥

-- How a resume goes on from a checkpoint: the node at which the run starts, and the path and the steps
-- behind it. A choice and an event are a step along an edge from the node that waits; the choice comes
-- first, and the pending node is run again if there is neither.
pub data GoesOn {Score : Type 0} (w : Wanted Score) (graph : Graph) (cp : Snapshot)
    : Text → List Text → List StepLog → Type 0 where
  by_choice :
      {x t : Text}
      → chosen w.choose cp.decision ≡ some t
      → decided_node cp ≡ some x
      → IsEdge graph x t
      → GoesOn w graph cp t cp.path (prior_steps cp.steps ++ human_step x t ∷ [])
  by_event_edge :
      {x name t : Text} {n : Node}
      → chosen w.choose cp.decision ≡ none
      → w.event ≡ some name
      → waiting_node cp ≡ some x
      → lookup x graph.nodes ≡ some n
      → FirstForEvent name n.edges t
      → GoesOn w graph cp t cp.path (prior_steps cp.steps ++ event_step x name t ∷ [])
  at_pending :
      {x : Text}
      → chosen w.choose cp.decision ≡ none
      → w.event ≡ none
      → IsInterrupted cp.stopped
      → cp.pending_node ≡ some x
      → has_key x graph.nodes ≡ true
      → GoesOn w graph cp x (but_last cp.path) (prior_steps cp.steps)

-- A run from the start with the history, under the bound on histories that the flow declares.
abbrev pub WalkedOn : {Score : Type 0} → Wanted Score → Graph → Snapshot → RunResult → Type 0
WalkedOn w graph cp res =
    (x : Text) × (past : List Text) × (done : List StepLog) × (bound : Option ℕ) × GoesOn w graph cp
      x past done
    × RunSpec graph (window bound past) (window bound done) x w.max_steps res

edge_targets-HasTarget :
    (t : Text) (es : List Edge) → member t (edge_targets es) ≡ true → HasTarget t es
edge_targets-HasTarget t [] h = cc
edge_targets-HasTarget t ((u, c) ∷ es) h = elim (Bool-cases (text_eq t u)) [
  | inl e ↦ inl ((text_eq_iff t u).0 e)
  | inr e ↦ inr (edge_targets-HasTarget t es (rw e at h))
]

event_target-FirstForEvent :
    (name : Text) (es : List Edge) (t : Text)
    → event_target name es ≡ some t
    → FirstForEvent name es t
unfolding event_target
event_target-FirstForEvent name [] t h = cc
event_target-FirstForEvent name ((u, c) ∷ es) t h =
    at (is_event c) (text_eq (event_name c) name) refl refl h (event_target-FirstForEvent name es t)
  where
    same : (a b : Text) → some a ≡ some b → a ≡ b
    same a b q = cc

    at :
        (e m : Bool)
        → is_event c ≡ e
        → text_eq (event_name c) name ≡ m
        → (if e && m then some u else event_target name es) ≡ some t
        → (event_target name es ≡ some t → FirstForEvent name es t)
        → FirstForEvent name ((u, c) ∷ es) t
    at true true f g q rest =
        subst (λ v. FirstForEvent name ((u, c) ∷ es) v) (same u t q)
          (this_edge f ((text_eq_iff (event_name c) name).0 g))
    at true false f g q rest =
        later_edge (λ k e. differ (sym g ∙ (text_eq_iff (event_name c) name).1 e)) (rest q)
      where
        differ : false ≡ true → ⊥
        differ z = cc
    at false m f g q rest = later_edge (λ k. absurd (differ (sym f ∙ k))) (rest q)
      where
        differ : false ≡ true → ⊥
        differ z = cc

stopped_refusal-IsInterrupted : (s : Stopped) → stopped_refusal s ≡ none → IsInterrupted s
stopped_refusal-IsInterrupted unset h = tt
stopped_refusal-IsInterrupted contract_violation h = tt
stopped_refusal-IsInterrupted needs_human h = cc
stopped_refusal-IsInterrupted waiting h = cc
stopped_refusal-IsInterrupted terminal h = cc
stopped_refusal-IsInterrupted stuck h = cc
stopped_refusal-IsInterrupted max_steps h = cc

same_outcome : (o o' : Outcome) → resumed o ≡ resumed o' → o ≡ o'
same_outcome o o' e = cc

-- A run that has returned had a bound, and is a walk.
run-RunSpec :
    {Score : Type 0} (env : Env Score) (o : Options Score) (graph : Graph) (x : Text)
    (res : RunResult) (saved : List Saved)
    → RoutesAmong env
    → o.start ≡ some x
    → run env o graph ≡ returned res saved
    → (bound : Option ℕ) × RunSpec graph
        (window bound o.seed_path)
        (window bound o.seed_steps)
        x
        o.max_steps
        res
unfolding run first_loop
run-RunSpec env o graph x res saved among s e = at (bound_of o graph) refl e
  where
    starts : elim o.start [ none ↦ graph.start | some y ↦ y ] ≡ x
    starts = ap (λ (q : Option Text). elim q [ none ↦ graph.start | some y ↦ y ]) s

    at :
        (b : Option (Option ℕ))
        → bound_of o graph ≡ b
        → with_bound env o graph b ≡ returned res saved
        → (bound : Option ℕ) × RunSpec graph
            (window bound o.seed_path)
            (window bound o.seed_steps)
            x
            o.max_steps
            res
    at none f q = cc
    at (some bound) f q = (
      bound,
      subst
          (λ y.
            RunSpec graph (window bound o.seed_path) (window bound o.seed_steps) y o.max_steps res)
          starts
          (subst
            (OutcomeSpec graph (window bound o.seed_path) (window bound o.seed_steps)
              (first_loop o graph bound).node o.max_steps)
            e (run_walks env o graph bound among f)),
    )

module _ {Score : Type 0} (env : Env Score) (among : RoutesAmong env) (w : Wanted Score)
    (graph : Graph) (cp : Snapshot) (res : RunResult) (saved : List Saved) where
  walked :
      (o : Options Score) (x : Text)
      → o.start ≡ some x
      → o.max_steps ≡ w.max_steps
      → GoesOn w graph cp x o.seed_path o.seed_steps
      → resumed (run env o graph) ≡ resumed (returned res saved)
      → WalkedOn w graph cp res
  walked o x s m g e =
      let (bound, spec) =
        run-RunSpec env o graph x res saved among s
          (same_outcome (run env o graph) (returned res saved) e) in
      (
        x,
        o.seed_path,
        o.seed_steps,
        bound,
        g,
        subst (λ n. RunSpec graph (window bound o.seed_path) (window bound o.seed_steps) x n res) m
            spec,
      )

  resume_choice-WalkedOn :
      (t : Text) (o : Option Text)
      → chosen w.choose cp.decision ≡ some t
      → decided_node cp ≡ o
      → resume_choice env w graph cp t o ≡ resumed (returned res saved)
      → WalkedOn w graph cp res
  unfolding resume_choice choice_options
  resume_choice-WalkedOn t none c d e = cc
  resume_choice-WalkedOn t (some x) c d e = at (lookup x graph.nodes) refl e
    where
      tested :
          (n : Node) (b : Bool)
          → lookup x graph.nodes ≡ some n
          → member t (edge_targets n.edges) ≡ b
          → (if b
              then resumed (run env (choice_options env w graph cp x t) graph)
              else refused (not_an_edge t x))
            ≡ resumed (returned res saved)
          → WalkedOn w graph cp res
      tested n true f m q =
          walked (choice_options env w graph cp x t) t refl refl
            (by_choice c d (n, f, edge_targets-HasTarget t n.edges m)) q
      tested n false f m q = cc

      at :
          (p : Option Node)
          → lookup x graph.nodes ≡ p
          → (elim p [
            | none ↦ refused (not_in_flow (some x))
            | some n ↦
                if member t (edge_targets n.edges)
                then resumed (run env (choice_options env w graph cp x t) graph)
                else refused (not_an_edge t x)
          ])
            ≡ resumed (returned res saved)
          → WalkedOn w graph cp res
      at none f q = cc
      at (some n) f q = tested n (member t (edge_targets n.edges)) f refl q

  resume_event-WalkedOn :
      (name : Text) (o : Option Text)
      → chosen w.choose cp.decision ≡ none
      → w.event ≡ some name
      → waiting_node cp ≡ o
      → resume_event env w graph cp name o ≡ resumed (returned res saved)
      → WalkedOn w graph cp res
  unfolding resume_event event_options
  resume_event-WalkedOn name none a c d e = cc
  resume_event-WalkedOn name (some x) a c d e = at (lookup x graph.nodes) refl e
    where
      tested :
          (n : Node) (p : Option Text)
          → lookup x graph.nodes ≡ some n
          → event_target name n.edges ≡ p
          → (elim p [
            | none ↦ refused (no_event_edge name x)
            | some t ↦ resumed (run env (event_options env w graph cp x name t) graph)
          ])
            ≡ resumed (returned res saved)
          → WalkedOn w graph cp res
      tested n none f m q = cc
      tested n (some t) f m q =
          walked (event_options env w graph cp x name t) t refl refl
            (by_event_edge a c d f (event_target-FirstForEvent name n.edges t m)) q

      at :
          (p : Option Node)
          → lookup x graph.nodes ≡ p
          → (elim p [
            | none ↦ refused (not_in_flow (some x))
            | some n ↦ elim (event_target name n.edges) [
              | none ↦ refused (no_event_edge name x)
              | some t ↦ resumed (run env (event_options env w graph cp x name t) graph)
            ]
          ])
            ≡ resumed (returned res saved)
          → WalkedOn w graph cp res
      at none f q = cc
      at (some n) f q = tested n (event_target name n.edges) f refl q

  resume_crash-WalkedOn :
      chosen w.choose cp.decision ≡ none
      → w.event ≡ none
      → resume_crash env w graph cp ≡ resumed (returned res saved)
      → WalkedOn w graph cp res
  unfolding resume_crash resume_pending crash_options
  resume_crash-WalkedOn a c e = at (stopped_refusal cp.stopped) refl e
    where
      tested :
          (x : Text) (b : Bool)
          → IsInterrupted cp.stopped
          → cp.pending_node ≡ some x
          → has_key x graph.nodes ≡ b
          → (if b
              then resumed (run env (crash_options env w graph cp x) graph)
              else refused (no_pending_node (some x)))
            ≡ resumed (returned res saved)
          → WalkedOn w graph cp res
      tested x true k f m q =
          walked (crash_options env w graph cp x) x refl refl (at_pending a c k f m) q
      tested x false k f m q = cc

      pending :
          (o : Option Text)
          → IsInterrupted cp.stopped
          → cp.pending_node ≡ o
          → resume_pending env w graph cp o ≡ resumed (returned res saved)
          → WalkedOn w graph cp res
      pending none k f q = cc
      pending (some x) k f q = tested x (has_key x graph.nodes) k f refl q

      at :
          (r : Option Refusal)
          → stopped_refusal cp.stopped ≡ r
          → (elim r [ some y ↦ refused y | none ↦ resume_pending env w graph cp cp.pending_node ])
            ≡ resumed (returned res saved)
          → WalkedOn w graph cp res
      at (some r) f q = cc
      at none f q = pending cp.pending_node (stopped_refusal-IsInterrupted cp.stopped f) refl q

  resume_in-WalkedOn :
      (c e : Option Text)
      → chosen w.choose cp.decision ≡ c
      → w.event ≡ e
      → resume_in env w graph cp c e ≡ resumed (returned res saved)
      → WalkedOn w graph cp res
  unfolding resume_in
  resume_in-WalkedOn (some t) e f g q = resume_choice-WalkedOn t (decided_node cp) f refl q
  resume_in-WalkedOn none (some name) f g q =
      resume_event-WalkedOn name (waiting_node cp) f g refl q
  resume_in-WalkedOn none none f g q = resume_crash-WalkedOn f g q

-- A resume that returns has walked on in the flow that its checkpoint names: with a choice, from the
-- target of an edge of the node that waited, which is the choice; with an event and no choice, from the
-- target of that node's first edge for the event; with neither, from the pending node itself, after a crash
-- or a violated contract. Behind the history of the checkpoint and the step that was decided, its new steps
-- follow edges, and the reason it stopped is true of where it ended, provided that the router picks among
-- the edges it is given.
pub resume-WalkedOn :
    {Score : Type 0} (env : Env Score) (site : Site) (w : Wanted Score) (cp : Snapshot)
    (res : RunResult) (saved : List Saved)
    → RoutesAmong env
    → resume env site w cp ≡ resumed (returned res saved)
    → (graph : Graph) × (site.parse_file cp.flow_path ≡ some graph) × WalkedOn w graph cp res
unfolding resume
resume-WalkedOn env site w cp res saved among h =
    at (version_refusal cp) (flow_refusal cp (site.hash_of cp.flow_path) site.policy) h
  where
    parsed :
        (o : Option Graph)
        → site.parse_file cp.flow_path ≡ o
        → with_graph env site w cp o ≡ resumed (returned res saved)
        → (graph : Graph) × (site.parse_file cp.flow_path ≡ some graph) × WalkedOn w graph cp res
    parsed none e q = cc
    parsed (some graph) e q = (
      graph,
      e,
      resume_in-WalkedOn env among w graph cp res saved (chosen w.choose cp.decision) w.event refl
          refl q,
    )

    at :
        (r r' : Option Refusal)
        → unless_refused env site w cp r r' ≡ resumed (returned res saved)
        → (graph : Graph) × (site.parse_file cp.flow_path ≡ some graph) × WalkedOn w graph cp res
    at (some r) r' q = cc
    at none (some r) q = cc
    at none none q = parsed (site.parse_file cp.flow_path) refl q

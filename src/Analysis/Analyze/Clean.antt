-- ===== src/Analysis/Analyze/Clean.antt =====
-- What a flow in which `analyze` (prismpath/analysis.py) finds no error can rely on when it runs
-- (prismpath/engine.py).
use prismpath.Base.{
  ℕ, zero, suc, Option, none, some, Bool, true, false, not, ◌&&◌, if◌then◌else◌, List, [], ◌∷◌,
  is_nil, ◌≡◌, refl, sym, ap, subst,
}
use prismpath.Base.Text.{Text}
use prismpath.Base.Dict.{Dict, lookup, has_key}
use prismpath.Graph.{Node, Graph, Edge, is_terminal}
use prismpath.Predicates.Value.{Value}
use prismpath.Predicates.Condition.{is_semantic}
use prismpath.Engine.State.{terminal}
use prismpath.Engine.Turn.{
  Env, Config, Loop, Turn, again, stops, fails, key_error, worker_error, Reply, text, fields,
  raised, Decision, select, first_deterministic, error_turn, route_turn, suspend_turn, outcome_turn,
  reply_turn, node_turn, at_node, turn, choose, handle, routing_context, is_doubtful, keep_outcome,
  count_error, stop, checkpoint, visit, asks_human, ask, wants_wait, wait, refuse, gate_findings,
  normalize_text, normalize_fields,
}
use prismpath.Engine.Run.{
  Options, Outcome, failed, on_turn, loop, run, first_loop, config, bound_of, with_bound,
}
use prismpath.Engine.Walk.{RoutesAmong, TurnSpec, node_turn-TurnSpec}
use prismpath.Analysis.Finding.{Finding}
use prismpath.Analysis.Analyze.{analyze}
use prismpath.Analysis.Analyze.Defined.{
  Defined, has_error, check_structure-Defined, analyze-check_structure,
}

-- A turn that is not stopped by a node that does not exist.
abbrev pub Found : Turn → Type 0
Found (fails (key_error x) saved) = ⊥
Found _ = Unit

abbrev pub OutcomeFound : Outcome → Type 0
OutcomeFound (failed (key_error x) saved) = ⊥
OutcomeFound _ = Unit

pick : (b : Bool) (t u : Turn) → Found t → Found u → Found (if b then t else u)
pick true t u h k = h
pick false t u h k = k

module _ {Score : Type 0} (env : Env Score) (cfg : Config Score) (n : Node) where
  handle-Found :
      (kind message : Text) (l : Loop) (o : Option Text) → Found (handle env cfg kind message l o)
  handle-Found kind message l none = tt
  handle-Found kind message l (some t) = tt

  choose-Found :
      (said : Text) (l : Loop) (o : Option Edge) (sem : List Edge) (d : Decision Score)
      (doubt : Bool)
      → Found (choose env cfg said l o sem d doubt)
  choose-Found said l (some (t, c)) sem d doubt = tt
  choose-Found said l none [] d doubt = tt
  choose-Found said l none (e ∷ es) d true = tt
  choose-Found said l none (e ∷ es) d false = tt

  route_turn-Found :
      (said : Text) (given : Dict Value) (l : Loop) → Found (route_turn env cfg n said given l)
  unfolding route_turn
  route_turn-Found said given l =
      let sem = select is_semantic n.edges in
      let d = env.route said sem n.instruction in
      choose-Found said l (first_deterministic env n.edges (routing_context env cfg given l)) sem d
        (is_doubtful env cfg cfg.human_floor d.score)

  suspend_turn-Found :
      (said : Text) (given : Dict Value) (l : Loop) → Found (suspend_turn env cfg n said given l)
  unfolding suspend_turn
  suspend_turn-Found said given l =
      pick (asks_human env cfg given) (ask env cfg n said given l) _ tt (
        pick (wants_wait env cfg given) (wait env cfg n given l) (route_turn env cfg n said given l)
          tt (route_turn-Found said given l))

  outcome_turn-Found :
      (said : Text) (given : Dict Value) (l : Loop) → Found (outcome_turn env cfg n (said, given) l)
  unfolding outcome_turn
  outcome_turn-Found said given l =
      let kept = keep_outcome env cfg said given l in
      let found = gate_findings env cfg given kept in
      pick (cfg.type_gate && not (is_nil found)) (refuse env cfg found kept)
        (suspend_turn env cfg n said given kept) tt (suspend_turn-Found said given kept)

  reply_turn-Found : (l : Loop) (r : Reply) → Found (reply_turn env cfg n l r)
  unfolding reply_turn normalize_text normalize_fields error_turn
  reply_turn-Found l (text t) = outcome_turn-Found _ _ l
  reply_turn-Found l (fields d) = outcome_turn-Found _ _ l
  reply_turn-Found l (raised kind message) = handle-Found kind message (count_error env cfg l) _

  node_turn-Found : (l : Loop) → Found (node_turn env cfg n l)
  unfolding node_turn
  node_turn-Found l =
      let v = visit env cfg (checkpoint (some l.node) l) in
      let r = env.agent l.node n.instruction v.state in
      pick (is_terminal n.edges) (stop terminal none none l) (reply_turn env cfg n v r) tt
        (reply_turn-Found v r)

module _ {Score : Type 0} (env : Env Score) (among : RoutesAmong env) (cfg : Config Score)
    (graph : Graph)
    (defined : (x : Text) (n : Node)
      → lookup x graph.nodes ≡ some n
      → Defined graph.nodes n.edges) where
  -- A turn at a node of the graph leads to a node of the graph, if it goes on.
  abbrev Leads : Turn → Type 0
  Leads (again l) = has_key l.node graph.nodes ≡ true
  Leads (fails (key_error x) saved) = ⊥
  Leads _ = Unit

  node_turn-Leads :
      (l : Loop) (n : Node) → lookup l.node graph.nodes ≡ some n → Leads (node_turn env cfg n l)
  node_turn-Leads l n e =
      at (node_turn env cfg n l) (node_turn-Found env cfg n l)
        (node_turn-TurnSpec env among cfg n l)
    where
      at : (t : Turn) → Found t → TurnSpec n l t → Leads t
      at (again k) f spec =
          subst (λ x. has_key x graph.nodes ≡ true) (sym spec.to_node)
            (defined l.node n e spec.step.target spec.along)
      at (stops res saved) f spec = tt
      at (fails (key_error x) saved) f spec = f
      at (fails (worker_error kind message) saved) f spec = tt

  turn-Leads : (l : Loop) → has_key l.node graph.nodes ≡ true → Leads (turn env cfg graph l)
  unfolding turn
  turn-Leads l h = at (lookup l.node graph.nodes) refl h
    where
      at :
          (o : Option Node)
          → lookup l.node graph.nodes ≡ o
          → (elim o [ none ↦ false | some _ ↦ true ]) ≡ true
          → Leads (at_node env cfg l o)
      at none e k = cc
      at (some n) e k = node_turn-Leads l n e

  loop-Found :
      (rounds : ℕ) (l : Loop)
      → has_key l.node graph.nodes ≡ true
      → OutcomeFound (loop env cfg graph rounds l)
  unfolding loop
  loop-Found zero l h = tt
  loop-Found (suc rounds) l h =
      at (turn env cfg graph l) (turn-Leads l h) (λ k q. loop-Found rounds k q)
    where
      at :
          (t : Turn)
          → Leads t
          → ((k : Loop)
              → has_key k.node graph.nodes ≡ true
              → OutcomeFound (loop env cfg graph rounds k))
          → OutcomeFound (on_turn (λ k. loop env cfg graph rounds k) t)
      at (again k) q rec = rec k q
      at (stops res saved) q rec = tt
      at (fails (key_error x) saved) q rec = q
      at (fails (worker_error kind message) saved) q rec = tt

-- A flow in which `analyze` finds no error never raises KeyError when it runs from its start: no run of
-- it is stopped by a node that does not exist, provided that the router picks among the edges it is
-- given.
pub run-analyze :
    {Score : Type 0} (env : Env Score) (o : Options Score) (graph : Graph)
    (set_order : List Text → List Text) (fs : List Finding)
    → RoutesAmong env
    → o.start ≡ none
    → analyze env.ast_parse set_order graph ≡ some fs
    → has_error fs ≡ false
    → OutcomeFound (run env o graph)
unfolding run first_loop
run-analyze env o graph set_order fs among fresh e h = at (bound_of o graph)
  where
    clean :
        (has_key graph.start graph.nodes ≡ true)
        × ((x : Text) (n : Node) → lookup x graph.nodes ≡ some n → Defined graph.nodes n.edges)
    clean =
        check_structure-Defined env.ast_parse graph
          (analyze-check_structure env.ast_parse set_order graph fs e h)

    at : (b : Option (Option ℕ)) → OutcomeFound (with_bound env o graph b)
    at none = tt
    at (some bound) =
        loop-Found env among (config env o graph bound) graph clean.1 o.max_steps
          (first_loop o graph bound)
          (subst (λ x. has_key x graph.nodes ≡ true)
            (ap (λ (s : Option Text). elim s [ none ↦ graph.start | some x ↦ x ]) (sym fresh))
            clean.0)

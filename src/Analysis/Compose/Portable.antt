-- ===== src/Analysis/Compose/Portable.antt =====
-- What `portability` (prismpath/analysis.py) promises of a run (prismpath/engine.py): a flow without
-- semantic edges on its reachable nodes runs without a router.
use prismpath.Base.{
  ℕ, zero, suc, Option, none, some, Bool, true, false, not, ◌&&◌, if◌then◌else◌, List, [], ◌∷◌,
  is_nil, append-eq-nil, ◌≡◌, refl, sym, ap, subst, ◌∙◌, ◌⊎◌, inl, inr, Bool-cases,
}
use prismpath.Base.Text.{Text}
use prismpath.Base.Dict.{Dict, lookup}
use prismpath.Graph.{Node, Graph, Edge, is_terminal}
use prismpath.Predicates.Value.{Value}
use prismpath.Predicates.Condition.{
  is_deterministic, is_semantic, is_error, error_expr, eval_condition,
}
use prismpath.Engine.Turn.{
  Env, Config, Loop, Turn, again, stops, fails, Reply, text, fields, raised, Decision, select,
  first_deterministic, error_target, error_turn, route_turn, suspend_turn, outcome_turn, reply_turn,
  node_turn, at_node, turn, choose, handle, routing_context, is_doubtful, keep_outcome, count_error,
  error_context_of, stop, checkpoint, visit, asks_human, ask, wants_wait, wait, refuse,
  gate_findings, normalize_text, normalize_fields,
}
use prismpath.Engine.State.{terminal}
use prismpath.Engine.Run.{Options, on_turn, loop, run, first_loop, config, bound_of, with_bound}
use prismpath.Engine.Walk.{RoutesAmong, TurnSpec, node_turn-TurnSpec}
use prismpath.Analysis.Finding.{text_le, insert_text, sorted}
use prismpath.Analysis.Reach.{reachable}
use prismpath.Analysis.Reach.Correct.{Reaches, at_start, along, reachable_iff}
use prismpath.Analysis.Reach.Stack.{In, member-In, lookup-has_key}
use prismpath.Analysis.Compose.{semantic_findings, semantic_at, over_reached, portability}

In-insert_text : (x y : Text) (ys : List Text) → (x ≡ y) ⊎ In x ys → In x (insert_text y ys)
In-insert_text x y [] h = h
In-insert_text x y (z ∷ zs) h = at (text_le y z) h (In-insert_text x y zs)
  where
    at :
        (b : Bool)
        → (x ≡ y) ⊎ In x (z ∷ zs)
        → ((x ≡ y) ⊎ In x zs → In x (insert_text y zs))
        → In x (if b then y ∷ z ∷ zs else z ∷ insert_text y zs)
    at true h rec = h
    at false (inl e) rec = inr (rec (inl e))
    at false (inr (inl e)) rec = inl e
    at false (inr (inr k)) rec = inr (rec (inr k))

In-sorted : (x : Text) (xs : List Text) → In x xs → In x (sorted xs)
In-sorted x [] h = h
In-sorted x (y ∷ ys) (inl e) = In-insert_text x y (sorted ys) (inl e)
In-sorted x (y ∷ ys) (inr h) = In-insert_text x y (sorted ys) (inr (In-sorted x ys h))

semantic_findings-select :
    (x : Text) (es : List Edge) → semantic_findings x es ≡ [] → select is_semantic es ≡ []
semantic_findings-select x [] h = refl
semantic_findings-select x ((t, c) ∷ es) h = elim (Bool-cases (is_semantic c)) [
  | inl e ↦ cc (rw e at h)
  | inr e ↦ rw e (semantic_findings-select x es (rw e at h))
]

over_reached-select :
    (nodes : Dict Node) (xs : List Text) (x : Text) (n : Node)
    → over_reached nodes xs ≡ []
    → In x xs
    → lookup x nodes ≡ some n
    → select is_semantic n.edges ≡ []
over_reached-select nodes [] x n h k e = elim k [ ]
over_reached-select nodes (y ∷ ys) x n h (inl same) e = semantic_findings-select y n.edges (
    ap (semantic_at y) (sym (subst (λ z. lookup z nodes ≡ some n) same e))
    ∙ (append-eq-nil _ _ h).0)
over_reached-select nodes (y ∷ ys) x n h (inr k) e =
    over_reached-select nodes ys x n (append-eq-nil _ _ h).1 k e

-- On the nodes that edges lead to from the start, no edge of a portable flow is semantic.
portability-select :
    (graph : Graph) (x : Text) (n : Node)
    → portability graph ≡ []
    → Reaches graph x
    → lookup x graph.nodes ≡ some n
    → select is_semantic n.edges ≡ []
unfolding portability
portability-select graph x n h r e =
    over_reached-select graph.nodes (sorted (reachable graph)) x n h
      (In-sorted x (reachable graph) (
        member-In x (reachable graph)
          ((reachable_iff graph x).1 (r, lookup-has_key x n graph.nodes e))))
      e

-- The same environment with another router, and another order of its scores.
abbrev pub with_router :
    {Score : Type 0}
    → (Text → List Edge → Text → Decision Score)
    → (Score → Score → Bool)
    → Env Score
    → Env Score
with_router route below env = record env { route = route; below = below }

module _ {Score : Type 0} (env : Env Score) (route : Text → List Edge → Text → Decision Score)
    (below : Score → Score → Bool) where
  abbrev other : Env Score
  other = with_router route below env

  first_deterministic-with_router :
      (es : List Edge) (ctx : Dict Value)
      → first_deterministic env es ctx ≡ first_deterministic other es ctx
  unfolding first_deterministic
  first_deterministic-with_router [] ctx = refl
  first_deterministic-with_router ((t, c) ∷ es) ctx =
      ap
        (λ later.
          if is_deterministic c
          then elim (eval_condition env.ast_parse c ctx) [ some true ↦ some (t, c) | _ ↦ later ]
          else later)
        (first_deterministic-with_router es ctx)

  error_target-with_router :
      (es : List Edge) (ctx : Dict Value) → error_target env es ctx ≡ error_target other es ctx
  unfolding error_target
  error_target-with_router [] ctx = refl
  error_target-with_router ((t, c) ∷ es) ctx =
      ap
        (λ later.
          if is_error c
          then if is_nil (error_expr c)
            then some t
            else elim (eval_condition env.ast_parse (error_expr c) ctx) [
              | some true ↦ some t
              | _ ↦ later
            ]
          else later)
        (error_target-with_router es ctx)

  module _ (cfg : Config Score) (n : Node) (portable : select is_semantic n.edges ≡ []) where
    handle-with_router :
        (kind message : Text) (l : Loop) (found : Option Text)
        → handle env cfg kind message l found ≡ handle other cfg kind message l found
    handle-with_router kind message l none = refl
    handle-with_router kind message l (some t) = refl

    error_turn-with_router :
        (kind message : Text) (l : Loop)
        → error_turn env cfg n kind message l ≡ error_turn other cfg n kind message l
    unfolding error_turn
    error_turn-with_router kind message l =
        ap (handle env cfg kind message (count_error env cfg l)) (
          error_target-with_router n.edges
            (error_context_of env cfg kind message (count_error env cfg l)))
        ∙ handle-with_router kind message (count_error env cfg l) _

    choose-with_router :
        (said : Text) (l : Loop) (found : Option Edge) (d d' : Decision Score) (doubt doubt' : Bool)
        (sem : List Edge)
        → sem ≡ []
        → choose env cfg said l found sem d doubt ≡ choose other cfg said l found sem d' doubt'
    choose-with_router said l (some (t, c)) d d' doubt doubt' sem e = refl
    choose-with_router said l none d d' doubt doubt' [] e = refl
    choose-with_router said l none d d' doubt doubt' (x ∷ xs) e = cc

    route_turn-with_router :
        (said : Text) (given : Dict Value) (l : Loop)
        → route_turn env cfg n said given l ≡ route_turn other cfg n said given l
    unfolding route_turn
    route_turn-with_router said given l =
        ap
          (λ found.
            choose env cfg said l found (select is_semantic n.edges)
              (env.route said (select is_semantic n.edges) n.instruction)
              (is_doubtful env cfg cfg.human_floor
                (env.route said (select is_semantic n.edges) n.instruction).score))
          (first_deterministic-with_router n.edges (routing_context env cfg given l))
        ∙ choose-with_router said l _ _ _ _ _ (select is_semantic n.edges) portable

    suspend_turn-with_router :
        (said : Text) (given : Dict Value) (l : Loop)
        → suspend_turn env cfg n said given l ≡ suspend_turn other cfg n said given l
    unfolding suspend_turn
    suspend_turn-with_router said given l =
        ap
          (λ rest.
            if asks_human env cfg given
            then ask env cfg n said given l
            else if wants_wait env cfg given
            then wait env cfg n given l
            else rest)
          (route_turn-with_router said given l)

    outcome_turn-with_router :
        (said : Text) (given : Dict Value) (l : Loop)
        → outcome_turn env cfg n (said, given) l ≡ outcome_turn other cfg n (said, given) l
    unfolding outcome_turn
    outcome_turn-with_router said given l =
        let kept = keep_outcome env cfg said given l in
        let found = gate_findings env cfg given kept in
        ap (λ rest. if cfg.type_gate && not (is_nil found) then refuse env cfg found kept else rest)
          (suspend_turn-with_router said given kept)

    reply_turn-with_router :
        (l : Loop) (r : Reply) → reply_turn env cfg n l r ≡ reply_turn other cfg n l r
    unfolding reply_turn normalize_text normalize_fields
    reply_turn-with_router l (text t) = outcome_turn-with_router _ _ l
    reply_turn-with_router l (fields d) = outcome_turn-with_router _ _ l
    reply_turn-with_router l (raised kind message) = error_turn-with_router kind message l

    node_turn-with_router : (l : Loop) → node_turn env cfg n l ≡ node_turn other cfg n l
    unfolding node_turn
    node_turn-with_router l =
        let v = visit env cfg (checkpoint (some l.node) l) in
        ap (λ rest. if is_terminal n.edges then stop terminal none none l else rest)
          (reply_turn-with_router v (env.agent l.node n.instruction v.state))

-- A router that answers with the first edge.
abbrev first_edge : {Score : Type 0} → Text → List Edge → Text → Decision Score
first_edge said [] instruction = record { target = []; score = none }
first_edge said (e ∷ es) instruction = record { target = e.0; score = none }

module _ {Score : Type 0} (env : Env Score) (cfg : Config Score) (graph : Graph)
    (portable : portability graph ≡ []) where
  abbrev plain : Env Score
  plain = with_router first_edge (λ a b. false) env

  plain-RoutesAmong : RoutesAmong plain
  plain-RoutesAmong said [] instruction h = absurd (h refl)
  plain-RoutesAmong said (e ∷ es) instruction h = inl refl

  turn-plain : (l : Loop) → Reaches graph l.node → turn env cfg graph l ≡ turn plain cfg graph l
  unfolding turn
  turn-plain l r = at (lookup l.node graph.nodes) refl
    where
      at :
          (o : Option Node)
          → lookup l.node graph.nodes ≡ o
          → at_node env cfg l o ≡ at_node plain cfg l o
      at none e = refl
      at (some n) e =
          node_turn-with_router env first_edge (λ a b. false) cfg n
            (portability-select graph l.node n portable r e) l

  again-Reaches :
      (l l' : Loop)
      → Reaches graph l.node
      → turn plain cfg graph l ≡ again l'
      → Reaches graph l'.node
  unfolding turn
  again-Reaches l l' r e = at (lookup l.node graph.nodes) refl e
    where
      moved :
          (n : Node) (t : Turn)
          → lookup l.node graph.nodes ≡ some n
          → TurnSpec n l t
          → t ≡ again l'
          → Reaches graph l'.node
      moved n (again k) f spec q =
          subst (λ (u : Turn). Reaches graph (elim u [ again j ↦ j.node | _ ↦ l.node ])) q
            (subst (Reaches graph) (sym spec.to_node) (along r (n, f, spec.along)))
      moved n (stops res saved) f spec q = cc
      moved n (fails x saved) f spec q = cc

      at :
          (o : Option Node)
          → lookup l.node graph.nodes ≡ o
          → at_node plain cfg l o ≡ again l'
          → Reaches graph l'.node
      at none f q = cc
      at (some n) f q =
          moved n (node_turn plain cfg n l) f (node_turn-TurnSpec plain plain-RoutesAmong cfg n l) q

  loop-plain :
      (rounds : ℕ) (l : Loop)
      → Reaches graph l.node
      → loop env cfg graph rounds l ≡ loop plain cfg graph rounds l
  unfolding loop
  loop-plain zero l r = refl
  loop-plain (suc rounds) l r =
      ap (on_turn (λ k. loop env cfg graph rounds k)) (turn-plain l r)
      ∙ at (turn plain cfg graph l) refl (λ k h. loop-plain rounds k h)
    where
      at :
          (t : Turn)
          → turn plain cfg graph l ≡ t
          → ((k : Loop)
              → Reaches graph k.node
              → loop env cfg graph rounds k ≡ loop plain cfg graph rounds k)
          → on_turn (λ k. loop env cfg graph rounds k) t
            ≡ on_turn (λ k. loop plain cfg graph rounds k) t
      at (again k) e rec = rec k (again-Reaches l k r e)
      at (stops res saved) e rec = refl
      at (fails x saved) e rec = refl

start_node-Reaches :
    {Score : Type 0} (o : Options Score) (graph : Graph) (bound : Option ℕ)
    → o.start ≡ none
    → Reaches graph (first_loop o graph bound).node
unfolding first_loop
start_node-Reaches o graph bound e =
    subst (Reaches graph)
      (ap (λ (s : Option Text). elim s [ none ↦ graph.start | some x ↦ x ]) (sym e)) at_start

-- A flow that `portability` has nothing against runs the same with any router: from the graph's start,
-- with two routers and two orders of their scores the run has the same outcome.
pub run-portability :
    {Score : Type 0} (env : Env Score) (route : Text → List Edge → Text → Decision Score)
    (below : Score → Score → Bool) (o : Options Score) (graph : Graph)
    → o.start ≡ none
    → portability graph ≡ []
    → run env o graph ≡ run (with_router route below env) o graph
unfolding run config
run-portability env route below o graph fresh portable = at (bound_of o graph)
  where
    at :
        (b : Option (Option ℕ))
        → with_bound env o graph b ≡ with_bound (with_router route below env) o graph b
    at none = refl
    at (some bound) =
        loop-plain env (config env o graph bound) graph portable o.max_steps
          (first_loop o graph bound) (start_node-Reaches o graph bound fresh)
        ∙ sym (
            loop-plain (with_router route below env) (config env o graph bound) graph portable
              o.max_steps (first_loop o graph bound) (start_node-Reaches o graph bound fresh))

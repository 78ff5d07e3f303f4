-- ===== src/Engine/Walk.antt =====
-- The path and the steps of a run (prismpath/engine.py, `run`) are a walk through the graph.
use prismpath.Base.{
  Option, none, some, Bool, true, false, not, ◌&&◌, if◌then◌else◌, List, [], ◌∷◌, ◌++◌, is_nil, map,
  ◌≡◌, ◌≢◌, refl, sym, ◌∙◌, ◌⊎◌, inl, inr, arith, Bool-cases,
}
use prismpath.Base.Text.{Text}
use prismpath.Base.Dict.{Dict, lookup}
use prismpath.Graph.{Node, Graph, Edge, is_terminal}
use prismpath.Predicates.Value.{Value}
use prismpath.Predicates.Condition.{is_semantic}
use prismpath.Engine.State.{StepLog, Stopped, unset, terminal, stuck, max_steps}
use prismpath.Engine.Turn.{
  Env, Config, Loop, Turn, again, stops, fails, Reply, text, fields, raised, select,
  first_deterministic, error_target, error_turn, route_turn, suspend_turn, outcome_turn, node_turn,
  normalize_fields, normalize_text, handle, choose, Decision, keep_outcome, reply_turn, asks_human,
  ask, wants_wait, wait, gate_findings, refuse, visit, checkpoint, count_error, stop,
}

-- `t` is the target of one of the edges.
abbrev pub HasTarget : Text → List Edge → Type 0
HasTarget t [] = ⊥
HasTarget t (e ∷ es) = (t ≡ e.0) ⊎ HasTarget t es

-- The graph has an edge from `x` to `t`.
abbrev pub IsEdge : Graph → Text → Text → Type 0
IsEdge graph x t = (n : Node) × (lookup x graph.nodes ≡ some n) × HasTarget t n.edges

-- The steps lead from `x` to `y`, each along an edge and from where the last one led.
abbrev pub IsWalk : Graph → Text → List StepLog → Text → Type 0
IsWalk graph x [] y = x ≡ y
IsWalk graph x (s ∷ ss) y = (s.node ≡ x) × IsEdge graph x s.target × IsWalk graph s.target ss y

abbrev pub targets : List StepLog → List Text
targets = map (λ s. s.target)

-- The router answers with the target of an edge that it was given.
abbrev pub RoutesAmong : {Score : Type 0} → Env Score → Type 0
RoutesAmong env =
    (said : Text) (es : List Edge) (instruction : Text)
    → es ≢ []
    → HasTarget (env.route said es instruction).target es

HasTarget-select :
    (p : Text → Bool) (t : Text) (es : List Edge) → HasTarget t (select p es) → HasTarget t es
HasTarget-select p t [] h = h
HasTarget-select p t ((u, c) ∷ es) h = elim (Bool-cases (p c)) [
  | inl e ↦ elim (rw e at h) [ inl q ↦ inl q | inr q ↦ inr (HasTarget-select p t es q) ]
  | inr e ↦ inr (HasTarget-select p t es (rw e at h))
]

module _ {Score : Type 0} (env : Env Score) where
  first_deterministic-HasTarget :
      (es : List Edge) (ctx : Dict Value) (e : Edge)
      → first_deterministic env es ctx ≡ some e
      → HasTarget e.0 es
  unfolding first_deterministic
  first_deterministic-HasTarget [] ctx e h = cc
  first_deterministic-HasTarget ((t, c) ∷ es) ctx e h =
      ground (arith, first_deterministic-HasTarget es ctx e)

  error_target-HasTarget :
      (es : List Edge) (ctx : Dict Value) (t : Text)
      → error_target env es ctx ≡ some t
      → HasTarget t es
  unfolding error_target
  error_target-HasTarget [] ctx t h = cc
  error_target-HasTarget ((u, c) ∷ es) ctx t h = ground (arith, error_target-HasTarget es ctx t)

-- What one turn does to the path and the steps.
pub record Moved (n : Node) (l l' : Loop) : Type 0 where
  pub step : StepLog
  pub from_node : step.node ≡ l.node
  pub along : HasTarget step.target n.edges
  pub to_node : l'.node ≡ step.target
  pub one_step : l'.steps ≡ l.steps ++ step ∷ []
  pub one_node : l'.path ≡ l.path ++ step.target ∷ []

-- Why a turn stops, as far as the graph decides it.
abbrev pub Explains : Node → Stopped → Type 0
Explains n terminal = n.edges ≡ []
Explains n stuck = (n.edges ≢ []) × (select is_semantic n.edges ≡ [])
Explains n max_steps = ⊥
Explains n unset = ⊥
Explains n _ = n.edges ≢ []

abbrev pub TurnSpec : Node → Loop → Turn → Type 0
TurnSpec n l (again l') = Moved n l l'
TurnSpec n l (stops res saved) =
    (res.path ≡ l.path) × (res.steps ≡ l.steps) × Explains n res.stopped
TurnSpec n l (fails f saved) = Unit

-- Both branches of a test are in order.
pick :
    (n : Node) (l : Loop) (b : Bool) (t u : Turn)
    → TurnSpec n l t
    → TurnSpec n l u
    → TurnSpec n l (if b then t else u)
pick n l true t u h k = h
pick n l false t u h k = k

-- A loop state with the same node, path and steps.
record SamePlace (l l' : Loop) : Type 0 where
  node_eq : l.node ≡ l'.node
  path_eq : l.path ≡ l'.path
  steps_eq : l.steps ≡ l'.steps

TurnSpec-SamePlace :
    (n : Node) (l l' : Loop) (t : Turn) → SamePlace l l' → TurnSpec n l' t → TurnSpec n l t
TurnSpec-SamePlace n l l' (again l₂) h m = record {
  step = m.step;
  from_node = m.from_node ∙ sym h.node_eq;
  along = m.along;
  to_node = m.to_node;
  one_step = rw h.steps_eq m.one_step;
  one_node = rw h.path_eq m.one_node;
}
TurnSpec-SamePlace n l l' (stops res saved) h m = (m.0 ∙ sym h.path_eq, m.1 ∙ sym h.steps_eq, m.2)
TurnSpec-SamePlace n l l' (fails f saved) h m = tt

module _ {Score : Type 0} (env : Env Score) (among : RoutesAmong env) (cfg : Config Score)
    (n : Node) where
  handle-TurnSpec :
      (kind message : Text) (l : Loop) (found : Option Text)
      → ((t : Text) → found ≡ some t → HasTarget t n.edges)
      → TurnSpec n l (handle env cfg kind message l found)
  handle-TurnSpec kind message l none h = tt
  handle-TurnSpec kind message l (some t) h = record {
    step = _;
    from_node = refl;
    along = h t refl;
    to_node = refl;
    one_step = refl;
    one_node = refl;
  }

  error_turn-TurnSpec :
      (kind message : Text) (l : Loop) → TurnSpec n l (error_turn env cfg n kind message l)
  unfolding error_turn
  error_turn-TurnSpec kind message l =
      TurnSpec-SamePlace n l (count_error env cfg l) _
        (record { node_eq = refl; path_eq = refl; steps_eq = refl })
        (handle-TurnSpec kind message (count_error env cfg l) _
          (error_target-HasTarget env n.edges _))

  choose-TurnSpec :
      (said : Text) (l : Loop) (found : Option Edge) (sem : List Edge) (d : Decision Score)
      (doubt : Bool)
      → n.edges ≢ []
      → select is_semantic n.edges ≡ sem
      → ((e : Edge) → found ≡ some e → HasTarget e.0 n.edges)
      → (sem ≢ [] → HasTarget d.target sem)
      → TurnSpec n l (choose env cfg said l found sem d doubt)
  choose-TurnSpec said l (some (t, c)) sem d doubt some_edge s h k = record {
    step = _;
    from_node = refl;
    along = h (t, c) refl;
    to_node = refl;
    one_step = refl;
    one_node = refl;
  }
  choose-TurnSpec said l none [] d doubt some_edge s h k = (refl, refl, (some_edge, s))
  choose-TurnSpec said l none (e ∷ es) d true some_edge s h k = (refl, refl, some_edge)
  choose-TurnSpec said l none (e ∷ es) d false some_edge s h k = record {
    step = _;
    from_node = refl;
    along = HasTarget-select is_semantic d.target n.edges (rw s (k (λ q. cc)));
    to_node = refl;
    one_step = refl;
    one_node = refl;
  }

  route_turn-TurnSpec :
      (said : Text) (given : Dict Value) (l : Loop)
      → n.edges ≢ []
      → TurnSpec n l (route_turn env cfg n said given l)
  unfolding route_turn
  route_turn-TurnSpec said given l some_edge =
      choose-TurnSpec said l _ _ _ _ some_edge refl (first_deterministic-HasTarget env n.edges _)
        (among said (select is_semantic n.edges) n.instruction)

  suspend_turn-TurnSpec :
      (said : Text) (given : Dict Value) (l : Loop)
      → n.edges ≢ []
      → TurnSpec n l (suspend_turn env cfg n said given l)
  unfolding suspend_turn
  suspend_turn-TurnSpec said given l some_edge =
      pick n l (asks_human env cfg given) (ask env cfg n said given l) _ (refl, refl, some_edge)
        (pick n l (wants_wait env cfg given) (wait env cfg n given l)
          (route_turn env cfg n said given l) (refl, refl, some_edge)
          (route_turn-TurnSpec said given l some_edge))

  outcome_turn-TurnSpec :
      (said : Text) (given : Dict Value) (l : Loop)
      → n.edges ≢ []
      → TurnSpec n l (outcome_turn env cfg n (said, given) l)
  unfolding outcome_turn
  outcome_turn-TurnSpec said given l some_edge =
      let l' = keep_outcome env cfg said given l in
      let found = gate_findings env cfg given l' in
      pick n l (cfg.type_gate && not (is_nil found)) (refuse env cfg found l')
        (suspend_turn env cfg n said given l') (refl, refl, some_edge)
        (TurnSpec-SamePlace n l l' _ (record { node_eq = refl; path_eq = refl; steps_eq = refl })
          (suspend_turn-TurnSpec said given l' some_edge))

  reply_turn-TurnSpec :
      (l : Loop) (r : Reply) → n.edges ≢ [] → TurnSpec n l (reply_turn env cfg n l r)
  unfolding reply_turn normalize_text normalize_fields
  reply_turn-TurnSpec l (text t) some_edge = outcome_turn-TurnSpec _ _ l some_edge
  reply_turn-TurnSpec l (fields d) some_edge = outcome_turn-TurnSpec _ _ l some_edge
  reply_turn-TurnSpec l (raised kind message) some_edge = error_turn-TurnSpec kind message l

  pub node_turn-TurnSpec : (l : Loop) → TurnSpec n l (node_turn env cfg n l)
  unfolding node_turn
  node_turn-TurnSpec l = go n.edges refl
    where
      visited : Loop
      visited = visit env cfg (checkpoint (some l.node) l)

      go :
          (es : List Edge)
          → n.edges ≡ es
          → TurnSpec n l (
              if is_terminal es
              then stop terminal none none l
              else reply_turn env cfg n visited (env.agent l.node n.instruction visited.state))
      go [] e = (refl, refl, e)
      go (x ∷ es) e =
          TurnSpec-SamePlace n l visited _
            (record { node_eq = refl; path_eq = refl; steps_eq = refl })
            (reply_turn-TurnSpec visited _ (λ q. cc))

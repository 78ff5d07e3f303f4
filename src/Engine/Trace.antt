-- ===== src/Engine/Trace.antt =====
-- The loop of `run` (prismpath/engine.py), turn after turn: a run walks through the graph.
use prismpath.Base.{
  ℕ, zero, suc, ◌+◌, ◌<◌, Option, none, some, List, [], ◌∷◌, ◌++◌, length, ◌≡◌, refl, sym, ap, ◌∙◌,
  arith, append_assoc, length-append, append-nil,
}
use prismpath.Base.Text.{Text}
use prismpath.Base.Dict.{lookup}
use prismpath.Graph.{Node, Graph}
use prismpath.Engine.State.{StepLog, Stopped, max_steps, RunResult, window}
use prismpath.Engine.Turn.{Env, Config, Loop, Turn, again, stops, fails, node_turn, turn, at_node}
use prismpath.Engine.Walk.{
  IsEdge, IsWalk, targets, RoutesAmong, Explains, Moved, TurnSpec, node_turn-TurnSpec,
}
use prismpath.Engine.Run.{
  on_turn, first_loop, config, run, bound_of, Options, Outcome, returned, loop,
}

-- Where and why a run has ended: `last` is the node at which it stopped.
abbrev pub Ended : Graph → ℕ → ℕ → Text → Stopped → Type 0
Ended graph taken rounds last max_steps = taken ≡ rounds
Ended graph taken rounds last why =
    (taken < rounds) × ((n : Node) × (lookup last graph.nodes ≡ some n) × Explains n why)

-- What the steps `new` of a run that began at `x` have to be.
pub record RunSpec (graph : Graph) (seed_path : List Text) (seed_steps : List StepLog) (x : Text)
    (rounds : ℕ) (res : RunResult) : Type 0 where
  pub new : List StepLog
  pub last : Text
  pub steps_eq : res.steps ≡ seed_steps ++ new
  pub path_eq : res.path ≡ seed_path ++ x ∷ targets new
  pub walk : IsWalk graph x new last
  pub ended : Ended graph (length new) rounds last res.stopped

abbrev pub OutcomeSpec : Graph → List Text → List StepLog → Text → ℕ → Outcome → Type 0
OutcomeSpec graph ps ss x rounds (returned res saved) = RunSpec graph ps ss x rounds res
OutcomeSpec graph ps ss x rounds _ = Unit

-- The loop after the steps `new`.
record Traced (graph : Graph) (ps : List Text) (ss : List StepLog) (x : Text) (taken : ℕ) (l : Loop)
    : Type 0 where
  new : List StepLog
  steps_eq : l.steps ≡ ss ++ new
  path_eq : l.path ≡ ps ++ x ∷ targets new
  walk : IsWalk graph x new l.node
  count : length new ≡ taken

IsWalk-append :
    (graph : Graph) (x y : Text) (ss : List StepLog) (s : StepLog)
    → IsWalk graph x ss y
    → s.node ≡ y
    → IsEdge graph y s.target
    → IsWalk graph x (ss ++ s ∷ []) s.target
IsWalk-append graph x y [] s w f e = (f ∙ sym w, rw w e, refl)
IsWalk-append graph x y (r ∷ ss) s w f e = (w.0, w.1, IsWalk-append graph r.target y ss s w.2 f e)

map-append-one :
    (ss : List StepLog) (s : StepLog) → targets (ss ++ s ∷ []) ≡ targets ss ++ s.target ∷ []
map-append-one [] s = refl
map-append-one (r ∷ ss) s = ap (λ t. r.target ∷ t) (map-append-one ss s)

Traced-Moved :
    (graph : Graph) (ps : List Text) (ss : List StepLog) (x : Text) (taken : ℕ) (n : Node)
    (l l' : Loop)
    → lookup l.node graph.nodes ≡ some n
    → Traced graph ps ss x taken l
    → Moved n l l'
    → Traced graph ps ss x (suc taken) l'
Traced-Moved graph ps ss x taken n l l' at_n t m = record {
  new = t.new ++ m.step ∷ [];
  steps_eq = m.one_step ∙ rw t.steps_eq (append_assoc ss t.new _);
  path_eq = m.one_node ∙ rw (t.path_eq, map-append-one t.new m.step) (append_assoc ps _ _);
  walk =
      rw m.to_node
        (IsWalk-append graph x l.node t.new m.step t.walk m.from_node (n, at_n, m.along));
  count = omega (arith, length-append t.new (m.step ∷ []), t.count);
}

Ended-Explains :
    (graph : Graph) (taken rounds : ℕ) (last : Text) (why : Stopped) (n : Node)
    → taken < rounds
    → lookup last graph.nodes ≡ some n
    → Explains n why
    → Ended graph taken rounds last why
Ended-Explains graph taken rounds last max_steps n lt at_n e = absurd e
Ended-Explains graph taken rounds last _ n lt at_n e = (lt, (n, at_n, e))

module _ {Score : Type 0} (env : Env Score) (among : RoutesAmong env) (cfg : Config Score)
    (graph : Graph) (ps : List Text) (ss : List StepLog) (x : Text) where
  after_turn :
      (rounds taken left : ℕ) (n : Node) (l : Loop) (t : Turn) (next : Loop → Outcome)
      → lookup l.node graph.nodes ≡ some n
      → Traced graph ps ss x taken l
      → taken + suc left ≡ rounds
      → TurnSpec n l t
      → ((l' : Loop)
          → Traced graph ps ss x (suc taken) l'
          → OutcomeSpec graph ps ss x rounds (next l'))
      → OutcomeSpec graph ps ss x rounds (on_turn next t)
  after_turn rounds taken left n l (again l') next at_n t e m k =
      k l' (Traced-Moved graph ps ss x taken n l l' at_n t m)
  after_turn rounds taken left n l (stops res saved) next at_n t e m k = record {
    new = t.new;
    last = l.node;
    steps_eq = m.1 ∙ t.steps_eq;
    path_eq = m.0 ∙ t.path_eq;
    walk = t.walk;
    ended = Ended-Explains graph _ rounds l.node res.stopped n (omega (arith, t.count)) at_n m.2;
  }
  after_turn rounds taken left n l (fails f saved) next at_n t e m k = tt

  loop-OutcomeSpec :
      (rounds left taken : ℕ) (l : Loop)
      → taken + left ≡ rounds
      → Traced graph ps ss x taken l
      → OutcomeSpec graph ps ss x rounds (loop env cfg graph left l)
  unfolding loop at_node turn
  loop-OutcomeSpec rounds zero taken l e t = record {
    new = t.new;
    last = l.node;
    steps_eq = t.steps_eq;
    path_eq = t.path_eq;
    walk = t.walk;
    ended = omega (arith, t.count);
  }
  loop-OutcomeSpec rounds (suc left) taken l e t =
      step (lookup l.node graph.nodes) refl
        (λ l' t'. loop-OutcomeSpec rounds left (suc taken) l' (omega arith) t')
    where
      step :
          (o : Option Node)
          → lookup l.node graph.nodes ≡ o
          → ((l' : Loop)
              → Traced graph ps ss x (suc taken) l'
              → OutcomeSpec graph ps ss x rounds (loop env cfg graph left l'))
          → OutcomeSpec graph ps ss x rounds
              (on_turn (λ l'. loop env cfg graph left l') (at_node env cfg l o))
      step none at_n rest = tt
      step (some n) at_n rest =
          after_turn rounds taken left n l (node_turn env cfg n l) _ at_n t e
            (node_turn-TurnSpec env among cfg n l) rest

-- A run that returns has walked through the graph: behind the seeds, its steps follow edges from the
-- start to the last node, and its path lists the start and their targets. It stopped for `max_steps`
-- after exactly that many steps; otherwise after fewer, at a node of the graph that has no edges if
-- it stopped as terminal, that has edges and no semantic one if it is stuck, and that has edges if
-- it is suspended or refused. The router is supposed to choose among the edges it is given.
pub run_walks :
    {Score : Type 0} (env : Env Score) (o : Options Score) (graph : Graph) (bound : Option ℕ)
    → RoutesAmong env
    → bound_of o graph ≡ some bound
    → OutcomeSpec graph
        (window bound o.seed_path)
        (window bound o.seed_steps)
        (first_loop o graph bound).node
        o.max_steps
        (run env o graph)
unfolding run
run_walks env o graph bound among e = rw e (
    loop_walks (record {
      new = [];
      steps_eq = sym (append-nil _);
      path_eq = refl;
      walk = refl;
      count = refl;
    }))
  where
    start : Loop
    start = first_loop o graph bound

    loop_walks :
        Traced graph (window bound o.seed_path) (window bound o.seed_steps) start.node 0 start
        → OutcomeSpec graph
            (window bound o.seed_path)
            (window bound o.seed_steps)
            start.node
            o.max_steps
            (loop env (config env o graph bound) graph o.max_steps start)
    loop_walks =
        loop-OutcomeSpec env among (config env o graph bound) graph _ _ _ o.max_steps o.max_steps 0
          start (omega arith)

-- ===== src/Engine/Ungated.antt =====
-- Without the type gate (prismpath/engine.py, `run`) no output of a worker stops a run.
use prismpath.Base.{
  ℕ, zero, suc, Option, none, some, Bool, true, false, if◌then◌else◌, List, [], ◌∷◌, ◌≡◌, ◌≢◌,
}
use prismpath.Base.Text.{Text}
use prismpath.Base.Dict.{Dict}
use prismpath.Graph.{Node, Graph, Edge, is_terminal}
use prismpath.Predicates.Value.{Value}
use prismpath.Engine.State.{terminal, contract_violation}
use prismpath.Engine.Turn.{
  Env, Config, Loop, Turn, again, stops, fails, Reply, text, fields, raised, error_turn, route_turn,
  suspend_turn, outcome_turn, node_turn, turn, at_node, normalize_fields, normalize_text, handle,
  choose, Decision, keep_outcome, reply_turn, asks_human, ask, wants_wait, wait, visit, checkpoint,
  count_error, stop,
}
use prismpath.Engine.Run.{
  on_turn, Options, Outcome, returned, loop, run, config, with_bound, bound_of, first_loop,
}

-- The turn does not stop the run for a violated contract.
abbrev Unrefused : Turn → Type 0
Unrefused (stops res saved) = res.stopped ≢ contract_violation
Unrefused _ = Unit

abbrev pub EndsUnrefused : Outcome → Type 0
EndsUnrefused (returned res saved) = res.stopped ≢ contract_violation
EndsUnrefused _ = Unit

pick-Unrefused :
    (b : Bool) (t u : Turn) → Unrefused t → Unrefused u → Unrefused (if b then t else u)
pick-Unrefused true t u h k = h
pick-Unrefused false t u h k = k

module _ {Score : Type 0} (env : Env Score) (cfg : Config Score)
    (open_gate : cfg.type_gate ≡ false) where
  handle-Unrefused :
      (kind message : Text) (l : Loop) (found : Option Text)
      → Unrefused (handle env cfg kind message l found)
  handle-Unrefused kind message l none = tt
  handle-Unrefused kind message l (some t) = tt

  choose-Unrefused :
      (said : Text) (l : Loop) (found : Option Edge) (sem : List Edge) (d : Decision Score)
      (doubt : Bool)
      → Unrefused (choose env cfg said l found sem d doubt)
  choose-Unrefused said l (some (t, c)) sem d doubt = tt
  choose-Unrefused said l none [] d doubt = λ q. cc
  choose-Unrefused said l none (e ∷ es) d true = λ q. cc
  choose-Unrefused said l none (e ∷ es) d false = tt

  suspend_turn-Unrefused :
      (n : Node) (said : Text) (given : Dict Value) (l : Loop)
      → Unrefused (suspend_turn env cfg n said given l)
  unfolding suspend_turn route_turn
  suspend_turn-Unrefused n said given l =
      pick-Unrefused (asks_human env cfg given) (ask env cfg n said given l) _ (λ q. cc)
        (pick-Unrefused (wants_wait env cfg given) (wait env cfg n given l) _ (λ q. cc)
          (choose-Unrefused said l _ _ _ _))

  outcome_turn-Unrefused :
      (n : Node) (said : Text) (given : Dict Value) (l : Loop)
      → Unrefused (outcome_turn env cfg n (said, given) l)
  unfolding outcome_turn
  outcome_turn-Unrefused n said given l =
      rw open_gate (suspend_turn-Unrefused n said given (keep_outcome env cfg said given l))

  reply_turn-Unrefused : (n : Node) (l : Loop) (r : Reply) → Unrefused (reply_turn env cfg n l r)
  unfolding reply_turn normalize_text normalize_fields error_turn
  reply_turn-Unrefused n l (text t) = outcome_turn-Unrefused n _ _ l
  reply_turn-Unrefused n l (fields d) = outcome_turn-Unrefused n _ _ l
  reply_turn-Unrefused n l (raised kind message) =
      handle-Unrefused kind message (count_error env cfg l) _

  node_turn-Unrefused : (n : Node) (l : Loop) → Unrefused (node_turn env cfg n l)
  unfolding node_turn
  node_turn-Unrefused n l =
      pick-Unrefused (is_terminal n.edges) (stop terminal none none l) _ (λ q. cc)
        (reply_turn-Unrefused n (visit env cfg (checkpoint (some l.node) l)) _)

  at_node-Unrefused : (l : Loop) (o : Option Node) → Unrefused (at_node env cfg l o)
  unfolding at_node
  at_node-Unrefused l none = tt
  at_node-Unrefused l (some n) = node_turn-Unrefused n l

  after_turn-EndsUnrefused :
      (next : Loop → Outcome) (t : Turn)
      → Unrefused t
      → ((l : Loop) → EndsUnrefused (next l))
      → EndsUnrefused (on_turn next t)
  after_turn-EndsUnrefused next (again l) h k = k l
  after_turn-EndsUnrefused next (stops res saved) h k = h
  after_turn-EndsUnrefused next (fails f saved) h k = tt

  loop-EndsUnrefused :
      (graph : Graph) (rounds : ℕ) (l : Loop) → EndsUnrefused (loop env cfg graph rounds l)
  unfolding loop turn
  loop-EndsUnrefused graph zero l = λ q. cc
  loop-EndsUnrefused graph (suc rounds) l =
      after_turn-EndsUnrefused _ (turn env cfg graph l) (at_node-Unrefused l _)
        (λ l'. loop-EndsUnrefused graph rounds l')

-- A run without the gate does not stop for a violated contract.
pub run-EndsUnrefused :
    {Score : Type 0} (env : Env Score) (o : Options Score) (graph : Graph)
    → o.type_gate ≡ false
    → EndsUnrefused (run env o graph)
unfolding run config
run-EndsUnrefused env o graph open_gate = at (bound_of o graph)
  where
    at : (b : Option (Option ℕ)) → EndsUnrefused (with_bound env o graph b)
    at none = tt
    at (some bound) =
        loop-EndsUnrefused env (config env o graph bound) open_gate graph o.max_steps
          (first_loop o graph bound)

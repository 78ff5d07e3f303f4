-- ===== src/Engine/Window.antt =====
-- The window on the histories (prismpath/engine.py, `_bound_list` and the comment in `run`): it cannot
-- change a routing decision.
use prismpath.Base.{
  ℕ, zero, suc, Option, none, some, Bool, true, false, not, ◌&&◌, if◌then◌else◌, List, [], ◌∷◌,
  ◌++◌, is_nil, ◌≡◌, refl, sym, ap, ◌∙◌, arith,
}
use prismpath.Base.Text.{Text}
use prismpath.Base.Dict.{Dict, lookup, insert}
use prismpath.Graph.{Node, Graph, Edge, is_terminal}
use prismpath.Predicates.Value.{Value}
use prismpath.Engine.State.{
  State, Entry, RunResult, StepLog, over, count_over, count_drop, bound_transcript, log_entry,
  window, EntryKind, terminal, max_steps,
}
use prismpath.Engine.Turn.{
  Env, Config, Loop, Turn, again, stops, fails, Reply, text, fields, raised, Decision, error_turn,
  route_turn, suspend_turn, outcome_turn, reply_turn, node_turn, at_node, turn, handle, choose,
  keep_outcome, count_error, stop, checkpoint, visit, asks_human, wants_wait, wait, refuse,
  gate_findings, normalize_text, normalize_fields, move, error_step, result_of, error_entry,
}
use prismpath.Engine.Run.{
  Outcome, returned, failed, bad_state_bound, on_turn, loop, run, Options, first_loop, config,
  start_state, start_node, given_state,
}

-- A state without its transcript and its record of what was dropped.
abbrev pub core : State → State
core s = record s { transcript = []; dropped = [] }

abbrev erase : Loop → Loop
erase l = record l { state = core l.state; saved = [] }

abbrev pub erase_result : RunResult → RunResult
erase_result res = record res { state = core res.state }

abbrev erase_turn : Turn → Turn
erase_turn (again l) = again (erase l)
erase_turn (stops res saved) = stops (erase_result res) []
erase_turn (fails f saved) = fails f []

-- The loop or the result that a turn holds.
abbrev loop_of : Loop → Turn → Loop
loop_of l (again l') = l'
loop_of l _ = l

abbrev result_in : RunResult → Turn → RunResult
result_in res (stops res' saved) = res'
result_in res _ = res

-- What a run shows once the histories are taken away.
abbrev pub erase_outcome : Outcome → Outcome
erase_outcome (returned res saved) = returned (erase_result res) []
erase_outcome (failed f saved) = failed f []
erase_outcome bad_state_bound = bad_state_bound

core-count_over :
    (key : Text) (keep : Option ℕ) (n : ℕ) (s : State) → core (count_over key keep n s) ≡ core s
unfolding count_drop
core-count_over key keep n s = go (over keep n)
  where
    go : (o : Option ℕ) → core (elim o [ none ↦ s | some k ↦ count_drop key k s ]) ≡ core s
    go none = refl
    go (some k) = refl

core-bound_transcript : (keep : Option ℕ) (s : State) → core (bound_transcript keep s) ≡ core s
unfolding bound_transcript
core-bound_transcript keep s = core-count_over _ keep _ s

core-log_entry : (keep : Option ℕ) (e : Entry) (s : State) → core (log_entry keep e s) ≡ core s
unfolding log_entry
core-log_entry keep e s = core-bound_transcript keep _

-- The agent does not read the transcript or the record of what was dropped.
abbrev pub IgnoresHistory : {Score : Type 0} → Env Score → Type 0
IgnoresHistory env =
    (x instruction : Text) (s : State)
    → env.agent x instruction s ≡ env.agent x instruction (core s)

abbrev pub at_bound : {Score : Type 0} → Config Score → Option ℕ → Config Score
at_bound cfg b = record cfg { bound = b }

module _ {Score : Type 0} (env : Env Score) (cfg : Config Score) (b : Option ℕ) where
  abbrev windowed : Config Score
  windowed = at_bound cfg b

  abbrev plain : Config Score
  plain = at_bound cfg none

  -- The two log an entry alike, apart from the histories.
  core-logged : (e : Entry) (s : State) → core (log_entry b e s) ≡ core (log_entry none e (core s))
  core-logged e s = core-log_entry b e s ∙ sym (core-log_entry none e (core s))

  handle-erase :
      (kind message : Text) (l : Loop) (found : Option Text)
      → erase_turn (handle env windowed kind message l found)
        ≡ erase_turn (handle env plain kind message (erase l) found)
  handle-erase kind message l none = refl
  handle-erase kind message l (some t) = λ i. again (
      move (error_step env plain kind message l t) (record l {
        state = core-logged (error_entry env plain kind message l) l.state i;
        saved = [];
      }))

  choose-erase :
      (said : Text) (l : Loop) (found : Option Edge) (sem : List Edge) (d : Decision Score)
      (doubt : Bool)
      → erase_turn (choose env windowed said l found sem d doubt)
        ≡ erase_turn (choose env plain said (erase l) found sem d doubt)
  choose-erase said l (some (t, c)) sem d doubt = refl
  choose-erase said l none [] d doubt = refl
  choose-erase said l none (e ∷ es) d true = refl
  choose-erase said l none (e ∷ es) d false = refl

  route_turn-erase :
      (n : Node) (said : Text) (given : Dict Value) (l : Loop)
      → erase_turn (route_turn env windowed n said given l)
        ≡ erase_turn (route_turn env plain n said given (erase l))
  unfolding route_turn
  route_turn-erase n said given l = choose-erase said l _ _ _ _

  pick-erase :
      (c : Bool) (t t' u u' : Turn)
      → erase_turn t ≡ erase_turn t'
      → erase_turn u ≡ erase_turn u'
      → erase_turn (if c then t else u) ≡ erase_turn (if c then t' else u')
  pick-erase true t t' u u' p q = p
  pick-erase false t t' u u' p q = q

  error_turn-erase :
      (n : Node) (kind message : Text) (l : Loop)
      → erase_turn (error_turn env windowed n kind message l)
        ≡ erase_turn (error_turn env plain n kind message (erase l))
  unfolding error_turn
  error_turn-erase n kind message l = handle-erase kind message (count_error env windowed l) _

  suspend_turn-erase :
      (n : Node) (said : Text) (given : Dict Value) (l : Loop)
      → erase_turn (suspend_turn env windowed n said given l)
        ≡ erase_turn (suspend_turn env plain n said given (erase l))
  unfolding suspend_turn
  suspend_turn-erase n said given l = pick-erase (asks_human env windowed given) _ _ _ _ refl (
      pick-erase (wants_wait env windowed given) (wait env windowed n given l)
        (wait env plain n given (erase l)) _ _ refl (route_turn-erase n said given l))

module _ {Score : Type 0} (env : Env Score) (cfg : Config Score) where
  -- Loops that agree apart from the histories turn alike under any two windows, where each turns like
  -- the erased loop under none.
  any_window :
      (F : Config Score → Loop → Turn)
      → ((b : Option ℕ) (l : Loop)
          → erase_turn (F (at_bound cfg b) l) ≡ erase_turn (F (at_bound cfg none) (erase l)))
      → (b c : Option ℕ) (l l' : Loop) → erase l ≡ erase l'
      → erase_turn (F (at_bound cfg b) l) ≡ erase_turn (F (at_bound cfg c) l')
  any_window F h b c l l' e =
      h b l ∙ (ap (λ k. erase_turn (F (at_bound cfg none) k)) e ∙ sym (h c l'))

  -- An outcome kept in an erased loop.
  abbrev keep_in : Dict Value → Loop → Loop
  keep_in given l =
      let s = l.state in record l { state = record s { outcomes = insert l.node given s.outcomes } }

  erase-keep_outcome :
      (b : Option ℕ) (said : Text) (given : Dict Value) (l : Loop)
      → erase (keep_outcome env (at_bound cfg b) said given l) ≡ keep_in given (erase l)
  erase-keep_outcome b said given l =
      ap (λ (s : State). keep_in given (record l { state = s; saved = [] }))
        (core-log_entry b (record { node = l.node; outcome = said; kind = EntryKind.worker })
          l.state)

  outcome_turn-erase :
      (n : Node) (said : Text) (given : Dict Value) (b : Option ℕ) (l : Loop)
      → erase_turn (outcome_turn env (at_bound cfg b) n (said, given) l)
        ≡ erase_turn (outcome_turn env (at_bound cfg none) n (said, given) (erase l))
  unfolding outcome_turn
  outcome_turn-erase n said given b l =
      let kept = keep_outcome env (at_bound cfg b) said given l in
      let kept' = keep_outcome env (at_bound cfg none) said given (erase l) in
      let found = gate_findings env cfg given kept in
      let alike : erase kept ≡ erase kept' =
        erase-keep_outcome b said given l ∙ sym (erase-keep_outcome none said given (erase l)) in
      pick-erase env cfg b (cfg.type_gate && not (is_nil found)) (refuse env cfg found kept)
        (refuse env cfg found kept') (suspend_turn env (at_bound cfg b) n said given kept)
        (suspend_turn env (at_bound cfg none) n said given kept')
        (ap (λ k. erase_turn (refuse env cfg found k)) alike)
        (any_window (λ g k. suspend_turn env g n said given k)
          (λ c k. suspend_turn-erase env cfg c n said given k) b none kept kept' alike)

  reply_turn-erase :
      (n : Node) (r : Reply) (b : Option ℕ) (l : Loop)
      → erase_turn (reply_turn env (at_bound cfg b) n l r)
        ≡ erase_turn (reply_turn env (at_bound cfg none) n (erase l) r)
  unfolding reply_turn normalize_text normalize_fields
  reply_turn-erase n (text t) b l = outcome_turn-erase n _ _ b l
  reply_turn-erase n (fields d) b l = outcome_turn-erase n _ _ b l
  reply_turn-erase n (raised kind message) b l = error_turn-erase env cfg b n kind message l

  module _ (ignores : IgnoresHistory env) where
    node_turn-erase :
        (n : Node) (b : Option ℕ) (l : Loop)
        → erase_turn (node_turn env (at_bound cfg b) n l)
          ≡ erase_turn (node_turn env (at_bound cfg none) n (erase l))
    unfolding node_turn
    node_turn-erase n b l =
        let v = visit env cfg (checkpoint (some l.node) l) in
        let v' = visit env cfg (checkpoint (some l.node) (erase l)) in
        pick-erase env cfg b (is_terminal n.edges) (stop terminal none none l)
          (stop terminal none none (erase l))
          (reply_turn env (at_bound cfg b) n v (env.agent l.node n.instruction v.state))
          (reply_turn env (at_bound cfg none) n v' (env.agent l.node n.instruction v'.state)) refl
          (ap (λ r. erase_turn (reply_turn env (at_bound cfg b) n v r))
              (ignores l.node n.instruction v.state)
            ∙ any_window (λ g k. reply_turn env g n k (env.agent l.node n.instruction v'.state))
                (λ c k. reply_turn-erase n _ c k) b none v v' refl)

    turn-erase :
        (graph : Graph) (b : Option ℕ) (l : Loop)
        → erase_turn (turn env (at_bound cfg b) graph l)
          ≡ erase_turn (turn env (at_bound cfg none) graph (erase l))
    unfolding turn
    turn-erase graph b l = go (lookup l.node graph.nodes)
      where
        go :
            (o : Option Node)
            → erase_turn (at_node env (at_bound cfg b) l o)
              ≡ erase_turn (at_node env (at_bound cfg none) (erase l) o)
        go none = refl
        go (some n) = node_turn-erase n b l

    erase-on_turn :
        (f g : Loop → Outcome) (t u : Turn)
        → ((l l' : Loop) → erase l ≡ erase l' → erase_outcome (f l) ≡ erase_outcome (g l'))
        → erase_turn t ≡ erase_turn u
        → erase_outcome (on_turn f t) ≡ erase_outcome (on_turn g u)
    erase-on_turn f g (again l) (again l') h e = h l l' (ap (loop_of l) e)
    erase-on_turn f g (stops res saved) (stops res' saved') h e =
        ap (λ t. returned (result_in (erase_result res) t) []) e
    erase-on_turn f g (fails x saved) (fails x' saved') h e = cc
    erase-on_turn f g _ _ h e = cc

    loop-window :
        (graph : Graph) (b c : Option ℕ) (rounds : ℕ) (l l' : Loop)
        → erase l ≡ erase l'
        → erase_outcome (loop env (at_bound cfg b) graph rounds l)
          ≡ erase_outcome (loop env (at_bound cfg c) graph rounds l')
    unfolding loop
    loop-window graph b c zero l l' e =
        ap (λ (k : Loop). returned (result_of max_steps none k) []) e
    loop-window graph b c (suc rounds) l l' e =
        erase-on_turn (λ k. loop env (at_bound cfg b) graph rounds k)
          (λ k. loop env (at_bound cfg c) graph rounds k) _ _ (loop-window graph b c rounds)
          (any_window (λ g k. turn env g graph k) (turn-erase graph) b c l l' e)

core-start_state :
    (b : Option ℕ) (ps : List Text) (ss : List StepLog) (s : State)
    → core (start_state b ps ss s) ≡ core s
unfolding start_state
core-start_state b ps ss s =
    core-count_over _ b _ _ ∙ (core-count_over _ b _ _ ∙ core-bound_transcript b s)

window-nil {ℓ} : {A : Type ℓ} (b : Option ℕ) → window {A = A} b [] ≡ []
unfolding window
window-nil none = refl
window-nil (some zero) = refl
window-nil (some (suc k)) = ground arith

module _ {Score : Type 0} (o : Options Score) (graph : Graph) (no_path : o.seed_path ≡ [])
    (no_steps : o.seed_steps ≡ []) where
  abbrev bare_loop : State → Loop
  bare_loop s = record {
    node = start_node o graph;
    state = s;
    path = start_node o graph ∷ [];
    steps = [];
    saved = [];
  }

  first_loop-erase :
      (b : Option ℕ) → erase (first_loop o graph b) ≡ bare_loop (core (given_state o))
  unfolding first_loop
  first_loop-erase b =
      let paths : window b o.seed_path ≡ [] = ap (window b) no_path ∙ window-nil b in
      let logs : window b o.seed_steps ≡ [] = ap (window b) no_steps ∙ window-nil b in
      λ i. record {
        node = start_node o graph;
        state = core-start_state b o.seed_path o.seed_steps (given_state o) i;
        path = paths i ++ start_node o graph ∷ [];
        steps = logs i;
        saved = [];
      }

-- The window cannot change a routing decision: with an agent that reads neither the transcript nor the
-- record of what was dropped, and without a path and steps to start from, two runs under any two windows
-- (0 is none) take the same path by the same steps, stop for the same reason with the same pending
-- decision, and leave the same counters and outcomes.
pub run_window :
    {Score : Type 0} (env : Env Score) (o : Options Score) (graph : Graph) (a c : ℕ)
    → IgnoresHistory env
    → o.seed_path ≡ []
    → o.seed_steps ≡ []
    → erase_outcome (run env (record o { max_transcript = some a }) graph)
      ≡ erase_outcome (run env (record o { max_transcript = some c }) graph)
unfolding run
run_window env o graph a c ignores p q =
    loop-window env (config env o graph none) ignores graph (some a) (some c) o.max_steps _ _
      (first_loop-erase o graph p q (some a) ∙ sym (first_loop-erase o graph p q (some c)))

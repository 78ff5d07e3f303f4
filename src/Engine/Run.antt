-- ===== src/Engine/Run.antt =====
-- `run` (prismpath/engine.py): the set-up, and the loop of at most `max_steps` turns. The round limit is
-- the source's own, so the recursion on it needs no fuel.
use prismpath.Base.{
  ℕ, zero, suc, ◌+◌, Option, none, some, Bool, true, false, not, if◌then◌else◌, List, [], ◌∷◌, ◌++◌,
  length, ◌*◌, ◌-◌, leb, ◌&&◌, ◌==◌,
}
use prismpath.Base.Int.{ℤ, pos, neg}
use prismpath.Base.Text.{Text, codes, strip}
use prismpath.Base.Maybe.{◌>>=◌}
use prismpath.Base.Dict.{Dict, lookup}
use prismpath.Graph.{Node, Graph}
use prismpath.Contract.Derive.{derive_contract}
use prismpath.Engine.State.{
  State, empty_state, StepLog, max_steps, window, count_over, bound_transcript, RunResult,
}
use prismpath.Engine.Turn.{
  Env, Config, Loop, Saved, Turn, again, stops, fails, Fault, result_of, turn,
}

pub data Outcome : Type 0 where
  returned : RunResult → List Saved → Outcome
  failed : Fault → List Saved → Outcome
  bad_state_bound : Outcome

abbrev pub on_turn : (Loop → Outcome) → Turn → Outcome
on_turn next (again l) = next l
on_turn next (stops res saved) = returned res saved
on_turn next (fails f saved) = failed f saved

-- `for _ in range(max_steps): … else: res.stopped = "max_steps"`
unfoldable pub loop : {Score : Type 0} → Env Score → Config Score → Graph → ℕ → Loop → Outcome
loop env cfg graph zero l = returned (result_of max_steps none l) l.saved
loop env cfg graph (suc rounds) l =
    on_turn (λ l'. loop env cfg graph rounds l') (turn env cfg graph l)

-- `int(text)`: decimal digits behind an optional sign, with white space around them and single
-- underscores between digits. `wanted`: the next character has to be a digit. Of the decimal digits of
-- Unicode only those of ASCII are read.
abbrev digits_from : Bool → ℕ → Text → Option ℕ
digits_from wanted n [] = if wanted then none else some n
digits_from wanted n (c ∷ s) =
    let rest = digits_from false (n * 10 + (c - b'0')) s in
    let past = digits_from true n s in
    if leb b'0' c && leb c b'9' then rest else if c == b'_' && not wanted then past else none

abbrev digits : Text → Option ℕ
digits s = digits_from true 0 s

unfoldable pub int_of_text : Text → Option ℤ
int_of_text raw = elim (strip raw) [
  | [] ↦ none
  | c ∷ s ↦
      if c == b'-'
      then (digits s >>= λ n. some (neg (pos n)))
      else if c == b'+'
      then (digits s >>= λ n. some (pos n))
      else (digits (c ∷ s) >>= λ n. some (pos n))
]

-- The argument `transcript` of one `@state_bound`; `none` is a ValueError.
unfoldable pub state_bound_of : Dict (Option Text) → Option ℕ
unfolding int_of_text
state_bound_of args = elim (lookup (codes "transcript") args) [
  | some (some raw) ↦ elim (int_of_text raw) [ some (pos (suc k)) ↦ some (suc k) | _ ↦ none ]
  | _ ↦ none
]

-- `_flow_state_bound`: the outer `none` is a ValueError, the inner one means that no node is annotated.
unfoldable pub flow_state_bound : Dict Node → Option (Option ℕ)
unfolding state_bound_of
flow_state_bound [] = some none
flow_state_bound ((x, n) ∷ nodes) = elim (lookup (codes "state_bound") n.annotations) [
  | some args ↦ (state_bound_of args >>= λ keep. some (some keep))
  | none ↦ flow_state_bound nodes
]

-- The keyword arguments of `run`.
pub record Options (Score : Type 0) : Type 0 where
  pub max_steps : ℕ
  pub start : Option Text
  pub state : Option State
  pub human_floor : Option Score
  pub type_gate : Bool
  pub max_transcript : Option ℕ
  pub seed_path : List Text
  pub seed_steps : List StepLog

-- The state at the start, under the bound that is in force.
unfoldable pub start_state : Option ℕ → List Text → List StepLog → State → State
start_state bound seed_path seed_steps s =
    count_over (codes "steps") bound (length seed_steps)
      (count_over (codes "path") bound (length seed_path) (bound_transcript bound s))

abbrev pub start_node : {Score : Type 0} → Options Score → Graph → Text
start_node o graph = elim o.start [ none ↦ graph.start | some x ↦ x ]

abbrev pub given_state : {Score : Type 0} → Options Score → State
given_state o = elim o.state [ none ↦ empty_state | some s ↦ s ]

unfoldable pub first_loop : {Score : Type 0} → Options Score → Graph → Option ℕ → Loop
unfolding start_state
first_loop o graph bound = record {
  node = start_node o graph;
  state = start_state bound o.seed_path o.seed_steps (given_state o);
  path = window bound o.seed_path ++ start_node o graph ∷ [];
  steps = window bound o.seed_steps;
  saved = [];
}

unfoldable pub config :
    {Score : Type 0} → Env Score → Options Score → Graph → Option ℕ → Config Score
config env o graph bound = record {
  bound = bound;
  human_floor = o.human_floor;
  type_gate = o.type_gate;
  contracts = if o.type_gate then derive_contract env.ast_parse graph else [];
}

-- The kwarg, else what the flow declares.
unfoldable pub bound_of : {Score : Type 0} → Options Score → Graph → Option (Option ℕ)
unfolding flow_state_bound
bound_of o graph = elim o.max_transcript [
  | some keep ↦ some (some keep)
  | none ↦ flow_state_bound graph.nodes
]

abbrev pub with_bound :
    {Score : Type 0} → Env Score → Options Score → Graph → Option (Option ℕ) → Outcome
with_bound env o graph none = bad_state_bound
with_bound env o graph (some bound) =
    loop env (config env o graph bound) graph o.max_steps (first_loop o graph bound)

unfoldable pub run : {Score : Type 0} → Env Score → Options Score → Graph → Outcome
unfolding first_loop config loop bound_of
run env o graph = with_bound env o graph (bound_of o graph)

-- ===== src/Checkpoint/Durable.antt =====
-- `_atomic_write` and `run_durable` (prismpath/checkpoint.py). Whether `json.dumps` succeeds is the
-- parameter `dumps`; what the operating system does with a file is `apply`.
pub mod Atomic
pub mod Saves
use prismpath.Base.{
  ℕ, Option, none, some, Bool, true, false, if◌then◌else◌, List, [], ◌∷◌, ◌++◌, map,
}
use prismpath.Base.Text.{Text, codes, text_eq}
use prismpath.Base.Dict.{Dict, lookup, lookup_or, insert}
use prismpath.Graph.{Graph}
use prismpath.Engine.State.{State, RunResult}
use prismpath.Engine.Turn.{Env, Saved}
use prismpath.Engine.Run.{Options, Outcome, returned, failed, bad_state_bound, run}
use prismpath.Checkpoint.{Snapshot, snapshot}

-- The calls of `_atomic_write` on files: what is flushed is written piece by piece.
pub data FileCall : Type 0 where
  open_w fsync : Text → FileCall
  write : Text → Text → FileCall
  replace : Text → Text → FileCall

abbrev pub remove : Text → Dict Text → Dict Text
remove x [] = []
remove x ((y, t) ∷ d) = if text_eq y x then remove x d else (y, t) ∷ remove x d

abbrev pub put : Text → Option Text → Dict Text → Dict Text
put x none d = d
put x (some t) d = insert x t d

-- The files after a call.
unfoldable pub apply : FileCall → Dict Text → Dict Text
apply (open_w x) d = insert x [] d
apply (fsync x) d = d
apply (write x t) d = insert x (lookup_or [] x d ++ t) d
apply (replace x y) d = put y (lookup x d) (remove x d)

unfoldable pub apply_all : List FileCall → Dict Text → Dict Text
unfolding apply
apply_all [] d = d
apply_all (c ∷ cs) d = apply_all cs (apply c d)

abbrev pub tmp_of : Text → Text
tmp_of x = x ++ codes ".tmp"

abbrev pub writes : Text → List Text → List FileCall
writes x [] = []
writes x (t ∷ ts) = write x t ∷ writes x ts

abbrev pub joined : List Text → Text
joined [] = []
joined (t ∷ ts) = t ++ joined ts

-- `_atomic_write`
unfoldable pub atomic_write : Text → List Text → List FileCall
atomic_write x pieces =
    open_w (tmp_of x) ∷ (writes (tmp_of x) pieces ++ fsync (tmp_of x) ∷ replace (tmp_of x) x ∷ [])

-- The sidecar, and `disabled["v"]`.
pub record Sidecar : Type 0 where
  pub file : Option Snapshot
  pub disabled : Bool

module _ (flow_path flow_hash : Text) (dumps : Snapshot → Bool) (type_gate : Bool) where
  abbrev pub saved_snapshot : Saved → Snapshot
  saved_snapshot s = snapshot flow_path flow_hash s.result s.pending_node type_gate

  -- `on_step` of `run_durable`.
  unfoldable pub on_step : Saved → Sidecar → Sidecar
  on_step s side =
      if side.disabled
      then side
      else if dumps (saved_snapshot s)
      then record { file = some (saved_snapshot s); disabled = false }
      else record { file = side.file; disabled = true }

  -- The calls of `on_step`, of which the latest is the first.
  unfoldable pub keep_all : List Saved → Sidecar → Sidecar
  unfolding on_step
  keep_all [] side = side
  keep_all (s ∷ earlier) side = on_step s (keep_all earlier side)

-- The calls of `on_step` in a run.
abbrev pub saved_of : Outcome → List Saved
saved_of (returned res saved) = saved
saved_of (failed f saved) = saved
saved_of bad_state_bound = []

-- `run_durable` on a graph that is parsed, from the sidecar as it is: the outcome, and the sidecar after.
unfoldable pub run_durable :
    {Score : Type 0}
    → Env Score
    → Options Score
    → Graph
    → Text
    → Text
    → (Snapshot → Bool)
    → Option Snapshot
    → Outcome × Sidecar
unfolding keep_all
run_durable env o graph flow_path flow_hash dumps old =
    let outcome = run env o graph in
    (
      outcome,
      keep_all flow_path flow_hash dumps o.type_gate (saved_of outcome)
          (record { file = old; disabled = false }),
    )

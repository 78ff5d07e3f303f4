-- ===== src/Checkpoint/Durable/Saves.antt =====
-- What the calls of `on_step` (prismpath/engine.py, `checkpoint` in `run`) leave in the sidecar of a run
-- (prismpath/checkpoint.py, `run_durable`).
use prismpath.Base.{Option, some, Bool, true, false, List, ◌∷◌, All, ◌≡◌, ◌⊎◌}
use prismpath.Base.Text.{Text}
use prismpath.Base.Dict.{Dict}
use prismpath.Graph.{Graph}
use prismpath.Predicates.Value.{Value}
use prismpath.Engine.State.{RunResult, unset, max_steps}
use prismpath.Engine.Turn.{Saved, Turn, again, stops, fails}
use prismpath.Engine.Run.{Outcome, returned, failed, bad_state_bound}
use prismpath.Checkpoint.{Snapshot, snapshot}
use prismpath.Checkpoint.Durable.{Sidecar, keep_all}

-- Saved on the way: the run had not stopped.
abbrev pub OnTheWay : List Saved → Type 0
OnTheWay = All (λ s. s.result.stopped ≡ unset)

-- The last call saves the result itself.
abbrev pub LastSaved : RunResult → List Saved → Type 0
LastSaved res saved =
    (node : Option Text) × (earlier : List Saved) × (saved
      ≡ record { result = res; pending_node = node } ∷ earlier)
    × OnTheWay earlier

abbrev TurnSaves : Turn → Type 0
TurnSaves (again l) = OnTheWay l.saved
TurnSaves (stops res saved) = LastSaved res saved
TurnSaves (fails f saved) = OnTheWay saved

-- What a run leaves behind: the last call saves its result; but a run that is cut off by `max_steps`, or
-- by an exception, has saved what stood on the way, and no more.
abbrev pub OutcomeSaves : Outcome → Type 0
OutcomeSaves (returned res saved) =
    ((res.stopped ≡ max_steps) × OnTheWay saved) ⊎ LastSaved res saved
OutcomeSaves (failed f saved) = OnTheWay saved
OutcomeSaves bad_state_bound = Unit

-- The sidecar is as it was, or a snapshot of a run that had not stopped.
abbrev pub StillOnTheWay : Option Snapshot → Option Snapshot → Type 0
StillOnTheWay old file = (file ≡ old) ⊎ ((cp : Snapshot) × (file ≡ some cp) × (cp.stopped ≡ unset))

-- The sidecar after a run with this outcome.
abbrev pub FileSaves : Text → Text → Bool → Option Snapshot → Option Snapshot → Outcome → Type 0
FileSaves flow_path flow_hash gate old file (returned res saved) =
    ((res.stopped ≡ max_steps) × StillOnTheWay old file)
    ⊎ ((node : Option Text) × (file ≡ some (snapshot flow_path flow_hash res node gate)))
FileSaves flow_path flow_hash gate old file (failed f saved) = StillOnTheWay old file
FileSaves flow_path flow_hash gate old file bad_state_bound = file ≡ old

module _ (flow_path flow_hash : Text) (gate : Bool) (old : Option Snapshot) where
  abbrev kept : List Saved → Sidecar
  kept saved =
      keep_all flow_path flow_hash (λ cp. true) gate saved (record { file = old; disabled = false })

-- ===== src/Engine/State.antt =====
-- The state of a run (prismpath/engine.py): the `state` dict with one field for each of its keys,
-- `StepLog`, `RunResult`, and the window on growing histories.
use prismpath.Base.{
  ℕ, zero, suc, ◌+◌, ◌-◌, Option, none, some, if◌then◌else◌, List, [], ◌∷◌, ◌++◌, length, drop, ltb,
}
use prismpath.Base.Text.{Text, codes}
use prismpath.Base.Dict.{Dict, lookup_or, insert}
use prismpath.Graph.{Edge}
use prismpath.Predicates.Value.{Value}
use prismpath.Contract.Gate.{Violation}

-- One entry of `state["transcript"]`; `kind` tells the extra key that it carries.
pub data EntryKind : Type 0 where
  worker error human event : EntryKind

pub record Entry : Type 0 where
  pub node : Text
  pub outcome : Text
  pub kind : EntryKind

-- `extra` holds the keys that a caller has put in and the engine does not name.
pub record State : Type 0 where
  pub transcript : List Entry
  pub visits : Dict ℕ
  pub errors : Dict ℕ
  pub outcomes : Dict (Dict Value)
  pub dropped : Dict ℕ
  pub extra : Dict Value

abbrev pub empty_state : State
empty_state = record {
  transcript = [];
  visits = [];
  errors = [];
  outcomes = [];
  dropped = [];
  extra = [];
}

-- How a step was decided: the key `used` of its `info`.
pub data Used : Type 0 where
  by_predicate : Text → Used
  by_error : Text → Used
  by_router by_human by_event unrecorded : Used

pub record StepLog : Type 0 where
  pub node : Text
  pub outcome : Text
  pub target : Text
  pub used : Used

pub data Stopped : Type 0 where
  unset terminal stuck needs_human waiting max_steps contract_violation : Stopped

-- The decision that a suspended run waits for.
pub data Pending : Type 0 where
  violated : Text → List Violation → Pending
  asked : Text → Value → List Edge → Pending
  awaiting : Text → List Text → Option Value → List Edge → Option Value → Pending
  doubtful : Text → Text → List Edge → Pending

pub record RunResult : Type 0 where
  pub path : List Text
  pub steps : List StepLog
  pub stopped : Stopped
  pub state : State
  pub pending : Option Pending

-- `_count_drop`
unfoldable pub count_drop : Text → ℕ → State → State
count_drop key n s = record s { dropped = insert key (lookup_or 0 key s.dropped + n) s.dropped }

-- `not keep` holds of None and of 0.
abbrev pub over : Option ℕ → ℕ → Option ℕ
over none n = none
over (some zero) n = none
over (some (suc k)) n = if ltb (suc k) n then some (n - suc k) else none

-- `seq[-keep:]` where the sequence is longer than `keep`.
unfoldable pub window {ℓ} : {A : Type ℓ} → Option ℕ → List A → List A
window keep xs = elim (over keep (length xs)) [ none ↦ xs | some n ↦ drop n xs ]

abbrev pub count_over : Text → Option ℕ → ℕ → State → State
count_over key keep n s = elim (over keep n) [ none ↦ s | some k ↦ count_drop key k s ]

-- `_bound_list(state, "transcript", keep)`
unfoldable pub bound_transcript : Option ℕ → State → State
bound_transcript keep s =
    let s' = count_over (codes "transcript") keep (length s.transcript) s in
    record s' { transcript = window keep s.transcript }

-- An entry appended to the transcript, and the window moved.
unfoldable pub log_entry : Option ℕ → Entry → State → State
unfolding bound_transcript
log_entry keep e s = bound_transcript keep (record s { transcript = s.transcript ++ e ∷ [] })

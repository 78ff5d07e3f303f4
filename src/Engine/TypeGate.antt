-- ===== src/Engine/TypeGate.antt =====
-- What the type gate of the engine (prismpath/engine.py, `run`) lets through.
use prismpath.Base.{
  ℕ, zero, suc, some, Bool, true, false, ◌&&◌, not, if◌then◌else◌, List, [], ◌∷◌, ◌++◌, get_elem?,
  is_nil, append-eq-nil, ◌≡◌, refl, sym, ap, ◌∙◌, Bool-cases, inl, inr,
}
use prismpath.Base.Text.{Text}
use prismpath.Base.Dict.{Dict, lookup, lookup_or}
use prismpath.Predicates.Value.{Value}
use prismpath.Graph.{Node}
use prismpath.Contract.Spec.{Spec}
use prismpath.Contract.Gate.{Violation, type, py_type_ok, field_violations, validate_output}
use prismpath.Engine.Turn.{
  Env, Config, Loop, Turn, again, is_type_violation, type_violations, keep_outcome, gate_findings,
  refuse, suspend_turn, outcome_turn,
}

type_violations-append :
    (vs ws : List Violation) → type_violations (vs ++ ws) ≡ type_violations vs ++ type_violations ws
type_violations-append [] ws = refl
type_violations-append (v ∷ vs) ws = elim (Bool-cases (is_type_violation v)) [
  | inl t ↦ rw (t, type_violations-append vs ws)
  | inr t ↦ rw (t, type_violations-append vs ws)
]

flagged :
    (field : Text) (ok : Bool) (notes : List Violation)
    → type_violations (if ok then notes else type field ∷ []) ≡ []
    → ok ≡ true
flagged field true notes h = refl
flagged field false notes h = cc

-- A value of the wrong type is a type violation.
mistyped :
    (field : Text) (spec : Spec) (v : Value)
    → type_violations (field_violations field spec (some v)) ≡ []
    → py_type_ok spec.type v ≡ true
mistyped field spec v h = flagged field (py_type_ok spec.type v) _ h

same_entry : {x y : Text × Spec} → some x ≡ some y → x ≡ y
same_entry e = cc

split_gate :
    (f : Text) (s : Spec) (contract : Dict Spec) (given : Dict Value)
    → type_violations (validate_output ((f, s) ∷ contract) given) ≡ []
    → (type_violations (field_violations f s (lookup f given)) ≡ [])
      × (type_violations (validate_output contract given) ≡ [])
unfolding validate_output
split_gate f s contract given h =
    append-eq-nil (type_violations (field_violations f s (lookup f given)))
      (type_violations (validate_output contract given))
      (sym (
          type_violations-append (field_violations f s (lookup f given))
            (validate_output contract given))
        ∙ h)

-- An output without type violations has the contract's types.
validate_output-py_type_ok :
    (contract : Dict Spec) (given : Dict Value)
    → type_violations (validate_output contract given) ≡ []
    → (i : ℕ) (field : Text) (spec : Spec) → get_elem? contract i ≡ some (field, spec)
    → (v : Value) → lookup field given ≡ some v
    → py_type_ok spec.type v ≡ true
unfolding validate_output
validate_output-py_type_ok [] given h i field spec e v found = cc
validate_output-py_type_ok ((f, s) ∷ contract) given h zero field spec e v found =
    mistyped field spec v (
      ap (λ o. type_violations (field_violations field spec o)) (sym found)
      ∙ ap
          (λ (entry : Text × Spec).
            type_violations (field_violations entry.0 entry.1 (lookup entry.0 given)))
          (sym (same_entry e))
      ∙ (split_gate f s contract given h).0)
validate_output-py_type_ok ((f, s) ∷ contract) given h (suc i) field spec e v found =
    validate_output-py_type_ok contract given (split_gate f s contract given h).1 i field spec e v
      found

is_nil-eq-nil : (vs : List Violation) → is_nil vs ≡ true → vs ≡ []
is_nil-eq-nil [] e = refl
is_nil-eq-nil (v ∷ vs) e = cc

module _ {Score : Type 0} (env : Env Score) (cfg : Config Score) where
  refused-again :
      (found : List Violation) (l l' : Loop) (rest : Turn)
      → cfg.type_gate ≡ true
      → (if cfg.type_gate && not (is_nil found) then refuse env cfg found l else rest) ≡ again l'
      → found ≡ []
  refused-again [] l l' rest on e = refl
  refused-again (v ∷ vs) l l' rest on e = gated cfg.type_gate on e
    where
      gated :
          (g : Bool)
          → g ≡ true
          → (if g && true then refuse env cfg (v ∷ vs) l else rest) ≡ again l'
          → (v ∷ vs) ≡ []
      gated true on' goes = cc
      gated false on' goes = cc

  -- With the type gate on, a turn that goes on after a worker has answered has let through no value of a wrong
  -- type: each field of the node's contract that the worker emitted has a value of the contract's type.
  pub outcome_turn-py_type_ok :
      (n : Node) (said : Text) (given : Dict Value) (l l' : Loop)
      → cfg.type_gate ≡ true
      → outcome_turn env cfg n (said, given) l ≡ again l'
      → (i : ℕ) (field : Text) (spec : Spec)
      → get_elem? (lookup_or [] l.node cfg.contracts) i ≡ some (field, spec)
      → (v : Value) → lookup field given ≡ some v
      → py_type_ok spec.type v ≡ true
  unfolding outcome_turn
  outcome_turn-py_type_ok n said given l l' on goes i field spec e v found =
      validate_output-py_type_ok (lookup_or [] l.node cfg.contracts) given
        (refused-again (gate_findings env cfg given (keep_outcome env cfg said given l))
          (keep_outcome env cfg said given l) l'
          (suspend_turn env cfg n said given (keep_outcome env cfg said given l)) on goes)
        i field spec e v found

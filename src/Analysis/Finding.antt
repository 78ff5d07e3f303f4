-- ===== src/Analysis/Finding.antt =====
-- The findings of the analysis (prismpath/analysis.py, `Finding`), and their order.
use prismpath.Base.{Option, none, some, Bool, true, false, if◌then◌else◌, List, [], ◌∷◌}
use prismpath.Base.Text.{Text, codes, text_compare}
use prismpath.Predicates.Condition.{Problem}
use Prim.Native.Nat.{Ordering}

pub data Severity : Type 0 where
  error warning : Severity

pub data Code : Type 0 where
  undefined_start undefined_target unsafe_predicate unreachable_node no_terminal possible_stuck :
      Code
  shadowed_edge shadowed_event_edge shadowed_error_edge unbounded_cycle always_false_edge : Code
  duplicate_condition undeclared_field emits_type_mismatch upstream_type_mismatch : Code
  field_only_violation spawn_no_child spawn_no_join_edge spawn_missing_child : Code
  spawn_child_unparseable spawn_child_no_terminal spawn_expect_unmet : Code
  spawn_expect_type_mismatch not_portable_edge : Code

-- What a message quotes: texts, or the problem of a predicate.
pub data Detail : Type 0 where
  quotes : List Text → Detail
  problem : Problem → Detail

pub record Finding : Type 0 where
  pub severity : Severity
  pub code : Code
  pub node : Option Text
  pub detail : Detail

abbrev pub warn : Code → Text → List Text → Finding
warn code x quoted = record {
  severity = warning;
  code = code;
  node = some x;
  detail = quotes quoted;
}

abbrev pub fail : Code → Text → List Text → Finding
fail code x quoted = record { severity = error; code = code; node = some x; detail = quotes quoted }

unfoldable pub code_text : Code → Text
code_text undefined_start = codes "undefined-start"
code_text undefined_target = codes "undefined-target"
code_text unsafe_predicate = codes "unsafe-predicate"
code_text unreachable_node = codes "unreachable-node"
code_text no_terminal = codes "no-terminal"
code_text possible_stuck = codes "possible-stuck"
code_text shadowed_edge = codes "shadowed-edge"
code_text shadowed_event_edge = codes "shadowed-event-edge"
code_text shadowed_error_edge = codes "shadowed-error-edge"
code_text unbounded_cycle = codes "unbounded-cycle"
code_text always_false_edge = codes "always-false-edge"
code_text duplicate_condition = codes "duplicate-condition"
code_text undeclared_field = codes "undeclared-field"
code_text emits_type_mismatch = codes "emits-type-mismatch"
code_text upstream_type_mismatch = codes "upstream-type-mismatch"
code_text field_only_violation = codes "field-only-violation"
code_text spawn_no_child = codes "spawn-no-child"
code_text spawn_no_join_edge = codes "spawn-no-join-edge"
code_text spawn_missing_child = codes "spawn-missing-child"
code_text spawn_child_unparseable = codes "spawn-child-unparseable"
code_text spawn_child_no_terminal = codes "spawn-child-no-terminal"
code_text spawn_expect_unmet = codes "spawn-expect-unmet"
code_text spawn_expect_type_mismatch = codes "spawn-expect-type-mismatch"
code_text not_portable_edge = codes "not-portable-edge"

abbrev pub or_empty : Option Text → Text
or_empty none = []
or_empty (some x) = x

abbrev pub text_le : Text → Text → Bool
text_le s t = elim (text_compare s t) [ Ordering.gt ↦ false | _ ↦ true ]

-- `(code, node or "")` of two findings of the same severity, in order.
unfoldable pub rest_le : Finding → Finding → Bool
unfolding code_text
rest_le f g = elim (text_compare (code_text f.code) (code_text g.code)) [
  | Ordering.lt ↦ true
  | Ordering.eq ↦ text_le (or_empty f.node) (or_empty g.node)
  | Ordering.gt ↦ false
]

abbrev pub severity_le : Severity → Severity → Bool → Bool
severity_le error error b = b
severity_le error warning b = true
severity_le warning error b = false
severity_le warning warning b = b

-- The key of the sort, `(f.severity != "error", f.code, f.node or "")`, in order.
unfoldable pub key_le : Finding → Finding → Bool
unfolding rest_le
key_le f g = severity_le f.severity g.severity (rest_le f g)

-- `findings.sort`, which is stable: a finding goes in front of those that it equals.
unfoldable pub insert_finding : Finding → List Finding → List Finding
unfolding key_le
insert_finding f [] = f ∷ []
insert_finding f (g ∷ gs) = if key_le f g then f ∷ g ∷ gs else g ∷ insert_finding f gs

unfoldable pub sort_findings : List Finding → List Finding
unfolding insert_finding
sort_findings [] = []
sort_findings (f ∷ fs) = insert_finding f (sort_findings fs)

-- `sorted` of a set of texts.
abbrev pub insert_text : Text → List Text → List Text
insert_text x [] = x ∷ []
insert_text x (y ∷ ys) = if text_le x y then x ∷ y ∷ ys else y ∷ insert_text x ys

abbrev pub sorted : List Text → List Text
sorted [] = []
sorted (x ∷ xs) = insert_text x (sorted xs)

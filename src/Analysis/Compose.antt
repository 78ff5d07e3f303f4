-- ===== src/Analysis/Compose.antt =====
-- The checks across flows (prismpath/analysis.py): `_has_reachable_terminal`, `_child_emitted_fields`,
-- `_child_emitted_types`, `analyze_composition` and `portability`. The file system,
-- and the parser as it reads a file, are parameters.
pub mod Portable
use prismpath.Base.{
  Option, none, some, Bool, true, false, not, ◌||◌, if◌then◌else◌, List, [], ◌∷◌, ◌++◌, is_nil,
}
use prismpath.Base.Text.{Text, codes}
use prismpath.Base.Dict.{Dict, lookup, lookup_or, has_key, insert, keys}
use prismpath.Graph.{Node, Graph, Edge, is_terminal}
use prismpath.Predicates.Condition.{is_semantic}
use prismpath.Analysis.Finding.{
  Finding, warn, fail, spawn_missing_child, spawn_child_unparseable, spawn_child_no_terminal,
  spawn_expect_unmet, spawn_expect_type_mismatch, not_portable_edge, sorted,
}
use prismpath.Analysis.Reach.{member, reachable}
use prismpath.Analysis.Routes.{over_nodes, none_reached_ends}
use prismpath.Analysis.Fields.{Family, same_family, family_of, given, emits_of}

unfoldable pub has_reachable_terminal : Graph → Bool
unfolding reachable
has_reachable_terminal graph = not (none_reached_ends graph.nodes (reachable graph))

abbrev emitted_fields : Dict Node → List Text
emitted_fields [] = []
emitted_fields ((x, n) ∷ d) = keys (emits_of (some n)) ++ emitted_fields d

-- A set, in which a field may stand twice.
unfoldable pub child_emitted_fields : Graph → List Text
child_emitted_fields graph = emitted_fields graph.nodes

abbrev add_family : Text → Option Family → Dict Family → Dict Family
add_family f none out = out
add_family f (some g) out = insert f g out

abbrev add_families : Dict (Option Text) → Dict Family → Dict Family
add_families [] out = out
add_families ((f, token) ∷ emits) out = add_families emits (add_family f (family_of token) out)

abbrev emitted_types : Dict Node → Dict Family → Dict Family
emitted_types [] out = out
emitted_types ((x, n) ∷ d) out = emitted_types d (add_families (emits_of (some n)) out)

unfoldable pub child_emitted_types : Graph → Dict Family
unfolding family_of
child_emitted_types graph = emitted_types graph.nodes []

-- What the path of a child leads to.
pub data Child : Type 0 where
  absent unparseable : Child
  child_flow : Graph → Child

abbrev unmet : List Text → Dict (Option Text) → List Text
unmet emitted [] = []
unmet emitted ((f, token) ∷ expect) =
    let rest = unmet emitted expect in if member f emitted then rest else f ∷ rest

abbrev clash : Text → Text → Text → Option Family → Option Family → List Finding
clash x child f none have = []
clash x child f (some want) none = []
clash x child f (some want) (some have) =
    if same_family want have then [] else warn spawn_expect_type_mismatch x (f ∷ child ∷ []) ∷ []

abbrev type_clashes : Text → Text → Dict Family → Dict (Option Text) → List Finding
type_clashes x child types [] = []
type_clashes x child types ((f, token) ∷ expect) =
    clash x child f (family_of token) (lookup f types) ++ type_clashes x child types expect

abbrev unmet_finding : Text → Text → List Text → List Finding
unmet_finding x child [] = []
unmet_finding x child (f ∷ fs) = warn spawn_expect_unmet x (child ∷ f ∷ fs) ∷ []

-- What a node expects of a child that is parsed.
unfoldable pub expect_findings : Text → Text → Dict (Option Text) → Graph → List Finding
unfolding child_emitted_fields child_emitted_types family_of
expect_findings x child expect g =
    let emitted = child_emitted_fields g in
    if is_nil expect || is_nil emitted
    then []
    else unmet_finding x child (unmet emitted expect)
      ++ type_clashes x child (child_emitted_types g) expect

-- `@spawn(child=…)` of a node.
abbrev pub child_of : Node → Option Text
child_of n = elim (lookup (codes "spawn") n.annotations) [
  | none ↦ none
  | some spawn ↦ given (lookup (codes "child") spawn)
]

unfoldable pub child_findings : Text → Dict (Option Text) → Text → Child → List Finding
unfolding expect_findings has_reachable_terminal
child_findings x expect child absent = fail spawn_missing_child x (child ∷ []) ∷ []
child_findings x expect child unparseable = fail spawn_child_unparseable x (child ∷ []) ∷ []
child_findings x expect child (child_flow g) =
    (if has_reachable_terminal g then [] else fail spawn_child_no_terminal x (child ∷ []) ∷ [])
    ++ expect_findings x child expect g

unfoldable pub composition_at : (Text → Child) → Text → Node → List Finding
unfolding child_findings
composition_at open_child x n = elim (child_of n) [
  | none ↦ []
  | some child ↦
      child_findings x (lookup_or [] (codes "expect") n.annotations) child (open_child child)
]

-- `analyze_composition`; `open_child` resolves and parses a child's path.
unfoldable pub analyze_composition : (Text → Child) → Graph → List Finding
unfolding composition_at
analyze_composition open_child graph = over_nodes (composition_at open_child) graph.nodes

abbrev pub semantic_findings : Text → List Edge → List Finding
semantic_findings x [] = []
semantic_findings x ((t, c) ∷ es) =
    (if is_semantic c then warn not_portable_edge x (t ∷ c ∷ []) ∷ [] else [])
    ++ semantic_findings x es

abbrev pub semantic_at : Text → Option Node → List Finding
semantic_at x none = []
semantic_at x (some n) = semantic_findings x n.edges

abbrev pub over_reached : Dict Node → List Text → List Finding
over_reached nodes [] = []
over_reached nodes (x ∷ xs) = semantic_at x (lookup x nodes) ++ over_reached nodes xs

unfoldable pub portability : Graph → List Finding
unfolding reachable
portability graph = over_reached graph.nodes (sorted (reachable graph))

-- ===== src/Analysis/Routes.antt =====
-- The checks of the routing of each node (prismpath/analysis.py): `_check_structure`,
-- `_check_reachability`, `_check_stuck`, `_check_shadowing`, `_check_error_shadowing` and
-- `_check_event_shadowing`.
pub mod Shadowed
pub mod Stuck
use prismpath.Base.{
  ℕ, zero, suc, Option, none, some, Bool, true, false, not, ◌&&◌, ◌||◌, if◌then◌else◌, List, [],
  ◌∷◌, ◌++◌, any, is_nil, ◌==◌, ltb, map,
}
use prismpath.Base.Text.{Text, text_eq}
use prismpath.Base.Maybe.{◌>>=◌}
use prismpath.Base.Dict.{Dict, lookup, has_key}
use prismpath.Graph.{Node, Graph, Edge, is_terminal}
use prismpath.Predicates.Syntax.{Expr}
use prismpath.Predicates.Condition.{
  Problem, is_deterministic, is_semantic, is_error, is_event, event_name, error_expr,
  check_predicate,
}
use prismpath.Analysis.Finding.{
  Finding, error, warning, undefined_start, undefined_target, unsafe_predicate, unreachable_node,
  no_terminal, possible_stuck, shadowed_edge, shadowed_event_edge, shadowed_error_edge, quotes,
  problem, warn, fail,
}
use prismpath.Analysis.Fragment.{is_always_true, negates}
use prismpath.Analysis.Reach.{member, reachable}

-- The findings of each node, in the order of the nodes.
abbrev pub over_nodes : (Text → Node → List Finding) → Dict Node → List Finding
over_nodes check [] = []
over_nodes check ((x, n) ∷ d) = check x n ++ over_nodes check d

abbrev pub none_reached_ends : Dict Node → List Text → Bool
none_reached_ends nodes [] = true
none_reached_ends nodes (x ∷ xs) = elim (lookup x nodes) [
  | none ↦ none_reached_ends nodes xs
  | some n ↦ not (is_terminal n.edges) && none_reached_ends nodes xs
]

-- `_check_reachability`
unfoldable pub check_reachability : Graph → List Finding
unfolding reachable
check_reachability graph =
    let reach = reachable graph in
    if not (has_key graph.start graph.nodes)
    then []
    else over_nodes (λ x n. if member x reach then [] else warn unreachable_node x [] ∷ [])
        graph.nodes
      ++ (if none_reached_ends graph.nodes reach
          then record { severity = error; code = no_terminal; node = none; detail = quotes [] } ∷ []
          else [])

-- Whether the edge at `i` is dead behind the one at `k`.
unfoldable pub is_shadowed : ℕ → ℕ → Text → Bool
is_shadowed k i c =
    if i == k
    then false
    else if is_error c || is_event c
    then false
    else if is_deterministic c
    then ltb k i
    else true

unfoldable pub shadowed_from : Text → ℕ → ℕ → List Edge → List Finding
unfolding is_shadowed
shadowed_from x k i [] = []
shadowed_from x k i ((t, c) ∷ es) =
    (if is_shadowed k i c then warn shadowed_edge x (t ∷ []) ∷ [] else [])
    ++ shadowed_from x k (suc i) es

module _ (ast_parse : Text → Option Expr) where
  abbrev pub unsafe : Text → Problem → Finding
  unsafe x p = record {
    severity = error;
    code = unsafe_predicate;
    node = some x;
    detail = problem p;
  }

  abbrev pub edge_structure : Dict Node → Text → List Edge → List Finding
  edge_structure nodes x [] = []
  edge_structure nodes x ((t, c) ∷ es) =
      (if has_key t nodes then [] else fail undefined_target x (t ∷ []) ∷ [])
      ++ (map (unsafe x) (check_predicate ast_parse c) ++ edge_structure nodes x es)

  -- `_check_structure`
  unfoldable pub check_structure : Graph → List Finding
  check_structure graph =
      (if has_key graph.start graph.nodes
        then []
        else record {
          severity = error;
          code = undefined_start;
          node = none;
          detail = quotes (graph.start ∷ []);
        }
          ∷ [])
      ++ over_nodes (λ x n. edge_structure graph.nodes x n.edges) graph.nodes

  abbrev pub conditions : (Text → Bool) → List Edge → List Text
  conditions p [] = []
  conditions p ((t, c) ∷ es) = if p c then c ∷ conditions p es else conditions p es

  -- Some condition and a later one negate each other.
  abbrev pub exhaustive : List Text → Bool
  exhaustive [] = false
  exhaustive (c ∷ cs) = any (negates ast_parse c) cs || exhaustive cs

  -- The body of `_check_stuck`'s loop.
  unfoldable pub stuck_at : Text → Node → List Finding
  unfolding is_always_true
  stuck_at x n =
      let det = conditions is_deterministic n.edges in
      if is_terminal n.edges
      then []
      else if not (is_nil (conditions is_semantic n.edges)) || is_nil det
      then []
      else if any (is_always_true ast_parse) det
      then []
      else if exhaustive det
      then []
      else warn possible_stuck x [] ∷ []

  unfoldable pub check_stuck : Graph → List Finding
  unfolding stuck_at
  check_stuck graph = over_nodes stuck_at graph.nodes

  -- The position of the first deterministic edge that is always true.
  unfoldable pub first_true : List Edge → Option ℕ
  first_true [] = none
  first_true ((t, c) ∷ es) =
      let later = first_true es >>= λ i. some (suc i) in
      if is_deterministic c && is_always_true ast_parse c then some 0 else later

  unfoldable pub shadowed_at : Text → Node → List Finding
  unfolding first_true shadowed_from
  shadowed_at x n = elim (first_true n.edges) [ none ↦ [] | some k ↦ shadowed_from x k 0 n.edges ]

  -- `_check_shadowing`
  unfoldable pub check_shadowing : Graph → List Finding
  unfolding shadowed_at
  check_shadowing graph = over_nodes shadowed_at graph.nodes

-- The error edges of a node, and whether a bare one stands before them.
unfoldable pub shadowed_errors : Text → Bool → List Edge → List Finding
shadowed_errors x bare [] = []
shadowed_errors x bare ((t, c) ∷ es) =
    (if is_error c && bare then warn shadowed_error_edge x (t ∷ []) ∷ [] else [])
    ++ shadowed_errors x (bare || (is_error c && is_nil (error_expr c))) es

-- `_check_error_shadowing`
unfoldable pub check_error_shadowing : Graph → List Finding
unfolding shadowed_errors
check_error_shadowing graph = over_nodes (λ x n. shadowed_errors x false n.edges) graph.nodes

unfoldable pub shadowed_events : Text → List Text → List Edge → List Finding
shadowed_events x seen [] = []
shadowed_events x seen ((t, c) ∷ es) =
    let rest = shadowed_events x seen es in
    let first = shadowed_events x (event_name c ∷ seen) es in
    if not (is_event c)
    then rest
    else if member (event_name c) seen
    then warn shadowed_event_edge x (t ∷ event_name c ∷ []) ∷ rest
    else first

-- `_check_event_shadowing`
unfoldable pub check_event_shadowing : Graph → List Finding
unfolding shadowed_events
check_event_shadowing graph = over_nodes (λ x n. shadowed_events x [] n.edges) graph.nodes

-- ===== src/Analysis/Cycles.antt =====
-- The checks of cycles and of single edges (prismpath/analysis.py): `_check_cycles` and
-- `_check_dead_and_dup`. `none` is the KeyError of `_is_always_false`.
use prismpath.Base.{
  Option, some, Bool, false, not, ◌&&◌, ◌||◌, if◌then◌else◌, List, [], ◌∷◌, ◌++◌, any, length, ltb,
}
use prismpath.Base.Text.{Text, strip, lower}
use prismpath.Base.Maybe.{◌>>=◌}
use prismpath.Base.Dict.{Dict}
use prismpath.Graph.{Node, Graph, Edge}
use prismpath.Predicates.Syntax.{Expr}
use prismpath.Predicates.Condition.{is_semantic}
use prismpath.Analysis.Finding.{
  Finding, warn, unbounded_cycle, always_false_edge, duplicate_condition, sorted,
}
use prismpath.Analysis.Fragment.{references_visits, is_always_false}
use prismpath.Analysis.Reach.{member, has_self_loop}
use prismpath.Analysis.Components.{edges_of, sccs}

abbrev pub any_condition : (Text → Bool) → List Edge → Bool
any_condition p [] = false
any_condition p ((t, c) ∷ es) = p c || any_condition p es

abbrev pub is_cycle : Dict Node → List Text → Bool
is_cycle nodes comp = ltb 1 (length comp) || any (λ v. has_self_loop v (edges_of nodes v)) comp

abbrev cycle_finding : List Text → List Finding
cycle_finding [] = []
cycle_finding (v ∷ vs) = warn unbounded_cycle v (v ∷ vs) ∷ []

-- The repeated semantic conditions of a node.
unfoldable pub duplicates_at : Text → List Text → List Edge → List Finding
unfolding strip lower
duplicates_at x seen [] = []
duplicates_at x seen ((t, c) ∷ es) =
    let key = lower (strip c) in
    let rest = duplicates_at x (key ∷ seen) es in
    let same = duplicates_at x seen es in
    if not (is_semantic c)
    then same
    else if member key seen
    then warn duplicate_condition x (c ∷ []) ∷ rest
    else rest

module _ (ast_parse : Text → Option Expr) where
  -- Some edge of some node of the component caps the visits.
  abbrev pub capped : Dict Node → List Text → Bool
  capped nodes comp = any (λ v. any_condition (references_visits ast_parse) (edges_of nodes v)) comp

  unfoldable pub cycle_findings : Dict Node → List (List Text) → List Finding
  unfolding has_self_loop references_visits
  cycle_findings nodes [] = []
  cycle_findings nodes (comp ∷ comps) =
      let rest = cycle_findings nodes comps in
      if is_cycle nodes comp && not (capped nodes comp)
      then cycle_finding (sorted comp) ++ rest
      else rest

  -- `_check_cycles`
  unfoldable pub check_cycles : Graph → List Finding
  unfolding sccs cycle_findings
  check_cycles graph = cycle_findings graph.nodes (sccs graph)

  unfoldable pub dead_at : Text → List Edge → Option (List Finding)
  unfolding is_always_false
  dead_at x [] = some []
  dead_at x ((t, c) ∷ es) = is_always_false ast_parse c >>= λ dead. dead_at x es >>= λ rest.
      some (if dead then warn always_false_edge x (t ∷ c ∷ []) ∷ rest else rest)

  unfoldable dead_and_dup : Dict Node → Option (List Finding)
  unfolding dead_at duplicates_at
  dead_and_dup [] = some []
  dead_and_dup ((x, n) ∷ d) = dead_at x n.edges >>= λ dead.
      dead_and_dup d >>= λ rest. some (dead ++ (duplicates_at x [] n.edges ++ rest))

  -- `_check_dead_and_dup`
  unfoldable pub check_dead_and_dup : Graph → Option (List Finding)
  unfolding dead_and_dup
  check_dead_and_dup graph = dead_and_dup graph.nodes

-- ===== src/Analysis/Analyze.antt =====
-- `analyze` (prismpath/analysis.py): all checks of one graph, sorted. The order in which Python runs
-- through a set of upstream nodes is the parameter `set_order`. `none` is a KeyError.
pub mod Defined
pub mod Clean
use prismpath.Base.{Option, none, some, List, [], ◌∷◌, ◌++◌}
use prismpath.Base.Text.{Text}
use prismpath.Base.Maybe.{◌>>=◌}
use prismpath.Base.Dict.{Dict, lookup_or}
use prismpath.Graph.{Node, Graph}
use prismpath.Predicates.Syntax.{Expr}
use prismpath.Contract.Spec.{Spec}
use prismpath.Contract.Derive.{derive_contract}
use prismpath.Analysis.Finding.{Finding, sort_findings}
use prismpath.Analysis.Reach.{upstream_nodes}
use prismpath.Analysis.Routes.{
  over_nodes, check_structure, check_reachability, check_stuck, check_shadowing,
  check_event_shadowing, check_error_shadowing,
}
use prismpath.Analysis.Fields.{provenance_at, emits_types_at, check_field_only, check_spawn}
use prismpath.Analysis.Cycles.{check_cycles, check_dead_and_dup}

module _ (ast_parse : Text → Option Expr) (set_order : List Text → List Text) where
  abbrev pub upstream_of : Graph → Text → List Text
  upstream_of graph x = set_order (upstream_nodes graph x)

  abbrev pub contract_of : Graph → Text → Dict Spec
  contract_of graph x = lookup_or [] x (derive_contract ast_parse graph)

  -- `_check_provenance`
  unfoldable pub check_provenance : Graph → List Finding
  unfolding upstream_nodes derive_contract provenance_at
  check_provenance graph =
      over_nodes (λ x n. provenance_at graph.nodes (contract_of graph x) (upstream_of graph x) x n)
        graph.nodes

  -- `_check_emits_types`
  unfoldable pub check_emits_types : Graph → List Finding
  unfolding upstream_nodes derive_contract emits_types_at
  check_emits_types graph =
      over_nodes (λ x n. emits_types_at graph.nodes (contract_of graph x) (upstream_of graph x) x n)
        graph.nodes

  -- The findings of all checks but the last, in the order of the calls.
  unfoldable pub gathered : Graph → List Finding
  unfolding check_structure check_reachability check_stuck check_shadowing check_event_shadowing
      check_error_shadowing check_provenance check_emits_types check_field_only check_spawn
      check_cycles
  gathered graph =
      check_structure ast_parse graph
      ++ (check_reachability graph
          ++ (check_stuck ast_parse graph
              ++ (check_shadowing ast_parse graph
                  ++ (check_event_shadowing graph
                      ++ (check_error_shadowing graph
                          ++ (check_provenance graph
                              ++ (check_emits_types graph
                                  ++ (check_field_only graph
                                      ++ (check_spawn graph ++ check_cycles ast_parse graph)))))))))

  unfoldable pub analyze : Graph → Option (List Finding)
  unfolding gathered check_dead_and_dup sort_findings
  analyze graph =
      check_dead_and_dup ast_parse graph >>= λ dead. some (sort_findings (gathered graph ++ dead))

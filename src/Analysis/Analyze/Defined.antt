-- ===== src/Analysis/Analyze/Defined.antt =====
-- What `_check_structure` (prismpath/analysis.py) promises, and where its errors go in `analyze`.
use prismpath.Base.{
  Option, none, some, Bool, true, false, ◌||◌, if◌then◌else◌, List, [], ◌∷◌, ◌++◌, any, map, ◌≡◌,
  refl, sym, ap, subst, ◌∙◌, inl, inr, arith,
}
use prismpath.Base.Text.{Text, text_eq}
use prismpath.Base.Maybe.{◌>>=◌}
use prismpath.Base.Dict.{Dict, lookup, has_key}
use prismpath.Graph.{Node, Graph, Edge}
use prismpath.Predicates.Syntax.{Expr}
use prismpath.Predicates.Condition.{check_predicate}
use prismpath.Engine.Walk.{HasTarget}
use prismpath.Analysis.Finding.{
  Finding, error, warning, fail, quotes, undefined_start, undefined_target, key_le, insert_finding,
  sort_findings,
}
use prismpath.Analysis.Routes.{over_nodes, edge_structure, unsafe, check_structure}
use prismpath.Analysis.Analyze.{gathered, analyze}
use prismpath.Analysis.Cycles.{check_dead_and_dup}

abbrev pub is_error_finding : Finding → Bool
is_error_finding f = elim f.severity [ error ↦ true | warning ↦ false ]

-- The analysis has found an error.
abbrev pub has_error : List Finding → Bool
has_error = any is_error_finding

has_error-append : (fs gs : List Finding) → has_error (fs ++ gs) ≡ (has_error fs || has_error gs)
has_error-append [] gs = refl
has_error-append (f ∷ fs) gs = ground (arith, has_error-append fs gs)

has_error-insert_finding :
    (f : Finding) (fs : List Finding)
    → has_error (insert_finding f fs) ≡ (is_error_finding f || has_error fs)
unfolding insert_finding
has_error-insert_finding f [] = refl
has_error-insert_finding f (g ∷ gs) = at (key_le f g) (has_error-insert_finding f gs)
  where
    at :
        (b : Bool)
        → has_error (insert_finding f gs) ≡ (is_error_finding f || has_error gs)
        → has_error (if b then f ∷ g ∷ gs else g ∷ insert_finding f gs)
          ≡ (is_error_finding f || (is_error_finding g || has_error gs))
    at true rec = refl
    at false rec = ground (arith, rec)

has_error-sort_findings : (fs : List Finding) → has_error (sort_findings fs) ≡ has_error fs
unfolding sort_findings
has_error-sort_findings [] = refl
has_error-sort_findings (f ∷ fs) =
    has_error-insert_finding f (sort_findings fs)
    ∙ ap (λ b. is_error_finding f || b) (has_error-sort_findings fs)

or_false : (a b : Bool) → (a || b) ≡ false → (a ≡ false) × (b ≡ false)
or_false false b h = (refl, h)
or_false true b h = cc

append_clean :
    (fs gs : List Finding)
    → has_error (fs ++ gs) ≡ false
    → (has_error fs ≡ false) × (has_error gs ≡ false)
append_clean fs gs h = or_false (has_error fs) (has_error gs) (sym (has_error-append fs gs) ∙ h)

-- Every target is a node.
abbrev pub Defined : Dict Node → List Edge → Type 0
Defined nodes es = (t : Text) → HasTarget t es → has_key t nodes ≡ true

module _ (ast_parse : Text → Option Expr) where
  edge_structure-Defined :
      (nodes : Dict Node) (x : Text) (es : List Edge)
      → has_error (edge_structure ast_parse nodes x es) ≡ false
      → Defined nodes es
  edge_structure-Defined nodes x [] h t k = elim k [ ]
  edge_structure-Defined nodes x ((u, c) ∷ es) h t k =
      let parts =
        append_clean (if has_key u nodes then [] else fail undefined_target x (u ∷ []) ∷ []) _ h in
      elim k [
        | inl e ↦ subst (λ s. has_key s nodes ≡ true) (sym e) (at (has_key u nodes) parts.0)
        | inr j ↦
            edge_structure-Defined nodes x es
              (append_clean (map (unsafe ast_parse x) (check_predicate ast_parse c))
                (edge_structure ast_parse nodes x es) parts.1).1
              t j
      ]
    where
      at :
          (b : Bool)
          → has_error (if b then [] else fail undefined_target x (u ∷ []) ∷ []) ≡ false
          → b ≡ true
      at true q = refl
      at false q = cc

  over_nodes-Defined :
      (nodes d : Dict Node) (x : Text) (n : Node)
      → has_error (over_nodes (λ y m. edge_structure ast_parse nodes y m.edges) d) ≡ false
      → lookup x d ≡ some n
      → Defined nodes n.edges
  over_nodes-Defined nodes [] x n h e = cc
  over_nodes-Defined nodes ((y, m) ∷ d) x n h e =
      at (text_eq y x) e (λ k. over_nodes-Defined nodes d x n parts.1 k)
    where
      parts :
          (has_error (edge_structure ast_parse nodes y m.edges) ≡ false)
          × (has_error (over_nodes (λ z k. edge_structure ast_parse nodes z k.edges) d) ≡ false)
      parts = append_clean (edge_structure ast_parse nodes y m.edges) _ h

      same : (a b : Node) → some a ≡ some b → a ≡ b
      same a b q = cc

      at :
          (b : Bool)
          → (if b then some m else lookup x d) ≡ some n
          → (lookup x d ≡ some n → Defined nodes n.edges)
          → Defined nodes n.edges
      at true q rec =
          subst (λ (k : Node). Defined nodes k.edges) (same m n q)
            (edge_structure-Defined nodes y m.edges parts.0)
      at false q rec = rec q

  -- No error: the start is a node, and so is every target of every node.
  pub check_structure-Defined :
      (graph : Graph)
      → has_error (check_structure ast_parse graph) ≡ false
      → (has_key graph.start graph.nodes ≡ true)
        × ((x : Text) (n : Node) → lookup x graph.nodes ≡ some n → Defined graph.nodes n.edges)
  unfolding check_structure
  check_structure-Defined graph h = (
    at (has_key graph.start graph.nodes) parts.0,
    λ x n e. over_nodes-Defined graph.nodes graph.nodes x n parts.1 e,
  )
    where
      no_start : Finding
      no_start = record {
        severity = error;
        code = undefined_start;
        node = none;
        detail = quotes (graph.start ∷ []);
      }

      at : (b : Bool) → has_error (if b then [] else no_start ∷ []) ≡ false → b ≡ true
      at true q = refl
      at false q = cc

      parts :
          (has_error (if has_key graph.start graph.nodes then [] else no_start ∷ []) ≡ false)
          × (has_error
                (over_nodes (λ x n. edge_structure ast_parse graph.nodes x n.edges) graph.nodes)
              ≡ false)
      parts = append_clean (if has_key graph.start graph.nodes then [] else no_start ∷ []) _ h

  pub analyze-check_structure :
      (set_order : List Text → List Text) (graph : Graph) (fs : List Finding)
      → analyze ast_parse set_order graph ≡ some fs
      → has_error fs ≡ false
      → has_error (check_structure ast_parse graph) ≡ false
  unfolding analyze gathered
  analyze-check_structure set_order graph fs e h = at (check_dead_and_dup ast_parse graph) e
    where
      same : (a b : List Finding) → some a ≡ some b → a ≡ b
      same a b q = cc

      at :
          (o : Option (List Finding))
          → (o >>= λ dead. some (sort_findings (gathered ast_parse set_order graph ++ dead)))
            ≡ some fs
          → has_error (check_structure ast_parse graph) ≡ false
      at none q = cc
      at (some dead) q =
          (append_clean (check_structure ast_parse graph) _
            (append_clean (gathered ast_parse set_order graph) dead (
              sym (has_error-sort_findings (gathered ast_parse set_order graph ++ dead))
              ∙ ap has_error (same _ fs q)
              ∙ h)).0).0

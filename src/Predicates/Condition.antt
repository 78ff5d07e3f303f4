-- ===== src/Predicates/Condition.antt =====
-- The text of an edge's condition (prismpath/predicates.py): the tiers it can belong to, the predicate
-- in it, `check_predicate` and `eval_condition`. Python's own parser is the parameter `ast_parse`;
-- `none` stands for its SyntaxError or ValueError.
use prismpath.Base.{
  Option, none, some, Bool, true, false, not, ◌&&◌, ◌||◌, if◌then◌else◌, List, [], ◌∷◌, ◌++◌, drop,
  any, is_nil, ltb, map,
}
use prismpath.Base.Text.{Text, codes, text_eq, starts_with, strip, lower}
use prismpath.Base.Maybe.{◌>>=◌}
use prismpath.Base.Dict.{Dict}
use prismpath.Predicates.Value.{Value, truthy}
use prismpath.Predicates.Syntax.{Expr, fold_unary_signs, disallowed, depth}
use prismpath.Predicates.Eval.{ev, max_depth}

-- `ALWAYS` and `NEVER`, tested on lowered text.
unfoldable pub is_always : Text → Bool
is_always c =
    text_eq (codes "always") c
    || (text_eq (codes "true") c
        || (text_eq (codes "else") c
            || (text_eq (codes "otherwise") c
                || (text_eq (codes "default") c || text_eq (codes "_") c))))

unfoldable pub is_never : Text → Bool
is_never c = text_eq (codes "false") c || text_eq (codes "never") c

-- The three tests on the stripped and lowered condition.
abbrev pub deterministic_text : Text → Bool
deterministic_text c = starts_with (codes "when ") c || (is_always c || is_never c)

abbrev pub error_text : Text → Bool
error_text c = starts_with (codes "on error") c

abbrev pub event_text : Text → Bool
event_text c = starts_with (codes "on event") c || starts_with (codes "on timeout") c

unfoldable pub is_deterministic : Text → Bool
is_deterministic condition = deterministic_text (lower (strip condition))

unfoldable pub is_error : Text → Bool
is_error condition = error_text (lower (strip condition))

unfoldable pub is_event : Text → Bool
is_event condition = event_text (lower (strip condition))

abbrev pub timeout_event : Text
timeout_event = codes "__timeout__"

unfoldable pub event_name : Text → Text
event_name condition =
    let c = strip condition in
    if starts_with (codes "on timeout") (lower c) then timeout_event else strip (drop 8 c)

unfoldable pub is_semantic : Text → Bool
is_semantic condition =
    not (is_deterministic condition) && (not (is_error condition) && not (is_event condition))

-- `none` is a join that is not given.
unfoldable pub spawn_join_event : Option Text → Text
spawn_join_event join =
    let given : Text = elim join [
      | none ↦ codes "all_done"
      | some [] ↦ codes "all_done"
      | some t ↦ t
    ] in
    let j = lower (strip given) in
    if starts_with (codes "quorum") j
    then codes "quorum"
    else if text_eq j (codes "any")
    then codes "any"
    else codes "all_done"

unfoldable pub error_expr : Text → Text
error_expr condition = strip (drop 8 (strip condition))

-- `_expr_of`
unfoldable pub expr_of : Text → Text
expr_of condition =
    let c = strip condition in if starts_with (codes "when ") (lower c) then strip (drop 5 c) else c

pub data Problem : Type 0 where
  empty_predicate unparseable nested_too_deeply : Problem
  disallowed_syntax : Text → Problem

abbrev pub problem_eq : Problem → Problem → Bool
problem_eq empty_predicate q = elim q [ empty_predicate ↦ true | _ ↦ false ]
problem_eq unparseable q = elim q [ unparseable ↦ true | _ ↦ false ]
problem_eq nested_too_deeply q = elim q [ nested_too_deeply ↦ true | _ ↦ false ]
problem_eq (disallowed_syntax k) q = elim q [ disallowed_syntax k' ↦ text_eq k k' | _ ↦ false ]

-- The loop that drops repeated problems and keeps their order.
unfoldable pub dedup : List Problem → List Problem → List Problem
dedup seen [] = []
dedup seen (p ∷ ps) =
    let rest = dedup (p ∷ seen) ps in
    let same = dedup seen ps in if any (problem_eq p) seen then same else p ∷ rest

-- The two tests on a parsed predicate, once its signs are folded.
unfoldable pub check_tree : Expr → List Problem
unfolding dedup
check_tree tree = dedup [] (
    map disallowed_syntax (disallowed tree)
    ++ (if ltb max_depth (depth tree 0) then nested_too_deeply ∷ [] else []))

-- The sandbox, and then the evaluation, of a tree whose signs are folded.
unfoldable pub eval_tree : Expr → Dict Value → Option Bool
eval_tree tree ctx =
    if is_nil (disallowed tree) then (ev ctx tree 0 >>= λ v. some (truthy v)) else none

module _ (ast_parse : Text → Option Expr) where
  unfoldable pub check_predicate : Text → List Problem
  check_predicate condition =
      let expr = expr_of condition in
      let low = lower expr in
      if not (is_deterministic condition)
      then []
      else if is_always low || is_never low
      then []
      else if is_nil expr
      then empty_predicate ∷ []
      else elim (ast_parse expr) [
        | none ↦ unparseable ∷ []
        | some tree ↦ check_tree (fold_unary_signs tree)
      ]

  -- `none` is a PredicateError.
  unfoldable pub eval_condition : Text → Dict Value → Option Bool
  unfolding eval_tree
  eval_condition condition ctx =
      let expr = expr_of condition in
      let low = lower expr in
      if is_always low
      then some true
      else if is_never low
      then some false
      else (ast_parse expr >>= λ tree. eval_tree (fold_unary_signs tree) ctx)

-- ===== src/Analysis/Routes/Shadowed.antt =====
-- What `_check_shadowing` (prismpath/analysis.py) says, against the routing of a turn
-- (prismpath/engine.py): the node's edges are tried in order, and an edge that is always true ends the
-- search.
use prismpath.Base.{
  ℕ, suc, Option, none, some, Bool, true, false, ◌&&◌, ◌||◌, if◌then◌else◌, List, [], ◌∷◌,
  get_elem?, ◌≤◌, ◌==◌, ltb, ◌≡◌, refl, arith, tests,
}
use prismpath.Base.Text.{Text}
use prismpath.Base.Maybe.{◌>>=◌}
use prismpath.Base.Dict.{Dict}
use prismpath.Graph.{Edge, Node}
use prismpath.Predicates.Value.{Value}
use prismpath.Predicates.Condition.{
  is_deterministic, is_error, is_event, is_semantic, eval_condition,
}
use prismpath.Analysis.Fragment.{is_always_true}
use prismpath.Analysis.Always.{is_always_true-eval_condition}
use prismpath.Analysis.Routes.{first_true, is_shadowed}
use prismpath.Engine.State.{by_predicate}
use prismpath.Engine.Turn.{
  Env, Config, Loop, again, move, choose, select, is_doubtful, first_deterministic, routing_context,
  route_turn,
}

is_shadowed-le :
    (k i : ℕ) (c : Text) → i ≤ k → is_deterministic c ≡ true → is_shadowed k i c ≡ false
unfolding is_shadowed
is_shadowed-le k i c le d = at (is_error c) (is_event c)
  where
    at :
        (a b : Bool)
        → (if i == k
            then false
            else if a || b
            then false
            else if is_deterministic c
            then ltb k i
            else true)
          ≡ false
    at a b = grind (arith, tests, d, le)

module _ {Score : Type 0} (env : Env Score) where
  -- An edge among the first, up to the always-true one at `k`, that the deterministic tier takes.
  abbrev pub TakenBy : List Edge → ℕ → Option Edge → Type 0
  TakenBy es k taken =
      (i : ℕ) × (t : Text) × (c : Text) × (get_elem? es i ≡ some (t, c))
      × (i ≤ k)
      × (is_deterministic c ≡ true)
      × (taken ≡ some (t, c))

  same_index : (a b : ℕ) → some a ≡ some b → a ≡ b
  same_index a b e = cc

  TakenBy-suc :
      (e : Edge) (es : List Edge) (j k : ℕ) (taken : Option Edge)
      → some (suc j) ≡ some k
      → TakenBy es j taken
      → TakenBy (e ∷ es) k taken
  TakenBy-suc e es j k taken same (i, t, c, at, le, d, q) =
      (suc i, t, c, at, omega (arith, le, same_index (suc j) k same), d, q)

  pub first_true-TakenBy :
      (es : List Edge) (ctx : Dict Value) (k : ℕ)
      → first_true env.ast_parse es ≡ some k
      → TakenBy es k (first_deterministic env es ctx)
  unfolding first_true first_deterministic
  first_true-TakenBy [] ctx k h = cc
  first_true-TakenBy ((t, c) ∷ es) ctx k h =
      at (is_deterministic c) (is_always_true env.ast_parse c) (eval_condition env.ast_parse c ctx)
        (first_true env.ast_parse es) refl refl refl refl h (λ j e. first_true-TakenBy es ctx j e)
    where
      at :
          (d a : Bool) (v : Option Bool) (o : Option ℕ)
          → is_deterministic c ≡ d
          → is_always_true env.ast_parse c ≡ a
          → eval_condition env.ast_parse c ctx ≡ v
          → first_true env.ast_parse es ≡ o
          → (if d && a then some 0 else (o >>= λ i. some (suc i))) ≡ some k
          → ((j : ℕ)
              → first_true env.ast_parse es ≡ some j
              → TakenBy es j (first_deterministic env es ctx))
          → TakenBy ((t, c) ∷ es) k (
              if d
              then elim v [ some true ↦ some (t, c) | _ ↦ first_deterministic env es ctx ]
              else first_deterministic env es ctx)
      at true a (some true) o ed ea ev eo q rec = (0, t, c, refl, omega arith, ed, refl)
      at true true (some false) o ed ea ev eo q rec =
          cc (is_always_true-eval_condition env.ast_parse c ctx ea)
      at true true none o ed ea ev eo q rec =
          cc (is_always_true-eval_condition env.ast_parse c ctx ea)
      at true false (some false) (some j) ed ea ev eo q rec =
          TakenBy-suc (t, c) es j k _ q (rec j eo)
      at true false none (some j) ed ea ev eo q rec = TakenBy-suc (t, c) es j k _ q (rec j eo)
      at false a v (some j) ed ea ev eo q rec = TakenBy-suc (t, c) es j k _ q (rec j eo)
      at _ _ _ none ed ea ev eo q rec = cc

  -- Of a node that has an always-true edge at `k`, the deterministic tier takes an edge that the check
  -- does not call shadowed, and the router's answer makes no difference.
  pub route_turn-is_shadowed :
      (cfg : Config Score) (n : Node) (said : Text) (given : Dict Value) (l : Loop) (k : ℕ)
      → first_true env.ast_parse n.edges ≡ some k
      → (i : ℕ) × (t : Text) × (c : Text) × (get_elem? n.edges i ≡ some (t, c))
        × (is_shadowed k i c ≡ false)
        × (route_turn env cfg n said given l
            ≡ again (
                move
                  (record { node = l.node; outcome = said; target = t; used = by_predicate c })
                  l))
  unfolding route_turn
  route_turn-is_shadowed cfg n said given l k h =
      at (first_true-TakenBy n.edges (routing_context env cfg given l) k h)
    where
      at :
          TakenBy n.edges k (first_deterministic env n.edges (routing_context env cfg given l))
          → (i : ℕ) × (t : Text) × (c : Text) × (get_elem? n.edges i ≡ some (t, c))
            × (is_shadowed k i c ≡ false)
            × (choose env cfg said l
                  (first_deterministic env n.edges (routing_context env cfg given l))
                  (select is_semantic n.edges)
                  (env.route said (select is_semantic n.edges) n.instruction)
                  (is_doubtful env cfg cfg.human_floor
                    (env.route said (select is_semantic n.edges) n.instruction).score)
                ≡ again (
                    move
                      (record { node = l.node; outcome = said; target = t; used = by_predicate c })
                      l))
      at (i, t, c, e, le, d, q) = (i, t, c, e, is_shadowed-le k i c le d, rw q refl)

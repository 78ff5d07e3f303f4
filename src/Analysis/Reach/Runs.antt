-- ===== src/Analysis/Reach/Runs.antt =====
-- A run (prismpath/engine.py) stays among the nodes that the analysis (prismpath/analysis.py) reaches.
use prismpath.Base.{
  ℕ, zero, suc, Option, none, some, Bool, true, false, List, [], ◌∷◌, ◌++◌, ◌≡◌, refl, sym, ap,
  subst, ◌∙◌, inl, inr, arith,
}
use prismpath.Base.Text.{Text}
use prismpath.Base.Dict.{has_key}
use prismpath.Graph.{Graph}
use prismpath.Engine.State.{StepLog}
use prismpath.Engine.Turn.{Env}
use prismpath.Engine.Run.{
  Options, Outcome, returned, failed, bad_state_bound, run, bound_of, first_loop,
}
use prismpath.Engine.State.{window}
use prismpath.Engine.Walk.{IsWalk, targets, RoutesAmong}
use prismpath.Engine.Trace.{OutcomeSpec, run_walks}
use prismpath.Analysis.Reach.{member, reachable}
use prismpath.Analysis.Reach.Correct.{Reaches, at_start, along, reachable_iff}
use prismpath.Analysis.Reach.Stack.{In}

IsWalk-Reaches :
    (graph : Graph) (x y t : Text) (ss : List StepLog)
    → Reaches graph x
    → IsWalk graph x ss y
    → In t (targets ss)
    → Reaches graph t
IsWalk-Reaches graph x y t [] r w h = elim h [ ]
IsWalk-Reaches graph x y t (s ∷ ss) r (from, edge, rest) (inl e) =
    subst (Reaches graph) (sym e) (along r edge)
IsWalk-Reaches graph x y t (s ∷ ss) r (from, edge, rest) (inr h) =
    IsWalk-Reaches graph s.target y t ss (along r edge) rest h

-- The nodes on the path of a run that has returned.
abbrev pub path_of : Outcome → List Text
path_of (returned res saved) = res.path
path_of (failed fault saved) = []
path_of bad_state_bound = []

OutcomeSpec-Reaches :
    (graph : Graph) (ps : List Text) (ss : List StepLog) (x : Text) (rounds : ℕ) (o : Outcome)
    (t : Text)
    → ps ≡ []
    → Reaches graph x
    → OutcomeSpec graph ps ss x rounds o
    → In t (path_of o)
    → Reaches graph t
OutcomeSpec-Reaches graph ps ss x rounds (returned res saved) t fresh r spec h =
    elim (subst (In t) (spec.path_eq ∙ ap (λ qs. qs ++ x ∷ targets spec.new) fresh) h) [
      | inl e ↦ subst (Reaches graph) (sym e) r
      | inr q ↦ IsWalk-Reaches graph x spec.last t spec.new r spec.walk q
    ]
OutcomeSpec-Reaches graph ps ss x rounds (failed f saved) t fresh r spec h = elim h [ ]
OutcomeSpec-Reaches graph ps ss x rounds bad_state_bound t fresh r spec h = elim h [ ]

window-nil : (bound : Option ℕ) → window {A = Text} bound [] ≡ []
unfolding window
window-nil none = refl
window-nil (some zero) = refl
window-nil (some (suc k)) = ground arith

start_node-eq-start :
    {Score : Type 0} (o : Options Score) (graph : Graph) (bound : Option ℕ)
    → o.start ≡ none
    → (first_loop o graph bound).node ≡ graph.start
unfolding first_loop
start_node-eq-start o graph bound e =
    ap (λ (s : Option Text). elim s [ none ↦ graph.start | some x ↦ x ]) e

-- A node of the graph that `_reachable` does not find is on the path of no run from the graph's start,
-- provided that the router picks among the edges it is given.
pub run-reachable :
    {Score : Type 0} (env : Env Score) (o : Options Score) (graph : Graph) (bound : Option ℕ)
    → RoutesAmong env
    → bound_of o graph ≡ some bound
    → o.start ≡ none
    → o.seed_path ≡ []
    → (x : Text) → has_key x graph.nodes ≡ true
    → member x (reachable graph) ≡ false
    → ¬ In x (path_of (run env o graph))
run-reachable env o graph bound among e fresh no_seed x node lost visited =
    let reached : Reaches graph x =
      OutcomeSpec-Reaches graph (window bound o.seed_path) (window bound o.seed_steps)
        (first_loop o graph bound).node o.max_steps (run env o graph) x
        (ap (window bound) no_seed ∙ window-nil bound)
        (subst (Reaches graph) (sym (start_node-eq-start o graph bound fresh)) at_start)
        (run_walks env o graph bound among e) visited in
    not_both (member x (reachable graph)) ((reachable_iff graph x).1 (reached, node)) lost
  where
    not_both : (b : Bool) → b ≡ true → b ≡ false → ⊥
    not_both b h k = cc

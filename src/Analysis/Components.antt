-- ===== src/Analysis/Components.antt =====
-- Tarjan's strongly connected components (prismpath/analysis.py, `_sccs`). A call of `strong` gives its
-- node an index first, so calls are no deeper than there are nodes: their number is enough fuel.
use prismpath.Base.{
  ℕ, zero, suc, none, some, not, if◌then◌else◌, List, [], ◌∷◌, ◌++◌, length, leb, ◌==◌,
}
use prismpath.Base.Text.{Text, text_eq}
use prismpath.Base.Dict.{Dict, lookup, lookup_or, has_key, insert, keys}
use prismpath.Graph.{Node, Graph, Edge}
use prismpath.Analysis.Reach.{member}

-- The variables of `_sccs`; the end of `stack` is its head. `onstack` is true of the nodes of `stack`.
pub record Tarjan : Type 0 where
  pub index : Dict ℕ
  pub low : Dict ℕ
  pub stack : List Text
  pub out : List (List Text)
  pub counter : ℕ

abbrev pub at_most : ℕ → ℕ → ℕ
at_most a b = if leb a b then a else b

-- `index[v] = low[v] = counter[0]`, and `v` goes on the stack.
unfoldable pub open_node : Text → Tarjan → Tarjan
open_node v s = record {
  index = insert v s.counter s.index;
  low = insert v s.counter s.low;
  stack = v ∷ s.stack;
  out = s.out;
  counter = suc s.counter;
}

-- `low[v] = min(low[v], n)`
unfoldable pub lower_link : Text → ℕ → Tarjan → Tarjan
lower_link v n s = record {
  index = s.index;
  low = insert v (at_most (lookup_or 0 v s.low) n) s.low;
  stack = s.stack;
  out = s.out;
  counter = s.counter;
}

-- What is popped down to `v`, and the stack below it.
unfoldable pub pop_to : Text → List Text → List Text × List Text
pop_to v [] = ([], [])
pop_to v (w ∷ stack) =
    let rest = pop_to v stack in if text_eq w v then (w ∷ [], stack) else (w ∷ rest.0, rest.1)

-- A root closes its component.
unfoldable pub close_node : Text → Tarjan → Tarjan
unfolding pop_to
close_node v s =
    if lookup_or 0 v s.low == lookup_or 0 v s.index
    then record {
      index = s.index;
      low = s.low;
      stack = (pop_to v s.stack).1;
      out = s.out ++ (pop_to v s.stack).0 ∷ [];
      counter = s.counter;
    }
    else s

-- One target: not a node, not indexed yet, on the stack, or done.
unfoldable pub look_at : (Text → Tarjan → Tarjan) → Dict Node → Text → Text → Tarjan → Tarjan
unfolding lower_link
look_at strong nodes v t s =
    let s' = strong t s in
    let found = lower_link v (lookup_or 0 t s'.low) s' in
    if not (has_key t nodes)
    then s
    else if not (has_key t s.index)
    then found
    else if member t s.stack
    then lower_link v (lookup_or 0 t s.index) s
    else s

unfoldable pub look_at_all :
    (Text → Tarjan → Tarjan) → Dict Node → Text → List Edge → Tarjan → Tarjan
unfolding look_at
look_at_all strong nodes v [] s = s
look_at_all strong nodes v ((t, c) ∷ es) s =
    look_at_all strong nodes v es (look_at strong nodes v t s)

abbrev pub edges_of : Dict Node → Text → List Edge
edges_of nodes x = elim (lookup x nodes) [ none ↦ [] | some n ↦ n.edges ]

-- `strong`
unfoldable pub strong : ℕ → Dict Node → Text → Tarjan → Tarjan
unfolding open_node look_at_all close_node
strong zero nodes v s = s
strong (suc fuel) nodes v s =
    close_node v
      (look_at_all (λ t u. strong fuel nodes t u) nodes v (edges_of nodes v) (open_node v s))

unfoldable pub strong_all : ℕ → Dict Node → List Text → Tarjan → Tarjan
unfolding strong
strong_all fuel nodes [] s = s
strong_all fuel nodes (v ∷ vs) s =
    strong_all fuel nodes vs (if has_key v s.index then s else strong fuel nodes v s)

-- `_sccs`
unfoldable pub sccs : Graph → List (List Text)
unfolding strong_all
sccs graph =
    (strong_all (length graph.nodes) graph.nodes (keys graph.nodes)
      (record { index = []; low = []; stack = []; out = []; counter = 0 })).out

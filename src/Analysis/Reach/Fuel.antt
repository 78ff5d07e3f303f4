-- ===== src/Analysis/Reach/Fuel.antt =====
-- The rounds of `_reachable` (prismpath/analysis.py) are enough for it to end.
use prismpath.Base.{
  ℕ, zero, suc, ◌+◌, ◌≤◌, Option, none, some, Bool, true, false, not, ◌&&◌, if◌then◌else◌, List, [],
  ◌∷◌, length, ◌≡◌, refl, ap, ◌∙◌, arith, Bool-cases, inl, inr,
}
use prismpath.Base.Text.{Text, text_eq, text_eq_iff}
use prismpath.Base.Dict.{Dict, lookup, has_key}
use prismpath.Graph.{Node, Graph, Edge}
use prismpath.Analysis.Reach.{member, push_targets, enter, search, edge_count, reachable}

length-pushed :
    (b : Bool) (t : Text) (stack : List Text)
    → length (if b then t ∷ stack else stack) ≤ suc (length stack)
length-pushed true t stack = omega arith
length-pushed false t stack = omega arith

module _ (nodes : Dict Node) (seen : List Text) where
  pub length-push_targets :
      (es : List Edge) (stack : List Text)
      → length (push_targets nodes seen es stack) ≤ length stack + length es
  unfolding push_targets
  length-push_targets [] stack = omega arith
  length-push_targets ((t, c) ∷ es) stack = omega (
    arith,
    length-push_targets es (if has_key t nodes && not (member t seen) then t ∷ stack else stack),
    length-pushed (has_key t nodes && not (member t seen)) t stack,
  )

abbrev edge_length : Option Node → ℕ
edge_length none = 0
edge_length (some n) = length n.edges

-- The edges of the nodes that are not seen.
unfoldable pub fresh_edges : List Text → Dict Node → ℕ
fresh_edges seen [] = 0
fresh_edges seen ((k, n) ∷ d) =
    if member k seen then fresh_edges seen d else length n.edges + fresh_edges seen d

pub fresh_edges-nil : (d : Dict Node) → fresh_edges [] d ≡ edge_count d
unfolding fresh_edges
fresh_edges-nil [] = refl
fresh_edges-nil ((k, n) ∷ d) = ap (λ m. length n.edges + m) (fresh_edges-nil d)

pub fresh_edges-le :
    (cur : Text) (seen : List Text) (d : Dict Node)
    → fresh_edges (cur ∷ seen) d ≤ fresh_edges seen d
unfolding fresh_edges
fresh_edges-le cur seen [] = omega arith
fresh_edges-le cur seen ((k, n) ∷ d) = ground (arith, fresh_edges-le cur seen d)

-- Entering a node leaves its edges behind.
pub fresh_edges-enter :
    (cur : Text) (n : Node) (seen : List Text) (d : Dict Node)
    → lookup cur d ≡ some n
    → member cur seen ≡ false
    → fresh_edges (cur ∷ seen) d + length n.edges ≤ fresh_edges seen d
unfolding fresh_edges
fresh_edges-enter cur n seen [] e f = cc
fresh_edges-enter cur n seen ((k, m) ∷ d) e f = elim (Bool-cases (text_eq k cur)) [
  | inl t ↦
      let same : edge_length (some m) ≡ edge_length (some n) = ap edge_length (rw t at e) in
      let unseen : member k seen ≡ false = ap (λ x. member x seen) ((text_eq_iff k cur).0 t) ∙ f in
      rw (t, unseen) (omega (arith, same, fresh_edges-le cur seen d))
  | inr t ↦ elim (Bool-cases (member k seen)) [
    | inl old ↦ rw (t, old) (fresh_edges-enter cur n seen d (rw t at e) f)
    | inr new ↦ rw (t, new) (omega (arith, fresh_edges-enter cur n seen d (rw t at e) f))
  ]
]

-- The loop `while stack` from `seen` and the stack: in at most so many rounds the stack is empty, and
-- `found` is what is seen then.
pub data Ends (nodes : Dict Node) : ℕ → List Text → List Text → List Text → Type 0 where
  stack_empty : {rounds : ℕ} {found : List Text} → Ends nodes rounds found [] found
  one_round :
      {rounds : ℕ} {cur : Text} {seen stack found : List Text}
      → Ends nodes rounds
          (enter nodes cur (lookup cur nodes) (member cur seen) seen stack).0
          (enter nodes cur (lookup cur nodes) (member cur seen) seen stack).1
          found
      → Ends nodes (suc rounds) seen (cur ∷ stack) found

module _ (nodes : Dict Node) where
  -- Each round takes a node from the stack, and pushes edges that are not counted again.
  search-Ends :
      (f : ℕ) (seen stack : List Text)
      → length stack + fresh_edges seen nodes ≤ f
      → Ends nodes f seen stack (search f nodes seen stack)
  unfolding search
  search-Ends zero seen [] bound = stack_empty
  search-Ends zero seen (cur ∷ stack) bound = absurd (omega (arith, bound))
  search-Ends (suc f) seen [] bound = stack_empty
  search-Ends (suc f) seen (cur ∷ stack) bound =
      one_round (search-Ends f _ _ (smaller (lookup cur nodes) (member cur seen) refl refl))
    where
      smaller :
          (o : Option Node) (b : Bool)
          → lookup cur nodes ≡ o
          → member cur seen ≡ b
          → length (enter nodes cur o b seen stack).1
              + fresh_edges (enter nodes cur o b seen stack).0 nodes
            ≤ f
      smaller none b e m = omega (arith, bound)
      smaller (some n) true e m = omega (arith, bound)
      smaller (some n) false e m = omega (
        arith,
        bound,
        length-push_targets nodes (cur ∷ seen) n.edges stack,
        fresh_edges-enter cur n seen nodes e m,
      )

-- `_reachable` ends: its loop empties the stack in at most one round more than the graph has edges, and
-- the answer is what is seen then.
pub reachable-Ends :
    (graph : Graph)
    → Ends graph.nodes (suc (edge_count graph.nodes)) [] (graph.start ∷ []) (reachable graph)
unfolding reachable
reachable-Ends graph =
    search-Ends graph.nodes (suc (edge_count graph.nodes)) [] (graph.start ∷ [])
      (omega (arith, fresh_edges-nil graph.nodes))

-- ===== src/Analysis/Reach.antt =====
-- The searches over the graph of a flow (prismpath/analysis.py): `_reachable`, `_upstream_nodes` and
-- `_has_self_loop`. A set is a list without order; the end of Python's stack is the head of the list.
pub mod Stack
pub mod Fuel
pub mod Correct
pub mod Runs
use prismpath.Base.{
  ℕ, zero, suc, ◌+◌, Option, none, some, Bool, true, false, not, ◌&&◌, ◌||◌, if◌then◌else◌, List,
  [], ◌∷◌, ◌++◌, any, length,
}
use prismpath.Base.Text.{Text, text_eq}
use prismpath.Base.Dict.{Dict, lookup, has_key, keys}
use prismpath.Graph.{Node, Graph, Edge}

-- `x in xs`
abbrev pub member : Text → List Text → Bool
member x xs = any (text_eq x) xs

-- The targets that are nodes and not seen go on the stack, in the order of the edges.
unfoldable pub push_targets : Dict Node → List Text → List Edge → List Text → List Text
push_targets nodes seen [] stack = stack
push_targets nodes seen ((t, c) ∷ es) stack =
    push_targets nodes seen es (if has_key t nodes && not (member t seen) then t ∷ stack else stack)

-- One round of the loop: the node that was popped, whether it is seen, and `seen` and the stack after it.
unfoldable pub enter :
    Dict Node → Text → Option Node → Bool → List Text → List Text → List Text × List Text
unfolding push_targets
enter nodes cur none was_seen seen stack = (seen, stack)
enter nodes cur (some n) true seen stack = (seen, stack)
enter nodes cur (some n) false seen stack =
    (cur ∷ seen, push_targets nodes (cur ∷ seen) n.edges stack)

-- `while stack`, on fuel.
unfoldable pub search : ℕ → Dict Node → List Text → List Text → List Text
unfolding enter
search zero nodes seen stack = seen
search (suc fuel) nodes seen [] = seen
search (suc fuel) nodes seen (cur ∷ stack) =
    let after = enter nodes cur (lookup cur nodes) (member cur seen) seen stack in
    search fuel nodes after.0 after.1

-- An edge is pushed at most once, when its node is entered.
abbrev pub edge_count : Dict Node → ℕ
edge_count [] = 0
edge_count ((k, n) ∷ d) = length n.edges + edge_count d

-- `_reachable`
unfoldable pub reachable : Graph → List Text
unfolding search
reachable graph = search (suc (edge_count graph.nodes)) graph.nodes [] (graph.start ∷ [])

unfoldable pub has_target : Text → List Edge → Bool
has_target x [] = false
has_target x ((t, c) ∷ es) = text_eq t x || has_target x es

-- `rev_adj.get(cur, [])`
unfoldable pub parents : Text → Dict Node → List Text
unfolding has_target
parents x [] = []
parents x ((k, n) ∷ d) = let rest = parents x d in if has_target x n.edges then k ∷ rest else rest

-- The loop over the parents: `seen` and the stack after it.
unfoldable pub add_parents : List Text → List Text → List Text → List Text × List Text
add_parents [] seen stack = (seen, stack)
add_parents (p ∷ ps) seen stack =
    add_parents ps (if member p seen then seen else p ∷ seen)
      (if member p seen then stack else p ∷ stack)

unfoldable pub ascend : ℕ → Dict Node → List Text → List Text → List Text
unfolding parents add_parents
ascend zero nodes seen stack = seen
ascend (suc fuel) nodes seen [] = seen
ascend (suc fuel) nodes seen (cur ∷ stack) =
    let after = add_parents (parents cur nodes) seen stack in ascend fuel nodes after.0 after.1

abbrev pub intersect : List Text → List Text → List Text
intersect [] ys = []
intersect (x ∷ xs) ys = let rest = intersect xs ys in if member x ys then x ∷ rest else rest

-- `_upstream_nodes`; a node is pushed once, when it is first seen.
unfoldable pub upstream_nodes : Graph → Text → List Text
unfolding ascend reachable
upstream_nodes graph x =
    intersect (ascend (suc (length graph.nodes)) graph.nodes [] (x ∷ [])) (reachable graph)

-- `_has_self_loop`, of a node with these edges.
unfoldable pub has_self_loop : Text → List Edge → Bool
unfolding has_target
has_self_loop x es = has_target x es

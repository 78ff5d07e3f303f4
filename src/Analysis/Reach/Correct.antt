-- ===== src/Analysis/Reach/Correct.antt =====
-- `_reachable` (prismpath/analysis.py) finds the nodes to which edges lead from the start.
use prismpath.Base.{
  ℕ, zero, suc, ◌+◌, ◌≤◌, Option, none, some, Bool, true, false, List, [], ◌∷◌, length, ◌≡◌, ◌↔◌,
  ◌⊎◌, refl, sym, ap, subst, ◌∙◌, arith, inl, inr,
}
use prismpath.Base.Text.{Text}
use prismpath.Base.Dict.{lookup, has_key}
use prismpath.Graph.{Node, Graph, Edge}
use prismpath.Engine.Walk.{HasTarget, IsEdge}
use prismpath.Analysis.Reach.{member, push_targets, enter, search, edge_count, reachable}
use prismpath.Analysis.Reach.Stack.{
  In, In-member, member-In, lookup-has_key, has_key-lookup, In-push_targets, push_targets-keeps,
  push_targets-has,
}
use prismpath.Analysis.Reach.Fuel.{
  fresh_edges, fresh_edges-nil, fresh_edges-enter, length-push_targets,
}

-- Edges lead from the start to `x`.
pub data Reaches (graph : Graph) : Text → Type 0 where
  at_start : Reaches graph graph.start
  along : {x t : Text} → Reaches graph x → IsEdge graph x t → Reaches graph t

abbrev edges_at : Option Node → List Edge
edges_at none = []
edges_at (some n) = n.edges

-- The state of the search: what is seen and what is on the stack.
module _ (graph : Graph) where
  -- Whatever is seen or on the stack is reached.
  search-Reaches :
      (fuel : ℕ) (seen stack : List Text)
      → ((x : Text) → In x seen ⊎ In x stack → Reaches graph x)
      → (x : Text) → In x (search fuel graph.nodes seen stack)
      → Reaches graph x
  unfolding search
  search-Reaches zero seen stack known x h = known x (inl h)
  search-Reaches (suc fuel) seen [] known x h = known x (inl h)
  search-Reaches (suc fuel) seen (cur ∷ stack) known x h =
      step (lookup cur graph.nodes) (member cur seen) refl
        (λ seen' stack' known'. search-Reaches fuel seen' stack' known' x) h
    where
      later : (y : Text) → In y seen ⊎ In y stack → Reaches graph y
      later y (inl q) = known y (inl q)
      later y (inr q) = known y (inr (inr q))

      entered :
          (n : Node)
          → lookup cur graph.nodes ≡ some n
          → (y : Text)
          → In y (cur ∷ seen) ⊎ In y (push_targets graph.nodes (cur ∷ seen) n.edges stack)
          → Reaches graph y
      entered n e y (inl (inl q)) = known y (inr (inl q))
      entered n e y (inl (inr q)) = known y (inl q)
      entered n e y (inr q) = elim (In-push_targets graph.nodes (cur ∷ seen) n.edges stack y q) [
        | inl old ↦ known y (inr (inr old))
        | inr new ↦ along (known cur (inr (inl refl))) (n, e, new)
      ]

      step :
          (o : Option Node) (b : Bool)
          → lookup cur graph.nodes ≡ o
          → ((seen' stack' : List Text)
              → ((y : Text) → In y seen' ⊎ In y stack' → Reaches graph y)
              → In x (search fuel graph.nodes seen' stack')
              → Reaches graph x)
          → In x (
              search fuel graph.nodes
                (enter graph.nodes cur o b seen stack).0
                (enter graph.nodes cur o b seen stack).1)
          → Reaches graph x
      step none b e rest g = rest seen stack (λ y. later y) g
      step (some n) true e rest g = rest seen stack (λ y. later y) g
      step (some n) false e rest g = rest _ _ (entered n e) g

  -- What is seen stays.
  search-keeps :
      (fuel : ℕ) (seen stack : List Text) (x : Text)
      → In x seen
      → In x (search fuel graph.nodes seen stack)
  unfolding search
  search-keeps zero seen stack x h = h
  search-keeps (suc fuel) seen [] x h = h
  search-keeps (suc fuel) seen (cur ∷ stack) x h =
      search-keeps fuel _ _ x (entered (lookup cur graph.nodes) (member cur seen))
    where
      entered : (o : Option Node) (b : Bool) → In x (enter graph.nodes cur o b seen stack).0
      entered none b = h
      entered (some n) true = h
      entered (some n) false = inr h

  -- The targets of what is seen are seen or on the stack.
  abbrev Pending : List Text → List Text → Type 0
  Pending seen stack =
      (x t : Text)
      → In x seen
      → IsEdge graph x t
      → has_key t graph.nodes ≡ true
      → In t seen ⊎ In t stack

  abbrev IsClosed : List Text → Type 0
  IsClosed xs = (x t : Text) → In x xs → IsEdge graph x t → has_key t graph.nodes ≡ true → In t xs

  abbrev Found : List Text → List Text → Type 0
  Found stack xs = ((x : Text) → In x stack → has_key x graph.nodes ≡ true → In x xs) × IsClosed xs

  left_alone : (seen : List Text) → Pending seen [] → Found [] seen
  left_alone seen p =
      ((λ x h k. elim h [ ]), λ x t h e k. elim (p x t h e k) [ inl q ↦ q | inr q ↦ elim q [ ] ])

  absent : (cur : Text) → lookup cur graph.nodes ≡ none → has_key cur graph.nodes ≡ true → ⊥
  absent cur e k = let (n, f) = has_key-lookup cur graph.nodes k in clash (sym e ∙ f)
    where
      clash : {m : Node} → none ≡ some m → ⊥
      clash q = cc

  In-along : {x y : Text} (xs : List Text) → x ≡ y → In y xs → In x xs
  In-along {x} {y} xs e h = subst (λ z. In z xs) (sym e) h

  -- A node that is popped and not entered is no node, or seen.
  skip :
      (cur : Text) (seen stack : List Text)
      → (has_key cur graph.nodes ≡ true → In cur seen)
      → Pending seen (cur ∷ stack)
      → Pending seen stack
  skip cur seen stack known p x t h e k = elim (p x t h e k) [
    | inl q ↦ inl q
    | inr (inl q) ↦ inl (In-along seen q (known (ap (λ y. has_key y graph.nodes) (sym q) ∙ k)))
    | inr (inr q) ↦ inr q
  ]

  widen :
      (cur : Text) (stack xs : List Text)
      → (has_key cur graph.nodes ≡ true → In cur xs)
      → Found stack xs
      → Found (cur ∷ stack) xs
  widen cur stack xs known (found, closed) = (
    (λ x h k. elim h [
      | inl q ↦ In-along xs q (known (ap (λ y. has_key y graph.nodes) (sym q) ∙ k))
      | inr q ↦ found x q k
    ]),
    closed,
  )

  enter-Pending :
      (cur : Text) (n : Node) (seen stack : List Text)
      → lookup cur graph.nodes ≡ some n
      → Pending seen (cur ∷ stack)
      → Pending (cur ∷ seen) (push_targets graph.nodes (cur ∷ seen) n.edges stack)
  enter-Pending cur n seen stack e p x t (inl q) (m, f, target) k =
      push_targets-has graph.nodes (cur ∷ seen) n.edges stack t
        (subst (λ es. HasTarget t es) (ap edges_at (sym f ∙ ap (λ y. lookup y graph.nodes) q ∙ e))
          target)
        k
  enter-Pending cur n seen stack e p x t (inr q) edge k = elim (p x t q edge k) [
    | inl r ↦ inl (inr r)
    | inr (inl r) ↦ inl (inl r)
    | inr (inr r) ↦ inr (push_targets-keeps graph.nodes (cur ∷ seen) n.edges stack t r)
  ]

  search-Found :
      (fuel : ℕ) (seen stack : List Text)
      → length stack + fresh_edges seen graph.nodes ≤ fuel
      → Pending seen stack
      → Found stack (search fuel graph.nodes seen stack)
  unfolding search
  search-Found zero seen [] bound p = left_alone seen p
  search-Found zero seen (cur ∷ stack) bound p = absurd (omega (arith, bound))
  search-Found (suc fuel) seen [] bound p = left_alone seen p
  search-Found (suc fuel) seen (cur ∷ stack) bound p =
      step (lookup cur graph.nodes) (member cur seen) refl refl
        (λ seen' stack' bound' p'. search-Found fuel seen' stack' bound' p')
    where
      step :
          (o : Option Node) (b : Bool)
          → lookup cur graph.nodes ≡ o
          → member cur seen ≡ b
          → ((seen' stack' : List Text)
              → length stack' + fresh_edges seen' graph.nodes ≤ fuel
              → Pending seen' stack'
              → Found stack' (search fuel graph.nodes seen' stack'))
          → Found (cur ∷ stack) (
              search fuel graph.nodes
                (enter graph.nodes cur o b seen stack).0
                (enter graph.nodes cur o b seen stack).1)
      step none b e m rest =
          widen cur stack _ (λ k. absurd (absent cur e k))
            (rest seen stack (omega (arith, bound))
              (skip cur seen stack (λ k. absurd (absent cur e k)) p))
      step (some n) true e m rest =
          let here : In cur seen = member-In cur seen m in
          widen cur stack _ (λ k. search-keeps fuel seen stack cur here)
            (rest seen stack (omega (arith, bound)) (skip cur seen stack (λ k. here) p))
      step (some n) false e m rest =
          let pushed_stack : List Text = push_targets graph.nodes (cur ∷ seen) n.edges stack in
          let (found, closed) =
            rest (cur ∷ seen) pushed_stack
              (omega (
                arith,
                bound,
                length-push_targets graph.nodes (cur ∷ seen) n.edges stack,
                fresh_edges-enter cur n seen graph.nodes e m,
              ))
              (enter-Pending cur n seen stack e p) in
          widen cur stack _ (λ k. search-keeps fuel (cur ∷ seen) pushed_stack cur (inl refl))
            (
              (λ x h k. found x (push_targets-keeps graph.nodes (cur ∷ seen) n.edges stack x h) k),
              closed,
            )

  -- What is seen are nodes.
  search-has_key :
      (fuel : ℕ) (seen stack : List Text) (x : Text)
      → ((y : Text) → In y seen → has_key y graph.nodes ≡ true)
      → In x (search fuel graph.nodes seen stack)
      → has_key x graph.nodes ≡ true
  unfolding search
  search-has_key zero seen stack x are_nodes h = are_nodes x h
  search-has_key (suc fuel) seen [] x are_nodes h = are_nodes x h
  search-has_key (suc fuel) seen (cur ∷ stack) x are_nodes h =
      search-has_key fuel _ _ x (entered (lookup cur graph.nodes) (member cur seen) refl) h
    where
      entered :
          (o : Option Node) (b : Bool)
          → lookup cur graph.nodes ≡ o
          → (y : Text) → In y (enter graph.nodes cur o b seen stack).0
          → has_key y graph.nodes ≡ true
      entered none b e y q = are_nodes y q
      entered (some n) true e y q = are_nodes y q
      entered (some n) false e y (inl q) =
          ap (λ z. has_key z graph.nodes) q ∙ lookup-has_key cur n graph.nodes e
      entered (some n) false e y (inr q) = are_nodes y q

  start-Found : Found (graph.start ∷ []) (reachable graph)
  unfolding reachable
  start-Found =
      search-Found (suc (edge_count graph.nodes)) [] (graph.start ∷ [])
        (omega (arith, fresh_edges-nil graph.nodes)) (λ x t h. elim h [ ])

  Reaches-In : (x : Text) → Reaches graph x → has_key x graph.nodes ≡ true → In x (reachable graph)
  Reaches-In x at_start k = start-Found.0 graph.start (inl refl) k
  Reaches-In x (along {x = y} r (n, f, target)) k =
      start-Found.1 y x (Reaches-In y r (lookup-has_key y n graph.nodes f)) (n, f, target) k

  -- `_reachable` finds the nodes to which edges lead from the start, and no other.
  pub reachable_iff :
      (x : Text)
      → (member x (reachable graph) ≡ true) ↔ (Reaches graph x × (has_key x graph.nodes ≡ true))
  unfolding reachable
  reachable_iff x = (
    (λ h.
        let found : In x (reachable graph) = member-In x (reachable graph) h in
        (
          search-Reaches (suc (edge_count graph.nodes)) [] (graph.start ∷ [])
              (λ y q. elim q [
                | inl r ↦ elim r [ ]
                | inr r ↦ elim r [
                  | inl e ↦ subst (Reaches graph) (sym e) at_start
                  | inr z ↦ elim z [ ]
                ]
              ])
              x found,
          search-has_key (suc (edge_count graph.nodes)) [] (graph.start ∷ []) x (λ y q. elim q [ ])
              found,
        )),
    (λ (r, k). In-member x (reachable graph) (Reaches-In x r k)),
  )

-- ===== src/Telemetry/Quantizer/Gathered.antt =====
-- The atoms of all edges of a flow (adapters/telemetry/quantizer.py, `_flow_atoms`): every edge's atoms are
-- gathered under their fields, and each field is there once.
use prismpath.Base.{
  Option, none, some, Bool, true, false, not, ◌||◌, if◌then◌else◌, List, [], ◌∷◌, ◌++◌, ◌≡◌, ◌⊎◌,
  refl, sym, ap, subst, ◌∙◌, inl, inr,
}
use prismpath.Base.Text.{Text, text_eq, text_eq_iff, lower}
use prismpath.Base.Dict.{Dict, lookup, lookup_or, insert, lookup-insert, lookup-insert_self}
use prismpath.Graph.{Node, Graph, Edge}
use prismpath.Predicates.Syntax.{Expr}
use prismpath.Predicates.Condition.{is_deterministic, is_semantic, expr_of, is_always, is_never}
use prismpath.Telemetry.Quantizer.{
  Atom, FieldAtom, atoms, add_atoms, edge_atoms, node_atoms, nodes_atoms, flow_atoms,
}
use prismpath.Telemetry.Quantizer.Decisions.{HasAtom}

abbrev pub In : Atom → List Atom → Type 0
In a [] = ⊥
In a (b ∷ ats) = (a ≡ b) ⊎ In a ats

In-append_left : (a : Atom) (xs ys : List Atom) → In a xs → In a (xs ++ ys)
In-append_left a [] ys h = elim h [ ]
In-append_left a (b ∷ xs) ys (inl e) = inl e
In-append_left a (b ∷ xs) ys (inr h) = inr (In-append_left a xs ys h)

In-append_last : (a : Atom) (xs : List Atom) → In a (xs ++ a ∷ [])
In-append_last a [] = inl refl
In-append_last a (b ∷ xs) = inr (In-append_last a xs)

-- The atom is among those of its field.
abbrev pub Holds : FieldAtom → Dict (List Atom) → Type 0
Holds (x, a) fields = In a (lookup_or [] x fields)

abbrev add_one : FieldAtom → Dict (List Atom) → Dict (List Atom)
add_one (y, b) fields = insert y (lookup_or [] y fields ++ b ∷ []) fields

lookup_or-insert_self :
    (x : Text) (v : List Atom) (fields : Dict (List Atom)) → lookup_or [] x (insert x v fields) ≡ v
lookup_or-insert_self x v fields =
    ap (λ o. elim o [ none ↦ [] | some u ↦ u ]) (lookup-insert_self x v fields)

add_one-Holds : (p : FieldAtom) (fields : Dict (List Atom)) → Holds p (add_one p fields)
add_one-Holds (x, a) fields =
    subst (In a) (sym (lookup_or-insert_self x _ fields)) (In-append_last a (lookup_or [] x fields))

add_one-keeps :
    (p q : FieldAtom) (fields : Dict (List Atom)) → Holds p fields → Holds p (add_one q fields)
add_one-keeps (x, a) (y, b) fields h = at (text_eq y x) refl
  where
    at : (t : Bool) → text_eq y x ≡ t → Holds (x, a) (add_one (y, b) fields)
    at true e =
        subst (λ z. In a (lookup_or [] z (add_one (y, b) fields))) ((text_eq_iff y x).0 e)
          (subst (In a) (sym (lookup_or-insert_self y _ fields)) (
            In-append_left a (lookup_or [] y fields) (b ∷ [])
              (subst (λ z. In a (lookup_or [] z fields)) (sym ((text_eq_iff y x).0 e)) h)))
    at false e =
        subst (λ o. In a (elim o [ none ↦ [] | some v ↦ v ]))
          (sym (
            lookup-insert y x (lookup_or [] y fields ++ b ∷ []) fields
            ∙ ap (λ t. if t then some (lookup_or [] y fields ++ b ∷ []) else lookup x fields) e))
          h

add_atoms-keeps :
    (p : FieldAtom) (ats : List FieldAtom) (fields : Dict (List Atom))
    → Holds p fields
    → Holds p (add_atoms ats fields)
add_atoms-keeps p [] fields h = h
add_atoms-keeps p ((y, b) ∷ ats) fields h =
    add_atoms-keeps p ats (add_one (y, b) fields) (add_one-keeps p (y, b) fields h)

add_atoms-Holds :
    (p : FieldAtom) (ats : List FieldAtom) (fields : Dict (List Atom))
    → HasAtom p ats
    → Holds p (add_atoms ats fields)
add_atoms-Holds p [] fields h = elim h [ ]
add_atoms-Holds p ((y, b) ∷ ats) fields (inl e) =
    add_atoms-keeps p ats (add_one (y, b) fields)
      (subst (λ q. Holds p (add_one q fields)) e (add_one-Holds p fields))
add_atoms-Holds p ((y, b) ∷ ats) fields (inr h) = add_atoms-Holds p ats (add_one (y, b) fields) h

-- The edge is one of the node's, and the node is in the flow.
abbrev pub OfNode : Text → List Edge → Type 0
OfNode c [] = ⊥
OfNode c ((t, k) ∷ es) = (c ≡ k) ⊎ OfNode c es

abbrev pub OfFlow : Text → Dict Node → Type 0
OfFlow c [] = ⊥
OfFlow c ((x, n) ∷ d) = OfNode c n.edges ⊎ OfFlow c d

-- A predicate that is no keyword.
pub record IsPredicate (c : Text) : Type 0 where
  pub deterministic : is_deterministic c ≡ true
  pub no_always : is_always (lower (expr_of c)) ≡ false
  pub no_never : is_never (lower (expr_of c)) ≡ false

module _ (ast_parse : Text → Option Expr) where
  edge_atoms-keeps :
      (p : FieldAtom) (c : Text) (fields : Dict (List Atom))
      → Holds p fields
      → Holds p (edge_atoms ast_parse c fields)
  unfolding edge_atoms
  edge_atoms-keeps p c fields h =
      at (not (is_deterministic c) || is_semantic c)
        (is_always (lower (expr_of c)) || is_never (lower (expr_of c))) (ast_parse (expr_of c))
    where
      at :
          (a b : Bool) (o : Option Expr)
          → Holds p (
              if a
              then fields
              else if b
              then fields
              else elim o [ none ↦ fields | some body ↦ add_atoms (atoms body) fields ])
      at true b o = h
      at false true o = h
      at false false none = h
      at false false (some body) = add_atoms-keeps p (atoms body) fields h

  edge_atoms-Holds :
      (p : FieldAtom) (c : Text) (tree : Expr) (fields : Dict (List Atom))
      → IsPredicate c
      → ast_parse (expr_of c) ≡ some tree
      → HasAtom p (atoms tree)
      → Holds p (edge_atoms ast_parse c fields)
  unfolding edge_atoms is_semantic
  edge_atoms-Holds p c tree fields h e q =
      rw (h.deterministic, h.no_always, h.no_never, e) (add_atoms-Holds p (atoms tree) fields q)

  node_atoms-keeps :
      (p : FieldAtom) (es : List Edge) (fields : Dict (List Atom))
      → Holds p fields
      → Holds p (node_atoms ast_parse es fields)
  node_atoms-keeps p [] fields h = h
  node_atoms-keeps p ((t, k) ∷ es) fields h =
      node_atoms-keeps p es (edge_atoms ast_parse k fields) (edge_atoms-keeps p k fields h)

  nodes_atoms-keeps :
      (p : FieldAtom) (d : Dict Node) (fields : Dict (List Atom))
      → Holds p fields
      → Holds p (nodes_atoms ast_parse d fields)
  nodes_atoms-keeps p [] fields h = h
  nodes_atoms-keeps p ((x, n) ∷ d) fields h =
      nodes_atoms-keeps p d (node_atoms ast_parse n.edges fields)
        (node_atoms-keeps p n.edges fields h)

  module _ (p : FieldAtom) (c : Text) (tree : Expr) (pred : IsPredicate c)
      (parsed : ast_parse (expr_of c) ≡ some tree) (here : HasAtom p (atoms tree)) where
    node_atoms-Holds :
        (es : List Edge) (fields : Dict (List Atom))
        → OfNode c es
        → Holds p (node_atoms ast_parse es fields)
    node_atoms-Holds [] fields h = elim h [ ]
    node_atoms-Holds ((t, k) ∷ es) fields (inl e) =
        node_atoms-keeps p es (edge_atoms ast_parse k fields) (
          subst (λ z. Holds p (edge_atoms ast_parse z fields)) e
            (edge_atoms-Holds p c tree fields pred parsed here))
    node_atoms-Holds ((t, k) ∷ es) fields (inr h) =
        node_atoms-Holds es (edge_atoms ast_parse k fields) h

    nodes_atoms-Holds :
        (d : Dict Node) (fields : Dict (List Atom))
        → OfFlow c d
        → Holds p (nodes_atoms ast_parse d fields)
    nodes_atoms-Holds [] fields h = elim h [ ]
    nodes_atoms-Holds ((x, n) ∷ d) fields (inl h) =
        nodes_atoms-keeps p d (node_atoms ast_parse n.edges fields)
          (node_atoms-Holds n.edges fields h)
    nodes_atoms-Holds ((x, n) ∷ d) fields (inr h) =
        nodes_atoms-Holds d (node_atoms ast_parse n.edges fields) h

  pub flow_atoms-Holds :
      (graph : Graph) (p : FieldAtom) (c : Text) (tree : Expr)
      → IsPredicate c
      → ast_parse (expr_of c) ≡ some tree
      → HasAtom p (atoms tree)
      → OfFlow c graph.nodes
      → Holds p (flow_atoms ast_parse graph)
  unfolding flow_atoms
  flow_atoms-Holds graph p c tree pred parsed here h =
      nodes_atoms-Holds p c tree pred parsed here graph.nodes [] h

-- No key is there twice.
abbrev pub Distinct {ℓ} : {V : Type ℓ} → Dict V → Type ℓ
Distinct [] = Unit
Distinct {V = V} ((k, v) ∷ d) = Path (Option V) (lookup k d) none × Distinct d

insert-Distinct :
    (k : Text) (v : List Atom) (d : Dict (List Atom)) → Distinct d → Distinct (insert k v d)
insert-Distinct k v [] h = (refl, tt)
insert-Distinct k v ((j, w) ∷ d) (fresh, h) = at (text_eq j k) refl (insert-Distinct k v d h)
  where
    at :
        (b : Bool)
        → text_eq j k ≡ b
        → Distinct (insert k v d)
        → Distinct (if b then (j, v) ∷ d else (j, w) ∷ insert k v d)
    at true e later = (fresh, h)
    at false e later = (lookup-insert k j v d ∙ still (text_eq k j) refl, later)
      where
        still : (b : Bool) → text_eq k j ≡ b → (if b then some v else lookup j d) ≡ none
        still true f = absurd (differ (sym e ∙ (text_eq_iff j k).1 (sym ((text_eq_iff k j).0 f))))
          where
            differ : false ≡ true → ⊥
            differ q = cc
        still false f = fresh

add_atoms-Distinct :
    (ats : List FieldAtom) (fields : Dict (List Atom))
    → Distinct fields
    → Distinct (add_atoms ats fields)
add_atoms-Distinct [] fields h = h
add_atoms-Distinct ((y, b) ∷ ats) fields h =
    add_atoms-Distinct ats (add_one (y, b) fields) (insert-Distinct y _ fields h)

module _ (ast_parse : Text → Option Expr) where
  edge_atoms-Distinct :
      (c : Text) (fields : Dict (List Atom))
      → Distinct fields
      → Distinct (edge_atoms ast_parse c fields)
  unfolding edge_atoms
  edge_atoms-Distinct c fields h =
      at (not (is_deterministic c) || is_semantic c)
        (is_always (lower (expr_of c)) || is_never (lower (expr_of c))) (ast_parse (expr_of c))
    where
      at :
          (a b : Bool) (o : Option Expr)
          → Distinct (
              if a
              then fields
              else if b
              then fields
              else elim o [ none ↦ fields | some body ↦ add_atoms (atoms body) fields ])
      at true b o = h
      at false true o = h
      at false false none = h
      at false false (some body) = add_atoms-Distinct (atoms body) fields h

  node_atoms-Distinct :
      (es : List Edge) (fields : Dict (List Atom))
      → Distinct fields
      → Distinct (node_atoms ast_parse es fields)
  node_atoms-Distinct [] fields h = h
  node_atoms-Distinct ((t, k) ∷ es) fields h =
      node_atoms-Distinct es (edge_atoms ast_parse k fields) (edge_atoms-Distinct k fields h)

  nodes_atoms-Distinct :
      (d : Dict Node) (fields : Dict (List Atom))
      → Distinct fields
      → Distinct (nodes_atoms ast_parse d fields)
  nodes_atoms-Distinct [] fields h = h
  nodes_atoms-Distinct ((x, n) ∷ d) fields h =
      nodes_atoms-Distinct d (node_atoms ast_parse n.edges fields)
        (node_atoms-Distinct n.edges fields h)

  pub flow_atoms-Distinct : (graph : Graph) → Distinct (flow_atoms ast_parse graph)
  unfolding flow_atoms
  flow_atoms-Distinct graph = nodes_atoms-Distinct graph.nodes [] tt

-- ===== src/Analysis/Reach/Stack.antt =====
-- The stack of the search of `_reachable` (prismpath/analysis.py), after targets are pushed.
use prismpath.Base.{
  Option, none, some, Bool, true, false, not, ◌&&◌, if◌then◌else◌, List, [], ◌∷◌, ◌≡◌, ◌⊎◌, refl,
  sym, ap, ◌∙◌, arith, Bool-cases, inl, inr,
}
use prismpath.Base.Text.{Text, text_eq, text_eq_iff}
use prismpath.Base.Dict.{Dict, lookup, has_key}
use prismpath.Graph.{Node, Edge}
use prismpath.Engine.Walk.{HasTarget}
use prismpath.Analysis.Reach.{member, push_targets}

-- `x` is one of `xs`.
abbrev pub In : Text → List Text → Type 0
In x [] = ⊥
In x (y ∷ ys) = (x ≡ y) ⊎ In x ys

pub In-member : (x : Text) (xs : List Text) → In x xs → member x xs ≡ true
In-member x [] h = elim h [ ]
In-member x (y ∷ ys) (inl e) = rw ((text_eq_iff x y).1 e)
In-member x (y ∷ ys) (inr h) = ground (arith, In-member x ys h)

pub member-In : (x : Text) (xs : List Text) → member x xs ≡ true → In x xs
member-In x [] h = cc
member-In x (y ∷ ys) h = elim (Bool-cases (text_eq x y)) [
  | inl e ↦ inl ((text_eq_iff x y).0 e)
  | inr e ↦ inr (member-In x ys (rw e at h))
]

pub lookup-has_key :
    (x : Text) (n : Node) (d : Dict Node) → lookup x d ≡ some n → has_key x d ≡ true
lookup-has_key x n d e = ground (arith, e)

pub has_key-lookup :
    (x : Text) (d : Dict Node) → has_key x d ≡ true → (n : Node) × (lookup x d ≡ some n)
has_key-lookup x d h = found (lookup x d) refl h
  where
    found :
        (o : Option Node)
        → lookup x d ≡ o
        → (elim o [ none ↦ false | some _ ↦ true ]) ≡ true
        → (n : Node) × (lookup x d ≡ some n)
    found none e k = cc
    found (some n) e k = (n, e)

-- One target that is pushed, or not.
pub pushed :
    (b : Bool) (t x : Text) (stack : List Text)
    → In x (if b then t ∷ stack else stack)
    → (x ≡ t) ⊎ In x stack
pushed true t x stack h = h
pushed false t x stack h = inr h

pushed-keeps :
    (b : Bool) (t x : Text) (stack : List Text) → In x stack → In x (if b then t ∷ stack else stack)
pushed-keeps true t x stack h = inr h
pushed-keeps false t x stack h = h

pushed-here :
    (b : Bool) (t x : Text) (stack : List Text)
    → b ≡ true
    → x ≡ t
    → In x (if b then t ∷ stack else stack)
pushed-here true t x stack h e = inl e
pushed-here false t x stack h e = cc

both : (a b : Bool) → a ≡ true → b ≡ false → (a && not b) ≡ true
both a b h k = ground (arith, h, k)

module _ (nodes : Dict Node) (seen : List Text) where
  -- What `push_targets` leaves on the stack: what was there, and targets.
  pub In-push_targets :
      (es : List Edge) (stack : List Text) (x : Text)
      → In x (push_targets nodes seen es stack)
      → In x stack ⊎ HasTarget x es
  unfolding push_targets
  In-push_targets [] stack x h = inl h
  In-push_targets ((t, c) ∷ es) stack x h = elim (In-push_targets es _ x h) [
    | inl k ↦ elim (pushed (has_key t nodes && not (member t seen)) t x stack k) [
      | inl e ↦ inr (inl e)
      | inr q ↦ inl q
    ]
    | inr k ↦ inr (inr k)
  ]

  pub push_targets-keeps :
      (es : List Edge) (stack : List Text) (x : Text)
      → In x stack
      → In x (push_targets nodes seen es stack)
  unfolding push_targets
  push_targets-keeps [] stack x h = h
  push_targets-keeps ((t, c) ∷ es) stack x h =
      push_targets-keeps es _ x (pushed-keeps _ t x stack h)

  -- Each target that is a node is seen or on the stack.
  pub push_targets-has :
      (es : List Edge) (stack : List Text) (x : Text)
      → HasTarget x es
      → has_key x nodes ≡ true
      → In x seen ⊎ In x (push_targets nodes seen es stack)
  unfolding push_targets
  push_targets-has [] stack x h k = elim h [ ]
  push_targets-has ((t, c) ∷ es) stack x (inr h) k = push_targets-has es _ x h k
  push_targets-has ((t, c) ∷ es) stack x (inl e) k = elim (Bool-cases (member t seen)) [
    | inl m ↦ inl (member-In x seen (rw e m))
    | inr m ↦ inr (
        push_targets-keeps es _ x (
          pushed-here _ t x stack
            (both (has_key t nodes) (member t seen) (ap (λ y. has_key y nodes) (sym e) ∙ k) m) e))
  ]

-- ===== src/Telemetry/Quantizer/Decisions.antt =====
-- Conditions that are decided by comparisons with integers (prismpath/predicates.py), and the atoms that
-- the quantizer takes from them (adapters/telemetry/quantizer.py, `_atoms`).
use prismpath.Base.{
  ℕ, ◌+◌, some, none, true, false, not, if◌then◌else◌, Option, Bool, List, [], ◌∷◌, ◌++◌, ltb,
  is_nil, ◌≡◌, ◌⊎◌, refl, sym, ap, subst, ◌∙◌, arith, inl, inr, Bool-cases,
}
use prismpath.Base.Int.{ℤ}
use prismpath.Base.Text.{Text}
use prismpath.Base.Dict.{Dict, lookup_or}
use prismpath.Base.Maybe.{◌>>=◌}
use prismpath.Predicates.Value as V
use prismpath.Predicates.Value.{Value, truthy, py_compare, py_eq}
use prismpath.Predicates.Syntax.{
  Expr, Exprs, bool_op, compare, name, constant, unary_op, UnaryOp, BoolOp, then_compare, end, nil,
  cons, CmpOp, fold_unary_signs, fold_all, disallowed,
}
use prismpath.Predicates.Eval.{ev, ev_all, compare_values, guard_depth, max_depth, join}
use prismpath.Predicates.Condition.{eval_tree}
use prismpath.Telemetry.Quantizer.{
  cut, FieldAtom, flip_op, atoms, atoms_all, compare_atoms, num_cut, atom_true,
}
use prismpath.Telemetry.Quantizer.Signs.{is_cut}

-- Built by `and`, `or` and `not` from comparisons of a field with an integer, by an order or an equality.
mutual
  pub data DecidedByCuts : Expr → Type 0 where
    connective : {op : BoolOp} {es : Exprs} → AllDecided es → DecidedByCuts (bool_op op es)
    negation : {e : Expr} → DecidedByCuts e → DecidedByCuts (unary_op UnaryOp.not e)
    field_first :
        {op : CmpOp} {x : Text} {k : ℤ}
        → is_cut op ≡ true
        → DecidedByCuts (compare (name x) (then_compare op (constant (V.int k)) end))
    constant_first :
        {op : CmpOp} {x : Text} {k : ℤ}
        → is_cut op ≡ true
        → DecidedByCuts (compare (constant (V.int k)) (then_compare op (name x) end))

  pub data AllDecided : Exprs → Type 0 where
    none_left : AllDecided nil
    one_more : {e : Expr} {es : Exprs} → DecidedByCuts e → AllDecided es → AllDecided (cons e es)

-- The atom is one of the list.
abbrev pub HasAtom : FieldAtom → List FieldAtom → Type 0
HasAtom a [] = ⊥
HasAtom a (b ∷ ats) = (a ≡ b) ⊎ HasAtom a ats

pub HasAtom-left : (a : FieldAtom) (xs ys : List FieldAtom) → HasAtom a xs → HasAtom a (xs ++ ys)
HasAtom-left a [] ys h = elim h [ ]
HasAtom-left a (b ∷ xs) ys (inl e) = inl e
HasAtom-left a (b ∷ xs) ys (inr h) = inr (HasAtom-left a xs ys h)

pub HasAtom-right : (a : FieldAtom) (xs ys : List FieldAtom) → HasAtom a ys → HasAtom a (xs ++ ys)
HasAtom-right a [] ys h = h
HasAtom-right a (b ∷ xs) ys h = inr (HasAtom-right a xs ys h)

-- A comparison of integers is what the quantizer takes its atom for.
pub compare_values-atom_true :
    (op : CmpOp) (v k : ℤ)
    → is_cut op ≡ true
    → compare_values op (V.int v) (V.int k) ≡ some (atom_true (num_cut op k) v)
unfolding compare_values py_compare py_eq atom_true
compare_values-atom_true CmpOp.lt v k h = ground arith
compare_values-atom_true CmpOp.lt_e v k h = ground arith
compare_values-atom_true CmpOp.gt v k h = ground arith
compare_values-atom_true CmpOp.gt_e v k h = ground arith
compare_values-atom_true CmpOp.eq v k h = ground arith
compare_values-atom_true CmpOp.not_eq v k h = ground arith
compare_values-atom_true _ v k h = cc

compare_values-flip_op :
    (op : CmpOp) (v k : ℤ)
    → is_cut op ≡ true
    → compare_values op (V.int k) (V.int v) ≡ compare_values (flip_op op) (V.int v) (V.int k)
unfolding compare_values py_compare py_eq
compare_values-flip_op CmpOp.lt v k h = ground arith
compare_values-flip_op CmpOp.lt_e v k h = ground arith
compare_values-flip_op CmpOp.gt v k h = ground arith
compare_values-flip_op CmpOp.gt_e v k h = ground arith
compare_values-flip_op CmpOp.eq v k h = ground arith
compare_values-flip_op CmpOp.not_eq v k h = ground arith
compare_values-flip_op _ v k h = cc

atoms-field_first :
    (op : CmpOp) (x : Text) (k : ℤ)
    → is_cut op ≡ true
    → atoms (compare (name x) (then_compare op (constant (V.int k)) end))
      ≡ (x, cut op (V.int k)) ∷ []
unfolding atoms compare_atoms
atoms-field_first CmpOp.lt x k h = refl
atoms-field_first CmpOp.lt_e x k h = refl
atoms-field_first CmpOp.gt x k h = refl
atoms-field_first CmpOp.gt_e x k h = refl
atoms-field_first CmpOp.eq x k h = refl
atoms-field_first CmpOp.not_eq x k h = refl
atoms-field_first _ x k h = cc

atoms-constant_first :
    (op : CmpOp) (x : Text) (k : ℤ)
    → is_cut op ≡ true
    → atoms (compare (constant (V.int k)) (then_compare op (name x) end))
      ≡ (x, cut (flip_op op) (V.int k)) ∷ []
unfolding atoms compare_atoms
atoms-constant_first CmpOp.lt x k h = refl
atoms-constant_first CmpOp.lt_e x k h = refl
atoms-constant_first CmpOp.gt x k h = refl
atoms-constant_first CmpOp.gt_e x k h = refl
atoms-constant_first CmpOp.eq x k h = refl
atoms-constant_first CmpOp.not_eq x k h = refl
atoms-constant_first _ x k h = cc

guard_depth-bind :
    (d : ℕ) (a : Value) (f : Value → Option Value)
    → (guard_depth d (some a) >>= f) ≡ guard_depth d (f a)
guard_depth-bind d a f = elim (Bool-cases (ltb max_depth d)) [
  | inl t ↦ rw t refl
  | inr t ↦ rw t refl
]

-- Two contexts give the fields integers on which the atoms agree.
abbrev pub Agree : Dict Value → Dict Value → List FieldAtom → Type 0
Agree ctx ctx' ats =
    (x : Text) (op : CmpOp) (k : ℤ)
    → HasAtom (x, cut op (V.int k)) ats
    → (v r : ℤ) × (lookup_or V.null x ctx ≡ V.int v)
      × (lookup_or V.null x ctx' ≡ V.int r)
      × (compare_values op (V.int v) (V.int k) ≡ compare_values op (V.int r) (V.int k))

-- The value of a single comparison, once its operands are known.
abbrev outcome_at : ℕ → Option Bool → Option Value
outcome_at d o = guard_depth d (
    guard_depth (d + 1) (
      guard_depth (d + 1)
        (o >>= λ ok. elim ok [ true ↦ some (V.bool true) | false ↦ some (V.bool false) ])))

module _ (ctx : Dict Value) where
  ev-field_first :
      (op : CmpOp) (x : Text) (k : ℤ) (d : ℕ)
      → ev ctx (compare (name x) (then_compare op (constant (V.int k)) end)) d
        ≡ outcome_at d (compare_values op (lookup_or V.null x ctx) (V.int k))
  unfolding ev
  ev-field_first op x k d = ap (guard_depth d) (
      guard_depth-bind (d + 1) (lookup_or V.null x ctx) _
      ∙ ap (guard_depth (d + 1)) (guard_depth-bind (d + 1) (V.int k) _))

  ev-constant_first :
      (op : CmpOp) (x : Text) (k : ℤ) (d : ℕ)
      → ev ctx (compare (constant (V.int k)) (then_compare op (name x) end)) d
        ≡ outcome_at d (compare_values op (V.int k) (lookup_or V.null x ctx))
  unfolding ev
  ev-constant_first op x k d = ap (guard_depth d) (
      guard_depth-bind (d + 1) (V.int k) _
      ∙ ap (guard_depth (d + 1)) (guard_depth-bind (d + 1) (lookup_or V.null x ctx) _))

module _ (ctx ctx' : Dict Value) where
  mutual
    unfolding ev atoms

    ev-DecidedByCuts :
        {e : Expr} (d : ℕ) → DecidedByCuts e → Agree ctx ctx' (atoms e) → ev ctx e d ≡ ev ctx' e d
    ev-DecidedByCuts d (connective {op = op} {es = es} h) agree =
        ap (λ o. guard_depth d (o >>= λ vs. some (V.bool (join op vs))))
          (ev_all-AllDecided (d + 1) h agree)
    ev-DecidedByCuts d (negation {e = e} h) agree =
        ap (λ o. guard_depth d (o >>= λ v. some (V.bool (not (truthy v)))))
          (ev-DecidedByCuts (d + 1) h agree)
    ev-DecidedByCuts d (field_first {op = op} {x = x} {k = k} h) agree =
        let (v, r, a, b, same) =
          agree x op k
            (subst (HasAtom (x, cut op (V.int k))) (sym (atoms-field_first op x k h)) (inl refl)) in
        ev-field_first ctx op x k d
        ∙ ap (outcome_at d) (
            ap (λ w. compare_values op w (V.int k)) a
            ∙ same
            ∙ ap (λ w. compare_values op w (V.int k)) (sym b))
        ∙ sym (ev-field_first ctx' op x k d)
    ev-DecidedByCuts d (constant_first {op = op} {x = x} {k = k} h) agree =
        let (v, r, a, b, same) = agree x (flip_op op) k (
          subst (HasAtom (x, cut (flip_op op) (V.int k))) (sym (atoms-constant_first op x k h))
            (inl refl)) in
        ev-constant_first ctx op x k d
        ∙ ap (outcome_at d) (
            ap (compare_values op (V.int k)) a
            ∙ compare_values-flip_op op v k h
            ∙ same
            ∙ sym (compare_values-flip_op op r k h)
            ∙ ap (compare_values op (V.int k)) (sym b))
        ∙ sym (ev-constant_first ctx' op x k d)

    ev_all-AllDecided :
        {es : Exprs} (d : ℕ)
        → AllDecided es
        → Agree ctx ctx' (atoms_all es)
        → ev_all ctx es d ≡ ev_all ctx' es d
    ev_all-AllDecided d none_left agree = refl
    ev_all-AllDecided d (one_more {e = e} {es = es} h hs) agree =
        let here =
          ev-DecidedByCuts d h
            (λ x op k q. agree x op k (HasAtom-left _ (atoms e) (atoms_all es) q)) in
        let rest =
          ev_all-AllDecided d hs
            (λ x op k q. agree x op k (HasAtom-right _ (atoms e) (atoms_all es) q)) in
        λ i. here i >>= λ v. rest i >>= λ vs. some (V.cons v vs)

-- Such a tree holds no sign to fold.
mutual
  unfolding fold_unary_signs

  fold-DecidedByCuts : {e : Expr} → DecidedByCuts e → fold_unary_signs e ≡ e
  fold-DecidedByCuts (connective {op = op} h) = ap (bool_op op) (fold-AllDecided h)
  fold-DecidedByCuts (negation h) = ap (unary_op UnaryOp.not) (fold-DecidedByCuts h)
  fold-DecidedByCuts (field_first h) = refl
  fold-DecidedByCuts (constant_first h) = refl

  fold-AllDecided : {es : Exprs} → AllDecided es → fold_all es ≡ es
  fold-AllDecided none_left = refl
  fold-AllDecided (one_more h hs) = λ i. cons (fold-DecidedByCuts h i) (fold-AllDecided hs i)

pub eval_tree-DecidedByCuts :
    (ctx ctx' : Dict Value) (e : Expr)
    → DecidedByCuts e
    → Agree ctx ctx' (atoms e)
    → eval_tree (fold_unary_signs e) ctx ≡ eval_tree (fold_unary_signs e) ctx'
unfolding eval_tree
eval_tree-DecidedByCuts ctx ctx' e h agree =
    ap (λ t. eval_tree t ctx) (fold-DecidedByCuts h)
    ∙ ap (λ o. if is_nil (disallowed e) then (o >>= λ v. some (truthy v)) else none)
        (ev-DecidedByCuts ctx ctx' 0 h agree)
    ∙ sym (ap (λ t. eval_tree t ctx') (fold-DecidedByCuts h))

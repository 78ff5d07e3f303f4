-- ===== src/ModelCheck/Chains.antt =====
-- Chained comparisons, and what they are desugared to (prismpath/model_check.py, `_desugar_chains`).
use prismpath.Base.{
  ℕ, ◌+◌, ◌≤◌, Option, some, Bool, true, false, ◌&&◌, ◌||◌, [], ◌≡◌, refl, sym, ap, ◌∙◌, arith,
  append-eq-nil, not,
}
use prismpath.Base.Dict.{Dict}
use prismpath.Base.Maybe.{◌>>=◌}
use prismpath.Predicates.Value as V
use prismpath.Predicates.Value.{Value, Values, bool, truthy}
use prismpath.Predicates.Syntax.{
  Expr, Exprs, Comparisons, constant, name, bool_op, unary_op, compare, list, tuple, other, nil,
  cons, end, then_compare, BoolOp, UnaryOp, CmpOp, u_sub, u_add, invert, disallowed, disallowed_all,
  disallowed_comparisons, disallowed_cmp, depth, depth_all, depth_comparisons,
}
use prismpath.Predicates.Eval.{
  ev, ev_all, ev_chain, compare_values, max_depth, all_truthy, any_truthy, join,
}
use prismpath.Predicates.Total.{depth-le, depth_all-le, ev-Returns, compare_values-Returns}
use prismpath.Predicates.Condition.{eval_tree}
use prismpath.ModelCheck.{desugar_chains, desugar_all, pairs}
use prismpath.ModelCheck.Deeper.{guard_depth-within, depth-higher, ev-deeper}

module _ (ctx : Dict Value) where
  -- One pair, a level above its operands.
  pair_value :
      (op : CmpOp) (l r : Expr) (v w : Value) (ok : Bool) (d : ℕ)
      → ev ctx l (d + 1) ≡ some v
      → ev ctx r (d + 1) ≡ some w
      → d ≤ max_depth
      → compare_values op v w ≡ some ok
      → ev ctx (compare l (then_compare op r end)) d ≡ some (bool ok)
  unfolding ev
  pair_value op l r v w ok d el er within c =
      guard_depth-within d _ within ∙ rw (el, er, c) (whole_pair ok)
    where
      whole_pair :
          (b : Bool)
          → Path
              (Option Value)
              (elim b [ true ↦ some (bool true) | false ↦ some (bool false) ])
              (some (bool b))
      whole_pair true = refl
      whole_pair false = refl

  -- The chain goes on where the pair is true.
  chain_on :
      (ok : Bool) (vs : Values) (cs : Comparisons) (right : Value) (d : ℕ)
      → ev_chain ctx right cs d ≡ some (bool (all_truthy vs))
      → (elim ok [ true ↦ ev_chain ctx right cs d | false ↦ some (bool false) ])
        ≡ some (bool (all_truthy (V.cons (bool ok) vs)))
  chain_on true vs cs right d h = h
  chain_on false vs cs right d h = refl

  -- The pairs of a chain are all true when the chain is.
  pairs-chain :
      (cs : Comparisons) (e : Expr) (left : Value) (d : ℕ)
      → ev ctx e (d + 1) ≡ some left
      → disallowed_comparisons cs ≡ []
      → depth_comparisons cs (d + 1) ≤ max_depth
      → (vs : Values) × (ev_all ctx (pairs e cs) d ≡ some vs)
        × (ev_chain ctx left cs d ≡ some (bool (all_truthy vs)))
  unfolding pairs ev disallowed depth
  pairs-chain end e left d r h k = (V.nil, refl, refl)
  pairs-chain (then_compare op e' cs) e left d r h k =
      let (good, rest) = append-eq-nil _ _ h in
      let (he, hcs) = append-eq-nil _ _ rest in
      let (right, r') = ev-Returns ctx e' (d + 1) he (omega arith) in
      let (ok, c) = compare_values-Returns op left right good in
      let (vs, all, chain) = pairs-chain cs e' right d r' hcs (omega arith) in
      let within_pair : d ≤ max_depth = omega (arith, k, depth-le e' (d + 1)) in
      let here : ev ctx e' d ≡ some right = ev-deeper ctx e' d he (omega arith) ∙ r' in
      (
        V.cons (bool ok) vs,
        (λ i. pair_value op e e' left right ok d r r' within_pair c i >>= λ v.
            all i >>= λ ws. some (V.cons v ws)),
        rw (here, c) (chain_on ok vs cs right d chain),
      )

  -- Two results that are both true or both false.
  abbrev Agree : Option Value → Option Value → Type 0
  Agree o p = (v w : Value) × (o ≡ some v) × (p ≡ some w) × (truthy v ≡ truthy w)

  abbrev AgreeAll : Option Values → Option Values → Type 0
  AgreeAll o p =
      (vs ws : Values) × (o ≡ some vs)
      × (p ≡ some ws)
      × (all_truthy vs ≡ all_truthy ws)
      × (any_truthy vs ≡ any_truthy ws)

  join_agree :
      (op : BoolOp) (vs ws : Values)
      → all_truthy vs ≡ all_truthy ws
      → any_truthy vs ≡ any_truthy ws
      → join op vs ≡ join op ws
  join_agree BoolOp.and vs ws a b = a
  join_agree BoolOp.or vs ws a b = b

  same-Agree :
      (e : Expr) (d : ℕ)
      → disallowed e ≡ []
      → depth e d ≤ max_depth
      → Agree (ev ctx e d) (ev ctx e d)
  same-Agree e d h k = let (v, r) = ev-Returns ctx e d h k in (v, v, r, r, refl)

  mutual
    unfolding ev disallowed depth desugar_chains

    desugar_chains-Agree :
        (e : Expr) (d : ℕ)
        → disallowed e ≡ []
        → depth e (d + 1) ≤ max_depth
        → Agree (ev ctx e d) (ev ctx (desugar_chains e) d)
    desugar_chains-Agree (bool_op op es) d h k =
        let (vs, ws, a, b, all, any) = desugar_all-AgreeAll es (d + 1) h k in
        let within : d ≤ max_depth = omega (arith, k, depth_all-le es (d + 1 + 1)) in
        (
          bool (join op vs),
          bool (join op ws),
          guard_depth-within d _ within ∙ ap (λ o. o >>= λ us. some (bool (join op us))) a,
          guard_depth-within d _ within ∙ ap (λ o. o >>= λ us. some (bool (join op us))) b,
          join_agree op vs ws all any,
        )
    desugar_chains-Agree (unary_op UnaryOp.not e) d h k =
        let (v, w, a, b, same) = desugar_chains-Agree e (d + 1) h (omega arith) in
        let within : d ≤ max_depth = omega (arith, k) in
        (
          bool (not (truthy v)),
          bool (not (truthy w)),
          guard_depth-within d _ within ∙ ap (λ o. o >>= λ u. some (bool (not (truthy u)))) a,
          guard_depth-within d _ within ∙ ap (λ o. o >>= λ u. some (bool (not (truthy u)))) b,
          ap not same,
        )
    desugar_chains-Agree (compare e (then_compare op r (then_compare op' r' cs))) d h k =
        let chain : Comparisons = then_compare op r (then_compare op' r' cs) in
        let (he, hcs) = append-eq-nil _ _ h in
        let within : d ≤ max_depth = omega (arith, k, depth-le e (d + 1 + 1)) in
        let (left, el) = ev-Returns ctx e (d + 1 + 1) he (omega arith) in
        let (vs, all, whole) = pairs-chain chain e left (d + 1) el hcs (omega arith) in
        let el' : ev ctx e (d + 1) ≡ some left = ev-deeper ctx e (d + 1) he (omega arith) ∙ el in
        (
          bool (all_truthy vs),
          bool (all_truthy vs),
          guard_depth-within d _ within
              ∙ ap (λ o. o >>= λ v. ev_chain ctx v chain (d + 1)) el'
              ∙ whole,
          guard_depth-within d _ within ∙ ap (λ o. o >>= λ us. some (bool (all_truthy us))) all,
          refl,
        )
    desugar_chains-Agree (compare e end) d h k =
        same-Agree (compare e end) d h (depth-higher (compare e end) d k)
    desugar_chains-Agree (compare e (then_compare op r end)) d h k =
        same-Agree (compare e (then_compare op r end)) d h
          (depth-higher (compare e (then_compare op r end)) d k)
    desugar_chains-Agree (constant v) d h k =
        same-Agree (constant v) d h (depth-higher (constant v) d k)
    desugar_chains-Agree (name x) d h k = same-Agree (name x) d h (depth-higher (name x) d k)
    desugar_chains-Agree (unary_op u_sub e) d h k = cc
    desugar_chains-Agree (unary_op u_add e) d h k = cc
    desugar_chains-Agree (unary_op invert e) d h k = cc
    desugar_chains-Agree (list es) d h k = same-Agree (list es) d h (depth-higher (list es) d k)
    desugar_chains-Agree (tuple es) d h k = same-Agree (tuple es) d h (depth-higher (tuple es) d k)
    desugar_chains-Agree (other t es) d h k = cc

    desugar_all-AgreeAll :
        (es : Exprs) (d : ℕ)
        → disallowed_all es ≡ []
        → depth_all es (d + 1) ≤ max_depth
        → AgreeAll (ev_all ctx es d) (ev_all ctx (desugar_all es) d)
    desugar_all-AgreeAll nil d h k = (V.nil, V.nil, refl, refl, refl, refl)
    desugar_all-AgreeAll (cons e es) d h k =
        let (he, hes) = append-eq-nil _ _ h in
        let (v, w, a, b, same) = desugar_chains-Agree e d he (omega arith) in
        let (vs, ws, as', bs, all, any) = desugar_all-AgreeAll es d hes (omega arith) in
        (
          V.cons v vs,
          V.cons w ws,
          λ i. a i >>= λ u. as' i >>= λ us. some (V.cons u us),
          λ i. b i >>= λ u. bs i >>= λ us. some (V.cons u us),
          λ i. same i && all i,
          λ i. same i || any i,
        )

disallowed_all-pairs :
    (e : Expr) (cs : Comparisons)
    → disallowed e ≡ []
    → disallowed_comparisons cs ≡ []
    → disallowed_all (pairs e cs) ≡ []
unfolding disallowed pairs
disallowed_all-pairs e end h k = refl
disallowed_all-pairs e (then_compare op r cs) h k =
    let (good, rest) = append-eq-nil (disallowed_cmp op) _ k in
    let (hr, hcs) = append-eq-nil (disallowed r) (disallowed_comparisons cs) rest in
    rw (h, good, hr) (disallowed_all-pairs r cs hr hcs)

mutual
  unfolding disallowed desugar_chains

  disallowed-desugar_chains : (e : Expr) → disallowed e ≡ [] → disallowed (desugar_chains e) ≡ []
  disallowed-desugar_chains (bool_op op es) h = disallowed_all-desugar_all es h
  disallowed-desugar_chains (unary_op UnaryOp.not e) h = disallowed-desugar_chains e h
  disallowed-desugar_chains (compare e (then_compare op r (then_compare op' r' cs))) h =
      let (he, hcs) = append-eq-nil _ _ h in
      disallowed_all-pairs e (then_compare op r (then_compare op' r' cs)) he hcs
  disallowed-desugar_chains (compare e end) h = h
  disallowed-desugar_chains (compare e (then_compare op r end)) h = h
  disallowed-desugar_chains (constant v) h = h
  disallowed-desugar_chains (name x) h = h
  disallowed-desugar_chains (unary_op u_sub e) h = h
  disallowed-desugar_chains (unary_op u_add e) h = h
  disallowed-desugar_chains (unary_op invert e) h = h
  disallowed-desugar_chains (list es) h = h
  disallowed-desugar_chains (tuple es) h = h
  disallowed-desugar_chains (other t es) h = h

  disallowed_all-desugar_all :
      (es : Exprs) → disallowed_all es ≡ [] → disallowed_all (desugar_all es) ≡ []
  disallowed_all-desugar_all nil h = refl
  disallowed_all-desugar_all (cons e es) h =
      let (he, hes) = append-eq-nil _ _ h in
      rw (disallowed-desugar_chains e he) (disallowed_all-desugar_all es hes)

-- A tree that the sandbox allows, and that is nested less deep than it allows, is as true after its chains
-- are desugared as before, in every context.
pub desugar_chains-eval_tree :
    (tree : Expr) (ctx : Dict Value)
    → disallowed tree ≡ []
    → depth tree 1 ≤ max_depth
    → (b : Bool) × (eval_tree tree ctx ≡ some b) × (eval_tree (desugar_chains tree) ctx ≡ some b)
unfolding eval_tree
desugar_chains-eval_tree tree ctx h k =
    let (v, w, a, b, same) = desugar_chains-Agree ctx tree 0 h k in
    (truthy v, rw (h, a) refl, rw (disallowed-desugar_chains tree h, b) (ap some (sym same)))

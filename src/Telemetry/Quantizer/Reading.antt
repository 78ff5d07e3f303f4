-- ===== src/Telemetry/Quantizer/Reading.antt =====
-- A reading of a flow whose fields are numeric, quantized and reconstructed
-- (adapters/telemetry/quantizer.py, `build_partitions`, `quantize` and `reconstruct`): the conditions of
-- the flow decide alike.
use prismpath.Base.{
  ℕ, Option, none, some, Bool, true, false, if◌then◌else◌, List, [], ◌∷◌, All, ◌≡◌, refl, sym, ap,
  subst, ◌∙◌, arith,
}
use prismpath.Base.Int.{ℤ}
use prismpath.Base.Maybe.{◌>>=◌}
use prismpath.Base.Text.{Text, text_eq, text_eq_iff, lower}
use prismpath.Base.Dict.{Dict, lookup, lookup_or}
use prismpath.Graph.{Graph}
use prismpath.Predicates.Value as V
use prismpath.Predicates.Value.{Value}
use prismpath.Predicates.Syntax.{Expr, CmpOp, fold_unary_signs}
use prismpath.Predicates.Eval.{compare_values}
use prismpath.Predicates.Condition.{eval_condition, eval_tree, expr_of, is_always, is_never}
use prismpath.Telemetry.Quantizer.{
  Atom, cut, Partition, partitions_of, build_partitions, flow_atoms, symbol, representative_of,
  quantize, reconstruct,
}
use prismpath.Telemetry.Quantizer.Decisions.{DecidedByCuts, eval_tree-DecidedByCuts}
use prismpath.Telemetry.Quantizer.Gathered.{
  In, OfFlow, IsPredicate, Distinct, flow_atoms-Holds, flow_atoms-Distinct,
}
use prismpath.Telemetry.Quantizer.Fields.{IsNumericField, IsInt, SameFor, one_field}

abbrev fields_of : Option (List Atom) → List Atom
fields_of o = elim o [ none ↦ [] | some ats ↦ ats ]

abbrev value_of : Option Value → Value
value_of o = elim o [ none ↦ V.null | some v ↦ v ]

-- The two readings have integers on which the atoms of their fields agree.
abbrev SameAt : Dict Value → Dict Value → Text → CmpOp → ℤ → Type 0
SameAt reading reading' x op k =
    (v r : ℤ) × (lookup_or V.null x reading ≡ V.int v)
    × (lookup_or V.null x reading' ≡ V.int r)
    × (compare_values op (V.int v) (V.int k) ≡ compare_values op (V.int r) (V.int k))

abbrev Kept : Dict (List Atom) → Dict Value → Dict Value → Type 0
Kept fields reading reading' =
    (x : Text) (op : CmpOp) (k : ℤ)
    → In (cut op (V.int k)) (lookup_or [] x fields)
    → SameAt reading reading' x op k

-- Each entry is found under its key.
abbrev FoundIn : Dict Partition → Dict Partition → Type 0
FoundIn whole parts = All (λ (e : Text × Partition). lookup e.0 whole ≡ some e.1) parts

Kept-cons :
    (x : Text) (ats : List Atom) (v r : ℤ) (fields : Dict (List Atom)) (reading rest : Dict Value)
    → lookup x reading ≡ some (V.int v)
    → SameFor ats v r
    → Kept fields reading rest
    → Kept ((x, ats) ∷ fields) reading ((x, V.int r) ∷ rest)
Kept-cons x ats v r fields reading rest found same kept y op k h = at (text_eq x y) refl h
  where
    at :
        (t : Bool)
        → text_eq x y ≡ t
        → In (cut op (V.int k)) (fields_of (if text_eq x y then some ats else lookup y fields))
        → SameAt reading ((x, V.int r) ∷ rest) y op k
    at true e q = (
      v,
      r,
      ap value_of (ap (λ z. lookup z reading) (sym ((text_eq_iff x y).0 e)) ∙ found),
      ap (λ t. value_of (if t then some (V.int r) else lookup y rest)) e,
      same op k (
          subst (λ t. In (cut op (V.int k)) (fields_of (if t then some ats else lookup y fields))) e
            q),
    )
    at false e q =
        let (u, s, a, b, eq) = kept y op k (
          subst (λ t. In (cut op (V.int k)) (fields_of (if t then some ats else lookup y fields))) e
            q) in
        (u, s, a, ap (λ t. value_of (if t then some (V.int r) else lookup y rest)) e ∙ b, eq)

lookup-fresh :
    {A B : Type 0} (x k : Text) (a : A) (b : B) (d : Dict A) (d' : Dict B)
    → (lookup k d ≡ none → lookup k d' ≡ none)
    → lookup k ((x, a) ∷ d) ≡ none
    → lookup k ((x, b) ∷ d') ≡ none
lookup-fresh x k a b d d' h e = ground (arith, h, e)

-- What becomes of the fields, one after another.
record Quantized (fields : Dict (List Atom)) (reading : Dict Value) : Type 0 where
  parts : Dict Partition
  built : partitions_of fields ≡ some parts
  no_more : (k : Text) → lookup k fields ≡ none → lookup k parts ≡ none
  distinct : Distinct fields → Distinct parts
  symbols : Dict ℕ
  quantized : quantize parts reading ≡ some symbols
  restored : Dict Value
  reconstructed :
      (whole : Dict Partition) → FoundIn whole parts → reconstruct whole symbols ≡ some restored
  kept : Kept fields reading restored

every_field :
    (fields : Dict (List Atom)) (reading : Dict Value)
    → All (λ (e : Text × List Atom). IsNumericField e.1) fields
    → All (λ (e : Text × List Atom). IsInt (lookup e.0 reading)) fields
    → Quantized fields reading
unfolding partitions_of quantize reconstruct
every_field [] reading h ints = record {
  parts = [];
  built = refl;
  no_more = λ k e. refl;
  distinct = λ d. tt;
  symbols = [];
  quantized = refl;
  restored = [];
  reconstructed = λ whole found. refl;
  kept = λ x op k q. elim q [ ];
}
every_field ((x, ats) ∷ fields) reading (h, hs) ((v, found), ints) =
    let (p, i, r, pe, se, re, same) = one_field ats v h in
    let q = every_field fields reading hs ints in
    record {
      parts = (x, p) ∷ q.parts;
      built = λ j. pe j >>= λ p'. q.built j >>= λ rest. some ((x, p') ∷ rest);
      no_more = λ k e. lookup-fresh x k ats p fields q.parts (q.no_more k) e;
      distinct = λ d. (q.no_more x d.0, q.distinct d.1);
      symbols = (x, i) ∷ q.symbols;
      quantized =
          ap
            (λ (o : Option Value). elim o [
              | none ↦ quantize q.parts reading
              | some w ↦
                  (symbol p w >>= λ s. quantize q.parts reading >>= λ rest. some ((x, s) ∷ rest))
            ])
            found
          ∙ (λ j. se j >>= λ s. q.quantized j >>= λ rest. some ((x, s) ∷ rest));
      restored = (x, V.int r) ∷ q.restored;
      reconstructed = λ whole f.
          ap
            (λ (o : Option Partition). elim o [
              | none ↦ reconstruct whole q.symbols
              | some p' ↦
                  (representative_of p' i >>= λ w.
                  reconstruct whole q.symbols >>= λ rest. some ((x, w) ∷ rest))
            ])
            f.0
          ∙ (λ j. re j >>= λ w. q.reconstructed whole f.1 j >>= λ rest. some ((x, w) ∷ rest));
      kept = Kept-cons x ats v r fields reading q.restored found same q.kept;
    }

-- Behind an entry with another key, what was found is found.
FoundIn-cons :
    (x : Text) (p : Partition) (whole parts : Dict Partition)
    → lookup x whole ≡ none
    → FoundIn whole parts
    → FoundIn ((x, p) ∷ whole) parts
FoundIn-cons x p whole [] fresh h = tt
FoundIn-cons x p whole ((y, p') ∷ parts) fresh (h, hs) =
    (at (text_eq x y) refl, FoundIn-cons x p whole parts fresh hs)
  where
    clash : some p' ≡ none → ⊥
    clash q = cc

    at : (t : Bool) → text_eq x y ≡ t → lookup y ((x, p) ∷ whole) ≡ some p'
    at true e =
        absurd (clash (sym h ∙ (ap (λ z. lookup z whole) (sym ((text_eq_iff x y).0 e)) ∙ fresh)))
    at false e = ap (λ t. if t then some p else lookup y whole) e ∙ h

Distinct-FoundIn : (parts : Dict Partition) → Distinct parts → FoundIn parts parts
Distinct-FoundIn [] h = tt
Distinct-FoundIn ((x, p) ∷ parts) (fresh, h) = (
  ap (λ t. if t then some p else lookup x parts) ((text_eq_iff x x).1 refl),
  FoundIn-cons x p parts parts fresh (Distinct-FoundIn parts h),
)

eval_condition-same :
    (ast_parse : Text → Option Expr) (c : Text) (tree : Expr) (ctx ctx' : Dict Value)
    → ast_parse (expr_of c) ≡ some tree
    → eval_tree (fold_unary_signs tree) ctx ≡ eval_tree (fold_unary_signs tree) ctx'
    → eval_condition ast_parse c ctx ≡ eval_condition ast_parse c ctx'
unfolding eval_condition
eval_condition-same ast_parse c tree ctx ctx' p e =
    at (is_always (lower (expr_of c))) (is_never (lower (expr_of c)))
  where
    at :
        (a n : Bool)
        → (if a
            then some true
            else if n
            then some false
            else (ast_parse (expr_of c) >>= λ t. eval_tree (fold_unary_signs t) ctx))
          ≡ (if a
              then some true
              else if n
              then some false
              else (ast_parse (expr_of c) >>= λ t. eval_tree (fold_unary_signs t) ctx'))
    at true n = refl
    at false true = refl
    at false false = rw p e

-- The quantizer preserves decisions. In a flow whose fields are only compared with integers, by an order or
-- an equality, as far as the quantizer's atoms say, and for a reading with an integer for each field:
-- the partitions are built, the reading is quantized and reconstructed, and each predicate on an edge of
-- the flow that is built by and, or and not from such comparisons is evaluated to the same over the
-- reading and over what is reconstructed.
pub reconstruct-quantize :
    (ast_parse : Text → Option Expr) (graph : Graph) (reading : Dict Value) (c : Text) (tree : Expr)
    → All (λ (e : Text × List Atom). IsNumericField e.1) (flow_atoms ast_parse graph)
    → All (λ (e : Text × List Atom). IsInt (lookup e.0 reading)) (flow_atoms ast_parse graph)
    → OfFlow c graph.nodes
    → IsPredicate c
    → ast_parse (expr_of c) ≡ some tree
    → DecidedByCuts tree
    → (parts : Dict Partition) × (symbols : Dict ℕ) × (restored : Dict Value) × (build_partitions
          ast_parse graph
        ≡ some parts)
      × (quantize parts reading ≡ some symbols)
      × (reconstruct parts symbols ≡ some restored)
      × (eval_condition ast_parse c reading ≡ eval_condition ast_parse c restored)
unfolding build_partitions
reconstruct-quantize ast_parse graph reading c tree numeric_fields ints of_flow pred p decided =
    let q = every_field (flow_atoms ast_parse graph) reading numeric_fields ints in
    (
      q.parts,
      q.symbols,
      q.restored,
      q.built,
      q.quantized,
      q.reconstructed q.parts
          (Distinct-FoundIn q.parts (q.distinct (flow_atoms-Distinct ast_parse graph))),
      eval_condition-same ast_parse c tree reading q.restored p (
          eval_tree-DecidedByCuts reading q.restored tree decided (λ x op k h.
            q.kept x op k
              (flow_atoms-Holds ast_parse graph (x, cut op (V.int k)) c tree pred p h of_flow))),
    )

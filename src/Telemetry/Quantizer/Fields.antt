-- ===== src/Telemetry/Quantizer/Fields.antt =====
-- A field that is only compared with integers (adapters/telemetry/quantizer.py, `_classify_kind` and
-- `FieldPartition`): its partition is numeric, and its comparisons are as true of a representative.
use prismpath.Base.{
  ℕ, Option, some, Bool, true, false, List, [], ◌∷◌, any, ◌≡◌, refl, sym, ap, subst, ◌∙◌, inl, inr,
}
use prismpath.Base.Int.{ℤ}
use prismpath.Base.Maybe.{◌>>=◌}
use prismpath.Predicates.Value as V
use prismpath.Predicates.Value.{Value}
use prismpath.Predicates.Syntax.{CmpOp}
use prismpath.Predicates.Eval.{compare_values}
use prismpath.Telemetry.Quantizer.{
  Atom, cut, NumAtom, num_cut, num_atoms, int_of, atom_true, truths, numeric_cells, Partition,
  numeric, flat, is_str, partition_of, symbol, representative_of,
}
use prismpath.Telemetry.Quantizer.Signs.{is_cut}
use prismpath.Telemetry.Quantizer.Spans.{CutsOnly}
use prismpath.Telemetry.Quantizer.Cells.{symbol-representative_of}
use prismpath.Telemetry.Quantizer.Decisions.{compare_values-atom_true}
use prismpath.Telemetry.Quantizer.Gathered.{In}

-- Only comparisons with integers, by an order or an equality.
abbrev IntCuts : List Atom → Type 0
IntCuts [] = Unit
IntCuts (cut op (V.int k) ∷ ats) = (is_cut op ≡ true) × IntCuts ats
IntCuts _ = ⊥

-- The field is compared with integers, and is nothing else.
abbrev pub IsNumericField : List Atom → Type 0
IsNumericField [] = ⊥
IsNumericField (a ∷ ats) = IntCuts (a ∷ ats)

-- The reading has an integer there.
abbrev pub IsInt : Option Value → Type 0
IsInt o = (v : ℤ) × (o ≡ some (V.int v))

-- The atoms compare the two numbers alike.
abbrev pub SameFor : List Atom → ℤ → ℤ → Type 0
SameFor ats v r =
    (op : CmpOp) (k : ℤ)
    → In (cut op (V.int k)) ats
    → compare_values op (V.int v) (V.int k) ≡ compare_values op (V.int r) (V.int k)

heads : {a b : Bool} {as' bs : List Bool} → a ∷ as' ≡ b ∷ bs → a ≡ b
heads h = cc

tails : {a b : Bool} {as' bs : List Bool} → a ∷ as' ≡ b ∷ bs → as' ≡ bs
tails h = cc

same_op : (op op' : CmpOp) (k k' : ℤ) → cut op (V.int k) ≡ cut op' (V.int k') → op' ≡ op
same_op op op' k k' e = cc

same_constant : (op op' : CmpOp) (k k' : ℤ) → cut op (V.int k) ≡ cut op' (V.int k') → k' ≡ k
same_constant op op' k k' e = cc

compare_values-same :
    (op : CmpOp) (v r k : ℤ)
    → is_cut op ≡ true
    → atom_true (num_cut op k) v ≡ atom_true (num_cut op k) r
    → compare_values op (V.int v) (V.int k) ≡ compare_values op (V.int r) (V.int k)
compare_values-same op v r k h e =
    compare_values-atom_true op v k h ∙ ap some e ∙ sym (compare_values-atom_true op r k h)

num_atoms-IntCuts :
    (ats : List Atom)
    → IntCuts ats
    → (nums : List NumAtom) × (num_atoms ats ≡ some nums)
      × CutsOnly nums
      × ((v r : ℤ) → truths nums v ≡ truths nums r → SameFor ats v r)
unfolding num_atoms int_of truths
num_atoms-IntCuts [] h = ([], refl, tt, λ v r e op k q. elim q [ ])
num_atoms-IntCuts (cut op (V.int k) ∷ ats) (h, hs) =
    let (nums, e, only, same) = num_atoms-IntCuts ats hs in
    (
      num_cut op k ∷ nums,
      ap (λ o. o >>= λ rest. some (num_cut op k ∷ rest)) e,
      only,
      λ v r t op' k' q. elim q [
        | inl f ↦
            subst
              (λ p. compare_values p (V.int v) (V.int k') ≡ compare_values p (V.int r) (V.int k'))
              (same_op op' op k' k f)
              (subst
                (λ c. compare_values op (V.int v) (V.int c) ≡ compare_values op (V.int r) (V.int c))
                (same_constant op' op k' k f) (compare_values-same op v r k h (heads t)))
        | inr z ↦ same v r (tails t) op' k' z
      ],
    )
num_atoms-IntCuts _ h = absurd h

no_strings : (ats : List Atom) → IntCuts ats → any is_str (flat ats) ≡ false
no_strings [] h = refl
no_strings (cut op (V.int k) ∷ ats) (h, hs) = no_strings ats hs
no_strings _ h = absurd h

partition_of-numeric :
    (ats : List Atom) (nums : List NumAtom)
    → IsNumericField ats
    → num_atoms ats ≡ some nums
    → partition_of ats ≡ some (numeric (numeric_cells nums))
unfolding partition_of
partition_of-numeric (cut op (V.int k) ∷ ats) nums (h, hs) e = rw (no_strings ats hs, e) refl
partition_of-numeric _ nums h e = absurd h

IsNumericField-IntCuts : (ats : List Atom) → IsNumericField ats → IntCuts ats
IsNumericField-IntCuts [] h = absurd h
IsNumericField-IntCuts (a ∷ ats) h = h

-- A field on its own.
pub one_field :
    (ats : List Atom) (v : ℤ)
    → IsNumericField ats
    → (p : Partition) × (i : ℕ) × (r : ℤ) × (partition_of ats ≡ some p)
      × (symbol p (V.int v) ≡ some i)
      × (representative_of p i ≡ some (V.int r))
      × SameFor ats v r
one_field ats v h =
    let (nums, e, only, same) = num_atoms-IntCuts ats (IsNumericField-IntCuts ats h) in
    let (i, r, s, t, truth) = symbol-representative_of nums v only in
    (numeric (numeric_cells nums), i, r, partition_of-numeric ats nums h e, s, t, same v r truth)

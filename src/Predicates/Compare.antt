-- ===== src/Predicates/Compare.antt =====
-- `_compare` and its table (prismpath/predicates.py).
use prismpath.Base.{some, Bool, not, ◌≡◌, refl, arith}
use prismpath.Predicates.Value.{Value}
use prismpath.Predicates.Syntax.{CmpOp}
use prismpath.Predicates.Eval.{compare_values}

abbrev pub flipped : CmpOp → CmpOp
flipped CmpOp.eq = CmpOp.not_eq
flipped CmpOp.not_eq = CmpOp.eq
flipped CmpOp.is_in = CmpOp.not_in
flipped CmpOp.not_in = CmpOp.is_in
flipped op = op

-- `!=` is the negation of `==` and `not in` of `in`, for any two values: also where `in` raises a
-- TypeError inside `_compare`.
pub compare_values-flipped :
    (op : CmpOp) (v w : Value) (b : Bool)
    → (flipped op ≡ op → ⊥)
    → compare_values op v w ≡ some b
    → compare_values (flipped op) v w ≡ some (not b)
unfolding compare_values
compare_values-flipped CmpOp.eq v w b d h = ground arith
compare_values-flipped CmpOp.not_eq v w b d h = ground arith
compare_values-flipped CmpOp.is_in v w b d h = ground arith
compare_values-flipped CmpOp.not_in v w b d h = ground arith
compare_values-flipped _ v w b d h = absurd (d refl)

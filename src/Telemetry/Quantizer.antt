-- ===== src/Telemetry/Quantizer.antt =====
-- The partition of a field's values by the constants that a flow compares it with
-- (adapters/telemetry/quantizer.py). `none` is an exception: a field that mixes kinds, or a value that
-- `int` refuses.
pub mod Sorted
pub mod Spans
pub mod Cells
pub mod Signs
pub mod Decisions
pub mod Gathered
pub mod Fields
pub mod Reading
use prismpath.Base.{
  ℕ, zero, suc, Option, none, some, Bool, true, false, not, ◌&&◌, ◌||◌, if◌then◌else◌, List, [],
  ◌∷◌, ◌++◌, is_nil, any, all, map, length, get_elem?,
}
use prismpath.Base.Int.{ℤ, pos, suc_ℤ, pred_ℤ, leb_ℤ, eq_ℤ}
use prismpath.Base.Text.{Text, codes, lower}
use prismpath.Base.Maybe.{◌>>=◌}
use prismpath.Base.Dict.{Dict, lookup, lookup_or, insert}
use prismpath.Graph.{Node, Graph, Edge}
use prismpath.Predicates.Value as V
use prismpath.Predicates.Value.{Value, Values, py_eq, truthy, int_of_bool}
use prismpath.Predicates.Syntax.{
  Expr, Exprs, Comparisons, constant, name, bool_op, unary_op, compare, list, tuple, other, nil,
  cons, end, then_compare, UnaryOp, CmpOp,
}
use prismpath.Predicates.Condition.{is_deterministic, is_semantic, expr_of, is_always, is_never}
use prismpath.Engine.Run.{int_of_text}

-- One of the six comparisons with a constant, a membership (or its negation), or truthiness.
pub data Atom : Type 0 where
  cut : CmpOp → Value → Atom
  member : Bool → List Value → Atom
  truth : Atom

abbrev pub FieldAtom : Type 0
FieldAtom = Text × Atom

-- `_FLIP`, of an order or an equality.
abbrev pub flip_op : CmpOp → CmpOp
flip_op CmpOp.lt = CmpOp.gt
flip_op CmpOp.gt = CmpOp.lt
flip_op CmpOp.lt_e = CmpOp.gt_e
flip_op CmpOp.gt_e = CmpOp.lt_e
flip_op op = op

-- The constants of a list, if all elements are constants.
abbrev constants_of : Exprs → Option (List Value)
constants_of nil = some []
constants_of (cons (constant v) es) = constants_of es >>= λ vs. some (v ∷ vs)
constants_of (cons e es) = none

abbrev member_atoms : Text → Bool → Option (List Value) → List FieldAtom
member_atoms x negated none = []
member_atoms x negated (some vs) = (x, member negated vs) ∷ []

abbrev membership : Bool → Expr → Expr → List FieldAtom
membership negated (name x) (list es) = member_atoms x negated (constants_of es)
membership negated (name x) (tuple es) = member_atoms x negated (constants_of es)
membership negated left right = []

abbrev comparison : CmpOp → Expr → Expr → List FieldAtom
comparison op (name x) (constant v) = (x, cut op v) ∷ []
comparison op (constant v) (name x) = (x, cut (flip_op op) v) ∷ []
comparison op left right = []

unfoldable pub compare_atoms : CmpOp → Expr → Expr → List FieldAtom
compare_atoms CmpOp.is_in left right = membership false left right
compare_atoms CmpOp.not_in left right = membership true left right
compare_atoms CmpOp.is left right = []
compare_atoms CmpOp.is_not left right = []
compare_atoms op left right = comparison op left right

abbrev single : Expr → Comparisons → List FieldAtom
single left (then_compare op right end) = compare_atoms op left right
single left cs = []

-- `_atoms`
unfoldable mutual
  unfolding compare_atoms

  pub atoms : Expr → List FieldAtom
  atoms (bool_op op es) = atoms_all es
  atoms (unary_op UnaryOp.not e) = atoms e
  atoms (name x) = (x, truth) ∷ []
  atoms (compare e cs) = single e cs
  atoms e = []

  pub atoms_all : Exprs → List FieldAtom
  atoms_all nil = []
  atoms_all (cons e es) = atoms e ++ atoms_all es

-- `fields.setdefault(field, []).append(…)`
abbrev pub add_atoms : List FieldAtom → Dict (List Atom) → Dict (List Atom)
add_atoms [] fields = fields
add_atoms ((x, a) ∷ ats) fields = add_atoms ats (insert x (lookup_or [] x fields ++ a ∷ []) fields)

-- `none` of the parser is a SyntaxError here. A ValueError of `ast.parse`, which this loop lets through, is
-- left out.
module _ (ast_parse : Text → Option Expr) where
  -- One edge; the tree is read as it was parsed.
  unfoldable pub edge_atoms : Text → Dict (List Atom) → Dict (List Atom)
  unfolding atoms
  edge_atoms cond fields =
      let low = lower (expr_of cond) in
      if not (is_deterministic cond) || is_semantic cond
      then fields
      else if is_always low || is_never low
      then fields
      else elim (ast_parse (expr_of cond)) [
        | none ↦ fields
        | some body ↦ add_atoms (atoms body) fields
      ]

  abbrev pub node_atoms : List Edge → Dict (List Atom) → Dict (List Atom)
  node_atoms [] fields = fields
  node_atoms ((t, c) ∷ es) fields = node_atoms es (edge_atoms c fields)

  abbrev pub nodes_atoms : Dict Node → Dict (List Atom) → Dict (List Atom)
  nodes_atoms [] fields = fields
  nodes_atoms ((x, n) ∷ d) fields = nodes_atoms d (node_atoms n.edges fields)

  -- `_flow_atoms`
  unfoldable pub flow_atoms : Graph → Dict (List Atom)
  unfolding edge_atoms
  flow_atoms graph = nodes_atoms graph.nodes []

-- `int(v)`
unfoldable pub int_of : Value → Option ℤ
unfolding int_of_text
int_of (V.int n) = some n
int_of (V.bool b) = some (int_of_bool b)
int_of (V.str s) = int_of_text s
int_of _ = none

-- The atoms of a numeric field, its constants read by `int`.
pub data NumAtom : Type 0 where
  num_cut : CmpOp → ℤ → NumAtom
  num_member : Bool → List Value → NumAtom
  num_truth : NumAtom

unfoldable pub num_atoms : List Atom → Option (List NumAtom)
unfolding int_of
num_atoms [] = some []
num_atoms (cut op v ∷ ats) = int_of v >>= λ n. num_atoms ats >>= λ rest. some (num_cut op n ∷ rest)
num_atoms (member negated vs ∷ ats) = num_atoms ats >>= λ rest. some (num_member negated vs ∷ rest)
num_atoms (truth ∷ ats) = num_atoms ats >>= λ rest. some (num_truth ∷ rest)

-- `_atom_true`, of an integer.
unfoldable pub atom_true : NumAtom → ℤ → Bool
atom_true (num_cut CmpOp.lt k) v = not (leb_ℤ k v)
atom_true (num_cut CmpOp.lt_e k) v = leb_ℤ v k
atom_true (num_cut CmpOp.gt k) v = not (leb_ℤ v k)
atom_true (num_cut CmpOp.gt_e k) v = leb_ℤ k v
atom_true (num_cut CmpOp.eq k) v = eq_ℤ v k
atom_true (num_cut CmpOp.not_eq k) v = not (eq_ℤ v k)
atom_true (num_cut op k) v = false
atom_true (num_member negated vs) v =
    if negated then not (any (py_eq (V.int v)) vs) else any (py_eq (V.int v)) vs
atom_true num_truth v = not (eq_ℤ v (pos 0))

-- `truth(v)`
unfoldable pub truths : List NumAtom → ℤ → List Bool
unfolding atom_true
truths [] v = []
truths (a ∷ ats) v = atom_true a v ∷ truths ats v

-- `sorted({…})`
unfoldable pub insert_int : ℤ → List ℤ → List ℤ
insert_int n [] = n ∷ []
insert_int n (m ∷ ms) =
    let rest = insert_int n ms in
    if eq_ℤ n m then m ∷ ms else if leb_ℤ n m then n ∷ m ∷ ms else m ∷ rest

unfoldable pub sorted_constants : List NumAtom → List ℤ
unfolding insert_int
sorted_constants [] = []
sorted_constants (num_cut op n ∷ ats) = insert_int n (sorted_constants ats)
sorted_constants (a ∷ ats) = sorted_constants ats

-- An interval; `none` is no bound.
abbrev pub Span : Type 0
Span = Option ℤ × Option ℤ

-- The constant `c`, the gap above it, and what follows.
unfoldable pub fine_from : ℤ → List ℤ → List Span
fine_from c [] = (some c, some c) ∷ (some (suc_ℤ c), none) ∷ []
fine_from c (d ∷ ds) =
    let rest = fine_from d ds in
    (some c, some c)
    ∷ (if leb_ℤ (suc_ℤ c) (pred_ℤ d) then (some (suc_ℤ c), some (pred_ℤ d)) ∷ rest else rest)

-- `rep`
unfoldable pub rep : Option ℤ → Option ℤ → ℤ
rep (some lo) hi = lo
rep none (some hi) = hi
rep none none = pos 0

pub record Cell : Type 0 where
  pub lo : Option ℤ
  pub hi : Option ℤ
  pub representative : ℤ

abbrev same_bools : List Bool → List Bool → Bool
same_bools [] [] = true
same_bools [] (c ∷ cs) = false
same_bools (b ∷ bs) [] = false
same_bools (b ∷ bs) (c ∷ cs) = (if b then c else not c) && same_bools bs cs

abbrev pub new_cell : Option ℤ → Option ℤ → Cell
new_cell lo hi = record { lo = lo; hi = hi; representative = rep lo hi }

-- A fine cell extends the cell before it if the atoms are as true in it.
unfoldable pub merge : List NumAtom → Cell → List Span → List Cell
unfolding truths rep
merge ats cell [] = cell ∷ []
merge ats cell ((lo, hi) ∷ fine) =
    let extended = merge ats (record cell { hi = hi }) fine in
    let next = merge ats (new_cell lo hi) fine in
    if same_bools (truths ats (rep lo hi)) (truths ats cell.representative)
    then extended
    else cell ∷ next

abbrev pub cells_of : List NumAtom → List ℤ → List Cell
cells_of ats [] = merge ats (new_cell none (some (pred_ℤ (pos 0)))) (fine_from (pos 0) [])
cells_of ats (c ∷ cs) = merge ats (new_cell none (some (pred_ℤ c))) (fine_from c cs)

-- `_numeric_partition`
unfoldable pub numeric_cells : List NumAtom → List Cell
unfolding merge fine_from sorted_constants
numeric_cells ats = cells_of ats (sorted_constants ats)

-- `FieldPartition`: its kind with its cells. The last cell of a categorical field is `_OTHER`.
pub data Partition : Type 0 where
  numeric : List Cell → Partition
  boolean : Partition
  categorical : List Value → Partition

-- The sentinel that equals no constant.
abbrev pub other_text : Text
other_text = 0 ∷ codes "__other__"

abbrev add_constants : List Value → List Value → List Value
add_constants [] seen = seen
add_constants (v ∷ vs) seen =
    add_constants vs (if any (λ w. py_eq w v) seen then seen else seen ++ v ∷ [])

-- What the loop adds for `truthy`: the constant None.
abbrev category_constants : Atom → List Value
category_constants (cut op v) = v ∷ []
category_constants (member negated vs) = vs
category_constants truth = V.null ∷ []

-- The constants of a categorical field.
unfoldable pub categories : List Atom → List Value → List Value
categories [] seen = seen
categories (a ∷ ats) seen = categories ats (add_constants (category_constants a) seen)

abbrev pub flat : List Atom → List Value
flat [] = []
flat (cut op v ∷ ats) = v ∷ flat ats
flat (member negated vs ∷ ats) = vs ++ flat ats
flat (truth ∷ ats) = flat ats

abbrev pub is_str : Value → Bool
is_str (V.str s) = true
is_str _ = false

abbrev pub is_int : Value → Bool
is_int (V.int n) = true
is_int _ = false

-- `_classify_kind`, and the partition of the kind.
unfoldable pub partition_of : List Atom → Option Partition
unfolding num_atoms numeric_cells categories
partition_of ats =
    let has_str = any is_str (flat ats) in
    let has_int = any is_int (flat ats) in
    if has_str && has_int
    then none
    else if has_str
    then some (categorical (categories ats []))
    else if has_int
    then (num_atoms ats >>= λ nums. some (numeric (numeric_cells nums)))
    else some boolean

unfoldable pub partitions_of : Dict (List Atom) → Option (Dict Partition)
unfolding partition_of
partitions_of [] = some []
partitions_of ((x, ats) ∷ fields) =
    partition_of ats >>= λ p. partitions_of fields >>= λ rest. some ((x, p) ∷ rest)

-- `build_partitions`
unfoldable pub build_partitions : (Text → Option Expr) → Graph → Option (Dict Partition)
unfolding partitions_of flow_atoms
build_partitions ast_parse graph = partitions_of (flow_atoms ast_parse graph)

abbrev pub above : Option ℤ → ℤ → Bool
above none v = true
above (some lo) v = leb_ℤ lo v

abbrev pub below : Option ℤ → ℤ → Bool
below none v = true
below (some hi) v = leb_ℤ v hi

abbrev pub holds : Cell → ℤ → Bool
holds c v = above c.lo v && below c.hi v

-- The index of the first cell that holds the value; `none` is a ValueError.
unfoldable pub cell_index : List Cell → ℤ → Option ℕ
cell_index [] v = none
cell_index (c ∷ cs) v =
    let later = cell_index cs v >>= λ i. some (suc i) in if holds c v then some 0 else later

abbrev category_index : List Value → Value → ℕ
category_index [] v = 0
category_index (c ∷ cs) v = let later = category_index cs v in if py_eq c v then 0 else suc later

-- `FieldPartition.symbol`
unfoldable pub symbol : Partition → Value → Option ℕ
unfolding int_of cell_index
symbol (numeric cells) v = int_of v >>= λ n. cell_index cells n
symbol boolean v = some (if truthy v then 1 else 0)
symbol (categorical cs) v = some (category_index cs v)

abbrev boolean_representative : ℕ → Option Value
boolean_representative zero = some (V.bool false)
boolean_representative (suc zero) = some (V.bool true)
boolean_representative _ = none

-- `FieldPartition.representative`; `none` is an IndexError.
unfoldable pub representative_of : Partition → ℕ → Option Value
representative_of (numeric cells) i = get_elem? cells i >>= λ c. some (V.int c.representative)
representative_of boolean i = boolean_representative i
representative_of (categorical cs) i = get_elem? (cs ++ V.str other_text ∷ []) i

-- `quantize`
unfoldable pub quantize : Dict Partition → Dict Value → Option (Dict ℕ)
unfolding symbol
quantize [] reading = some []
quantize ((x, p) ∷ parts) reading = elim (lookup x reading) [
  | none ↦ quantize parts reading
  | some v ↦ (symbol p v >>= λ i. quantize parts reading >>= λ rest. some ((x, i) ∷ rest))
]

-- `reconstruct`
unfoldable pub reconstruct : Dict Partition → Dict ℕ → Option (Dict Value)
unfolding representative_of
reconstruct parts [] = some []
reconstruct parts ((x, i) ∷ symbols) = elim (lookup x parts) [
  | none ↦ reconstruct parts symbols
  | some p ↦
      (representative_of p i >>= λ v. reconstruct parts symbols >>= λ rest. some ((x, v) ∷ rest))
]

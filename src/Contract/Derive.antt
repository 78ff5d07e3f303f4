-- ===== src/Contract/Derive.antt =====
-- `_compare_fields`, `_walk` and `derive_contract` (prismpath/contract.py). The tree is read as it was
-- parsed: its signs are not folded here.
use prismpath.Base.{
  Option, none, some, Bool, true, false, ◌||◌, not, if◌then◌else◌, List, [], ◌∷◌, any, all, is_nil,
}
use prismpath.Base.Text.{Text, codes, text_eq, lower}
use prismpath.Base.Dict.{Dict, lookup_or, insert}
use prismpath.Graph.{Node, Graph, Edge}
use prismpath.Predicates.Value as V
use prismpath.Predicates.Value.{Value}
use prismpath.Predicates.Syntax.{
  Expr, Exprs, Comparisons, constant, name, bool_op, unary_op, compare, list, tuple, nil, cons, end,
  then_compare, UnaryOp, CmpOp,
}
use prismpath.Predicates.Condition.{is_deterministic, expr_of, is_always, is_never}
use prismpath.Contract.Spec.{
  FieldType, boolean, number, enum, unknown, type_eq, FieldSpec, new_spec, add, Spec, as_dict,
}

abbrev pub engine_fields : List Text
engine_fields =
    codes "visits"
    ∷ codes "error_count"
    ∷ codes "error"
    ∷ codes "error_type"
    ∷ codes "error_message"
    ∷ []

abbrev pub type_of_literal : Value → Option FieldType
type_of_literal (V.bool b) = some boolean
type_of_literal (V.int n) = some number
type_of_literal (V.str s) = some enum
type_of_literal _ = none

abbrev Fields : Type 0
Fields = Dict FieldSpec

-- `fields.setdefault(x, FieldSpec()).add(…)`
abbrev add_to : Text → FieldType → List Value → Bool → Fields → Fields
add_to x t values ranged fields =
    insert x (add t values ranged (lookup_or new_spec x fields)) fields

-- The constants among the elements of a literal collection, and whether there is nothing else.
abbrev constants : Exprs → List Value
constants nil = []
constants (cons (constant v) es) = v ∷ constants es
constants (cons _ es) = constants es

abbrev all_constant : Exprs → Bool
all_constant nil = true
all_constant (cons (constant v) es) = all_constant es
all_constant (cons _ es) = false

abbrev has_type : FieldType → Value → Bool
has_type t v = elim (type_of_literal v) [ some u ↦ type_eq u t | none ↦ false ]

abbrev has_no_type : Value → Bool
has_no_type v = elim (type_of_literal v) [ some u ↦ false | none ↦ true ]

-- `==` or `!=` against `other`.
abbrev equality_use : Text → Expr → Fields → Fields
equality_use x (constant v) fields = elim (type_of_literal v) [
  | some number ↦ add_to x number (v ∷ []) false fields
  | some enum ↦ add_to x enum (v ∷ []) false fields
  | some t ↦ add_to x t [] false fields
  | none ↦ add_to x unknown [] false fields
]
equality_use x _ fields = add_to x unknown [] false fields

-- `in` or `not in` against the elements of a list or tuple. Elements that all lack a type, such as
-- `[None]`, only make the field known.
abbrev collection_use : Text → Exprs → Fields → Fields
collection_use x es fields =
    let vals = constants es in
    if not (all_constant es) || is_nil vals
    then add_to x unknown [] false fields
    else if all (has_type enum) vals
    then add_to x enum vals false fields
    else if all (has_type number) vals
    then add_to x number vals false fields
    else if all (has_type boolean) vals
    then add_to x boolean [] false fields
    else if all has_no_type vals
    then insert x (lookup_or new_spec x fields) fields
    else add_to x unknown [] false fields

abbrev membership_use : Text → Expr → Fields → Fields
membership_use x (list es) fields = collection_use x es fields
membership_use x (tuple es) fields = collection_use x es fields
membership_use x _ fields = insert x (lookup_or new_spec x fields) fields

abbrev field_use : CmpOp → Text → Expr → Fields → Fields
field_use CmpOp.lt x e fields = add_to x number [] true fields
field_use CmpOp.lt_e x e fields = add_to x number [] true fields
field_use CmpOp.gt x e fields = add_to x number [] true fields
field_use CmpOp.gt_e x e fields = add_to x number [] true fields
field_use CmpOp.eq x e fields = equality_use x e fields
field_use CmpOp.not_eq x e fields = equality_use x e fields
field_use CmpOp.is_in x e fields = membership_use x e fields
field_use CmpOp.not_in x e fields = membership_use x e fields
field_use _ x e fields = insert x (lookup_or new_spec x fields) fields

-- One comparison of a chain: the name is on the left, else on the right, else it says nothing.
abbrev pair_use : CmpOp → Expr → Expr → Fields → Fields
pair_use op (name x) right fields = field_use op x right fields
pair_use op left (name x) fields = field_use op x left fields
pair_use op left right fields = fields

-- `_compare_fields`
unfoldable pub compare_fields : Expr → Comparisons → Fields → Fields
compare_fields left end fields = fields
compare_fields left (then_compare op right cs) fields =
    compare_fields right cs (pair_use op left right fields)

-- `_walk`
unfoldable mutual
  pub walk : Expr → Fields → Bool → Fields
  walk (bool_op op es) fields bool_ctx = walk_all es fields
  walk (unary_op UnaryOp.not e) fields bool_ctx = walk e fields true
  walk (compare e cs) fields bool_ctx = compare_fields e cs fields
  walk (name x) fields bool_ctx = if bool_ctx then add_to x boolean [] false fields else fields
  walk e fields bool_ctx = fields

  pub walk_all : Exprs → Fields → Fields
  walk_all nil fields = fields
  walk_all (cons e es) fields = walk_all es (walk e fields true)

module _ (ast_parse : Text → Option Expr) where
  unfoldable pub edge_fields : Text → Fields → Fields
  edge_fields condition fields =
      let expr = expr_of condition in
      let low = lower expr in
      if not (is_deterministic condition) || is_always low || is_never low
      then fields
      else elim (ast_parse expr) [ none ↦ fields | some tree ↦ walk tree fields true ]

  abbrev pub edges_fields : List Edge → Fields → Fields
  edges_fields [] fields = fields
  edges_fields ((_, condition) ∷ es) fields = edges_fields es (edge_fields condition fields)

  abbrev worker_specs : Fields → Dict Spec
  worker_specs [] = []
  worker_specs ((x, spec) ∷ fields) =
      if any (text_eq x) engine_fields
      then worker_specs fields
      else (x, as_dict spec) ∷ worker_specs fields

  abbrev pub node_contract : List Edge → Dict Spec
  node_contract edges = worker_specs (edges_fields edges [])

  abbrev contracts_of : Dict Node → Dict (Dict Spec)
  contracts_of [] = []
  contracts_of ((x, node) ∷ nodes) = (x, node_contract node.edges) ∷ contracts_of nodes

  unfoldable pub derive_contract : Graph → Dict (Dict Spec)
  derive_contract graph = contracts_of graph.nodes

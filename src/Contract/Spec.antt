-- ===== src/Contract/Spec.antt =====
-- `FieldSpec` (prismpath/contract.py): the type of one output field, gathered from its uses.
use prismpath.Base.{
  Option, none, some, Bool, true, false, ◌||◌, not, if◌then◌else◌, List, [], ◌∷◌, ◌++◌, any, is_nil,
}
use prismpath.Base.Text.{text_compare}
use prismpath.Base.Int.{leb_ℤ}
use Prim.Native.Nat.{Ordering}
use prismpath.Predicates.Value.{Value, int, str, py_eq}

pub data FieldType : Type 0 where
  boolean number enum unknown : FieldType

abbrev pub type_eq : FieldType → FieldType → Bool
type_eq boolean t = elim t [ boolean ↦ true | _ ↦ false ]
type_eq number t = elim t [ number ↦ true | _ ↦ false ]
type_eq enum t = elim t [ enum ↦ true | _ ↦ false ]
type_eq unknown t = elim t [ unknown ↦ true | _ ↦ false ]

-- `conflict` holds the two types that the message names.
pub record FieldSpec : Type 0 where
  pub type : FieldType
  pub values : List Value
  pub ranged : Bool
  pub conflict : Option (FieldType × FieldType)

abbrev pub new_spec : FieldSpec
new_spec = record { type = unknown; values = []; ranged = false; conflict = none }

-- `set.update`
abbrev pub update_set : List Value → List Value → List Value
update_set [] s = s
update_set (v ∷ vs) s = update_set vs (if any (py_eq v) s then s else s ++ v ∷ [])

abbrev settle : FieldType → FieldSpec → FieldSpec
settle t spec =
    if type_eq t unknown
    then spec
    else if type_eq spec.type unknown
    then record spec { type = t }
    else if type_eq spec.type t
    then spec
    else record spec {
      conflict = elim spec.conflict [ none ↦ some (spec.type, t) | some c ↦ some c ];
    }

-- `FieldSpec.add`
unfoldable pub add : FieldType → List Value → Bool → FieldSpec → FieldSpec
add t values ranged spec =
    settle t
      (record spec { values = update_set values spec.values; ranged = spec.ranged || ranged })

-- The key of the sort: the type's name, then the value. Only numbers and strings are gathered.
abbrev key_le : Value → Value → Bool
key_le (int a) (int b) = leb_ℤ a b
key_le (int a) _ = true
key_le (str s) (str t) = elim (text_compare s t) [ Ordering.gt ↦ false | _ ↦ true ]
key_le _ _ = false

abbrev insert_sorted : Value → List Value → List Value
insert_sorted v [] = v ∷ []
insert_sorted v (w ∷ ws) = if key_le v w then v ∷ w ∷ ws else w ∷ insert_sorted v ws

abbrev sorted_values : List Value → List Value
sorted_values [] = []
sorted_values (v ∷ vs) = insert_sorted v (sorted_values vs)

-- `as_dict`; an entry that the source leaves out is `none`.
pub record Spec : Type 0 where
  pub type : FieldType
  pub values : Option (List Value)
  pub conflict : Option (FieldType × FieldType)

unfoldable pub routed_values : FieldSpec → Option (List Value)
routed_values spec =
    if not (type_eq spec.type enum || type_eq spec.type number) || spec.ranged || is_nil spec.values
    then none
    else some (sorted_values spec.values)

unfoldable pub as_dict : FieldSpec → Spec
as_dict spec = record { type = spec.type; values = routed_values spec; conflict = spec.conflict }

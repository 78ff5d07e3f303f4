-- ===== src/Contract/Gate.antt =====
-- `validate_output` (prismpath/contract.py): the type gate on a worker's output.
use prismpath.Base.{
  Option, none, some, Bool, true, false, if◌then◌else◌, List, [], ◌∷◌, ◌++◌, any, is_nil,
}
use prismpath.Base.Text.{Text, codes}
use prismpath.Base.Dict.{Dict, lookup}
use prismpath.Predicates.Value.{Value, null, bool, int, str, py_eq}
use prismpath.Contract.Spec.{FieldType, boolean, number, enum, unknown, Spec}

-- The prefixes `missing:`, `type:` and `note:` of the messages, with the field.
pub data Violation : Type 0 where
  missing type note : Text → Violation

-- `_py_type_ok`
unfoldable pub py_type_ok : FieldType → Value → Bool
py_type_ok t null = true
py_type_ok boolean v = elim v [ bool _ ↦ true | _ ↦ false ]
py_type_ok number v = elim v [ int _ ↦ true | _ ↦ false ]
py_type_ok enum v = elim v [ str _ ↦ true | _ ↦ false ]
py_type_ok unknown v = true

-- `str(val)`, for the values that an enum field may have here: a string or None.
abbrev enum_text : Value → Value
enum_text null = str (codes "None")
enum_text v = v

abbrev is_routed : FieldType → Value → List Value → Bool
is_routed enum v routed = any (py_eq (enum_text v)) routed
is_routed _ v routed = any (py_eq v) routed

abbrev routed_notes : Text → Spec → Value → List Violation
routed_notes field spec v = elim spec.values [
  | none ↦ []
  | some routed ↦
      if is_nil routed then [] else if is_routed spec.type v routed then [] else note field ∷ []
]

abbrev pub field_violations : Text → Spec → Option Value → List Violation
field_violations field spec none = missing field ∷ []
field_violations field spec (some v) =
    if py_type_ok spec.type v then routed_notes field spec v else type field ∷ []

unfoldable pub validate_output : Dict Spec → Dict Value → List Violation
validate_output [] fields = []
validate_output ((field, spec) ∷ contract) fields =
    field_violations field spec (lookup field fields) ++ validate_output contract fields

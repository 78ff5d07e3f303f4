-- ===== src/Analysis/Fields.antt =====
-- What the annotations of the nodes declare (prismpath/contract.py, `declared_emits`;
-- prismpath/analysis.py, `_check_provenance`, `_derived_family`, `_check_emits_types`,
-- `_check_field_only` and `_check_spawn`). The order in which Python runs through the set of upstream
-- nodes is left to the caller: `upstream` is any list of them.
use prismpath.Base.{
  Option, none, some, Bool, true, false, not, ◌&&◌, ◌||◌, if◌then◌else◌, List, [], ◌∷◌, ◌++◌, all,
  is_nil,
}
use prismpath.Base.Text.{Text, codes, text_eq, strip, lower}
use prismpath.Base.Dict.{Dict, lookup, lookup_or, has_key, insert, keys}
use prismpath.Graph.{Node, Graph, Edge}
use prismpath.Predicates.Value as V
use prismpath.Predicates.Value.{Value}
use prismpath.Predicates.Condition.{is_semantic, is_event, event_name, spawn_join_event}
use prismpath.Contract.Spec.{boolean, number, enum, unknown, Spec}
use prismpath.Analysis.Finding.{
  Finding, warn, fail, undeclared_field, emits_type_mismatch, upstream_type_mismatch,
  field_only_violation, spawn_no_child, spawn_no_join_edge, text_le, sorted,
}
use prismpath.Analysis.Reach.{member}
use prismpath.Analysis.Routes.{over_nodes}

-- `set(node.annotations["emits"])`, or None.
unfoldable pub declared_emits : Node → Option (List Text)
declared_emits n = elim (lookup (codes "emits") n.annotations) [
  | none ↦ none
  | some anno ↦ some (keys anno)
]

-- The fields of the contract that no declaration covers.
abbrev pub undeclared : Dict Spec → List Text → List Text → List Text
undeclared [] here above = []
undeclared ((f, spec) ∷ derived) here above =
    if member f here || member f above
    then undeclared derived here above
    else f ∷ undeclared derived here above

abbrev declared_at : Option Node → List Text
declared_at none = []
declared_at (some n) = elim (declared_emits n) [ none ↦ [] | some fs ↦ fs ]

abbrev declared_by : Dict Node → List Text → List Text
declared_by nodes [] = []
declared_by nodes (u ∷ us) = declared_at (lookup u nodes) ++ declared_by nodes us

abbrev each_undeclared : Text → List Text → List Finding
each_undeclared x [] = []
each_undeclared x (f ∷ fs) = warn undeclared_field x (f ∷ []) ∷ each_undeclared x fs

-- The body of `_check_provenance`, with the node's contract and the nodes upstream of it.
unfoldable pub provenance_at : Dict Node → Dict Spec → List Text → Text → Node → List Finding
unfolding declared_emits
provenance_at nodes derived upstream x n = elim (declared_emits n) [
  | none ↦ []
  | some here ↦ each_undeclared x (sorted (undeclared derived here (declared_by nodes upstream)))
]

-- The type families: `"boolean"`, `"number"` and `"string"`.
pub data Family : Type 0 where
  booleans numbers strings : Family

abbrev pub same_family : Family → Family → Bool
same_family booleans g = elim g [ booleans ↦ true | _ ↦ false ]
same_family numbers g = elim g [ numbers ↦ true | _ ↦ false ]
same_family strings g = elim g [ strings ↦ true | _ ↦ false ]

-- `_EMIT_TYPE_FAMILY`
abbrev pub emit_type_family : Dict Family
emit_type_family =
    (codes "bool", booleans)
    ∷ (codes "boolean", booleans)
    ∷ (codes "str", strings)
    ∷ (codes "string", strings)
    ∷ (codes "text", strings)
    ∷ (codes "int", numbers)
    ∷ (codes "float", numbers)
    ∷ (codes "num", numbers)
    ∷ (codes "number", numbers)
    ∷ []

-- The family of a declared token; a bare field has no token, or an empty one.
unfoldable pub family_of : Option Text → Option Family
unfolding strip lower
family_of none = none
family_of (some []) = none
family_of (some (c ∷ cs)) = lookup (lower (strip (c ∷ cs))) emit_type_family

abbrev is_str : Value → Bool
is_str (V.str s) = true
is_str _ = false

abbrev is_int : Value → Bool
is_int (V.int n) = true
is_int _ = false

-- `spec.get("values") or []`
abbrev values_of : Option (List Value) → List Value
values_of none = []
values_of (some vs) = vs

abbrev literals_family : List Value → Option Family
literals_family vs =
    if is_nil vs
    then none
    else if all is_str vs
    then some strings
    else if all is_int vs
    then some numbers
    else none

-- `_derived_family`
unfoldable pub derived_family : Spec → Option Family
derived_family spec = elim spec.type [
  | boolean ↦ some booleans
  | number ↦ some numbers
  | enum ↦ literals_family (values_of spec.values)
  | unknown ↦ none
]

-- `have is not None and have != want`
abbrev pub disagrees : Option Family → Family → Bool
disagrees none want = false
disagrees (some have) want = not (same_family have want)

-- `sorted(emits.items())`
abbrev insert_item : Text × Option Text → Dict (Option Text) → Dict (Option Text)
insert_item (k, v) [] = (k, v) ∷ []
insert_item (k, v) ((j, w) ∷ d) =
    if text_le k j then (k, v) ∷ (j, w) ∷ d else (j, w) ∷ insert_item (k, v) d

abbrev pub sorted_items : Dict (Option Text) → Dict (Option Text)
sorted_items [] = []
sorted_items (kv ∷ d) = insert_item kv (sorted_items d)

abbrev pub emits_of : Option Node → Dict (Option Text)
emits_of none = []
emits_of (some n) = lookup_or [] (codes "emits") n.annotations

abbrev own_mismatch : Text → Text → Option Family → Option Spec → List Finding
own_mismatch x f none spec = []
own_mismatch x f (some want) none = []
own_mismatch x f (some want) (some spec) =
    if disagrees (derived_family spec) want then warn emits_type_mismatch x (f ∷ []) ∷ [] else []

abbrev own_mismatches : Text → Dict Spec → Dict (Option Text) → List Finding
own_mismatches x derived [] = []
own_mismatches x derived ((f, token) ∷ emits) =
    own_mismatch x f (family_of token) (lookup f derived) ++ own_mismatches x derived emits

-- `upstream_emits`: a later node overwrites what an earlier one declares.
abbrev add_emit : Text → Text → Option Family → Dict (Family × Text) → Dict (Family × Text)
add_emit u f none above = above
add_emit u f (some want) above = insert f (want, u) above

abbrev add_emits : Text → Dict (Option Text) → Dict (Family × Text) → Dict (Family × Text)
add_emits u [] above = above
add_emits u ((f, token) ∷ emits) above = add_emits u emits (add_emit u f (family_of token) above)

unfoldable pub upstream_emits : Dict Node → List Text → Dict (Family × Text) → Dict (Family × Text)
unfolding family_of
upstream_emits nodes [] above = above
upstream_emits nodes (u ∷ us) above =
    upstream_emits nodes us (add_emits u (emits_of (lookup u nodes)) above)

abbrev above_mismatch : Text → Text → Spec → Option (Family × Text) → List Finding
above_mismatch x f spec none = []
above_mismatch x f spec (some (want, u)) =
    if disagrees (derived_family spec) want
    then warn upstream_type_mismatch x (f ∷ u ∷ []) ∷ []
    else []

abbrev above_mismatches :
    Text → Dict (Option Text) → Dict (Family × Text) → Dict Spec → List Finding
above_mismatches x emits above [] = []
above_mismatches x emits above ((f, spec) ∷ derived) =
    (if has_key f emits then [] else above_mismatch x f spec (lookup f above))
    ++ above_mismatches x emits above derived

-- The body of `_check_emits_types`.
unfoldable pub emits_types_at : Dict Node → Dict Spec → List Text → Text → Node → List Finding
unfolding derived_family family_of upstream_emits
emits_types_at nodes derived upstream x n =
    let emits = emits_of (some n) in
    own_mismatches x derived (sorted_items emits)
    ++ above_mismatches x emits (upstream_emits nodes upstream []) derived

abbrev pub semantic_violations : Text → List Edge → List Finding
semantic_violations x [] = []
semantic_violations x ((t, c) ∷ es) =
    (if is_semantic c then fail field_only_violation x (t ∷ c ∷ []) ∷ [] else [])
    ++ semantic_violations x es

-- The body of `_check_field_only`.
unfoldable pub field_only_at : Text → Node → List Finding
unfolding declared_emits
field_only_at x n =
    if not (has_key (codes "field_only") n.annotations)
    then []
    else semantic_violations x n.edges
      ++ elim (declared_emits n) [ none ↦ fail field_only_violation x [] ∷ [] | some fs ↦ [] ]

unfoldable pub check_field_only : Graph → List Finding
unfolding field_only_at
check_field_only graph = over_nodes field_only_at graph.nodes

-- An argument of an annotation that may be missing, bare or empty.
abbrev pub given : Option (Option Text) → Option Text
given (some (some (c ∷ cs))) = some (c ∷ cs)
given _ = none

abbrev pub awaits : Text → List Edge → Bool
awaits want [] = false
awaits want ((t, c) ∷ es) = (is_event c && text_eq (event_name c) want) || awaits want es

abbrev pub join_of : Dict (Option Text) → Text
join_of spawn = spawn_join_event (given (lookup (codes "join") spawn))

abbrev spawn_findings : Text → List Edge → Option (Dict (Option Text)) → List Finding
spawn_findings x es none = []
spawn_findings x es (some spawn) =
    elim (given (lookup (codes "child") spawn)) [
      | none ↦ fail spawn_no_child x [] ∷ []
      | some t ↦ []
    ]
    ++ (if awaits (join_of spawn) es
        then []
        else fail spawn_no_join_edge x (join_of spawn ∷ []) ∷ [])

-- The body of `_check_spawn`.
unfoldable pub spawn_at : Text → Node → List Finding
spawn_at x n = spawn_findings x n.edges (lookup (codes "spawn") n.annotations)

unfoldable pub check_spawn : Graph → List Finding
unfolding spawn_at
check_spawn graph = over_nodes spawn_at graph.nodes

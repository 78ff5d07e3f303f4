-- ===== src/Predicates/Value.antt =====
-- The values that a predicate is evaluated over (prismpath/predicates.py): Python's None, bool, int,
-- str and list, with the equality, order and membership of the `operator` functions in `_CMP`.
-- Floats are left out: the predicate fragment ranges over integers.
use prismpath.Base.{Option, none, some, Bool, true, false, not, ◌&&◌, ◌||◌, if◌then◌else◌, []}
use prismpath.Base.Int.{ℤ, pos, compare_ℤ, eq_ℤ}
use prismpath.Base.Text.{Text, text_eq, text_compare, contains}
use Prim.Native.Nat.{Ordering}

mutual
  pub data Value : Type 0 where
    null : Value
    bool : Bool → Value
    int : ℤ → Value
    str : Text → Value
    list : Values → Value

  pub data Values : Type 0 where
    nil : Values
    cons : Value → Values → Values

-- `True` is 1 and `False` is 0 wherever numbers are compared.
abbrev pub int_of_bool : Bool → ℤ
int_of_bool true = pos 1
int_of_bool false = pos 0

abbrev pub eq_number : ℤ → Value → Bool
eq_number n (bool b) = eq_ℤ n (int_of_bool b)
eq_number n (int m) = eq_ℤ n m
eq_number n _ = false

-- `v == w`
unfoldable mutual
  pub py_eq : Value → Value → Bool
  py_eq null w = elim w [ null ↦ true | _ ↦ false ]
  py_eq (bool b) w = eq_number (int_of_bool b) w
  py_eq (int n) w = eq_number n w
  py_eq (str s) w = elim w [ str t ↦ text_eq s t | _ ↦ false ]
  py_eq (list xs) w = elim w [ list ys ↦ py_eq_all xs ys | _ ↦ false ]

  pub py_eq_all : Values → Values → Bool
  py_eq_all nil nil = true
  py_eq_all nil (cons y ys) = false
  py_eq_all (cons x xs) nil = false
  py_eq_all (cons x xs) (cons y ys) = py_eq x y && py_eq_all xs ys

abbrev pub compare_number : ℤ → Value → Option Ordering
compare_number n (bool b) = some (compare_ℤ n (int_of_bool b))
compare_number n (int m) = some (compare_ℤ n m)
compare_number n _ = none

-- The order behind `<`, `<=`, `>` and `>=`; `none` is a TypeError. Lists compare at the first
-- position where they differ.
unfoldable mutual
  pub py_compare : Value → Value → Option Ordering
  py_compare null w = none
  py_compare (bool b) w = compare_number (int_of_bool b) w
  py_compare (int n) w = compare_number n w
  py_compare (str s) w = elim w [ str t ↦ some (text_compare s t) | _ ↦ none ]
  py_compare (list xs) w = elim w [ list ys ↦ py_compare_all xs ys | _ ↦ none ]

  pub py_compare_all : Values → Values → Option Ordering
  py_compare_all nil nil = some Ordering.eq
  py_compare_all nil (cons y ys) = some Ordering.lt
  py_compare_all (cons x xs) nil = some Ordering.gt
  py_compare_all (cons x xs) (cons y ys) =
      let here = py_compare x y in
      let later = py_compare_all xs ys in if py_eq x y then later else here

abbrev pub any_eq : Value → Values → Bool
any_eq v nil = false
any_eq v (cons w ws) = py_eq v w || any_eq v ws

-- `v in w`; `none` is a TypeError.
unfoldable pub py_in : Value → Value → Option Bool
py_in v (list ws) = some (any_eq v ws)
py_in v (str t) = elim v [ str s ↦ some (contains s t) | _ ↦ none ]
py_in v _ = none

-- `bool(v)`
abbrev pub truthy : Value → Bool
truthy null = false
truthy (bool b) = b
truthy (int n) = not (eq_ℤ n (pos 0))
truthy (str s) = elim s [ [] ↦ false | _ ↦ true ]
truthy (list vs) = elim vs [ nil ↦ false | _ ↦ true ]

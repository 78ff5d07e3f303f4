-- ===== src/Graph.antt =====
-- The flow graph (prismpath/parser.py): `Node`, `Graph`, and the loop over lines of `parse`.
pub mod Parse
pub mod Limits
use prismpath.Base.{List, [], ◌∷◌, Bool, true, false, Option}
use prismpath.Base.Text.{Text}
use prismpath.Base.Dict.{Dict}

-- An edge is a target and a condition.
abbrev pub Edge : Type 0
Edge = Text × Text

pub record Node : Type 0 where
  pub name : Text
  pub instruction : Text
  pub edges : List Edge
  pub annotations : Dict (Dict (Option Text))

abbrev pub is_terminal : List Edge → Bool
is_terminal [] = true
is_terminal (e ∷ es) = false

pub record Graph : Type 0 where
  pub name : Text
  pub start : Text
  pub nodes : Dict Node

-- ===== src/Examples/GraphRun.antt =====
-- The lines of a flow document (prismpath/parser.py), with patterns that match no more than is needed.
use prismpath.Base.{ℕ, Option, none, some, List, [], ◌∷◌, ◌≡◌, refl, if◌then◌else◌, ◌==◌}
use prismpath.Base.Text.{Text, codes}
use prismpath.Graph.Parse.{Patterns, Bounds, parsed, parse_lines}
use prismpath.Graph.Limits.{Bounded, parse_lines-Bounded}

-- A heading is a line that starts with `#`, an edge one that starts with `>`; the rest of the line is what they match.
abbrev behind : ℕ → Text → Option Text
behind c [] = none
behind c (d ∷ ds) = if d == c then some ds else none

abbrev edge_behind : Option Text → Option (Text × Text)
edge_behind none = none
edge_behind (some t) = some (t, codes "x")

abbrev patterns : Patterns
patterns = record {
  head = behind 35;
  edge = λ line. edge_behind (behind 62 line);
  anno = λ line. none;
}

abbrev bounds : Bounds
bounds = record { max_nodes = 2; max_edges = 1 }

abbrev lines : List Text
lines = codes "#a" ∷ codes "do it" ∷ codes ">b" ∷ codes "#b" ∷ []

parse_lines-Bounded_example :
    Bounded patterns bounds (parse_lines patterns bounds (codes "flow") none lines)
parse_lines-Bounded_example = parse_lines-Bounded patterns bounds (codes "flow") none lines

parses :
    parse_lines patterns bounds (codes "flow") none lines
    ≡ parsed (record {
      name = codes "flow";
      start = codes "a";
      nodes =
          (
            codes "a",
            record {
              name = codes "a";
              instruction = codes "do it";
              edges = (codes "b", codes "x") ∷ [];
              annotations = [];
            },
          )
          ∷ (codes "b", record { name = codes "b"; instruction = []; edges = []; annotations = [] })
          ∷ [];
    })
unfolding parse_lines
parses = refl

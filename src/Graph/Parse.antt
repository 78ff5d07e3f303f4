-- ===== src/Graph/Parse.antt =====
-- The loop over the lines of a flow document, and its bounds (prismpath/parser.py, `parse`). What the
-- regular expressions match is a parameter. `cur` is the node under the last heading: it is the one of
-- this name in `nodes`.
use prismpath.Base.{
  ℕ, suc, Option, none, some, not, ◌&&◌, if◌then◌else◌, List, [], ◌∷◌, ◌++◌, length, leb, ltb, ◌==◌,
  map,
}
use prismpath.Base.Text.{Text, strip, lower, text_eq}
use prismpath.Base.Dict.{Dict, lookup_or, has_key, insert}
use prismpath.Graph.{Node, Edge, Graph}

-- The groups that HEAD_RE, EDGE_RE and ANNO_RE match in a line.
pub record Patterns : Type 0 where
  pub head : Text → Option Text
  pub edge : Text → Option (Text × Text)
  pub anno : Text → Option (Text × Text)

-- MAX_NODES and MAX_EDGES.
pub record Bounds : Type 0 where
  pub max_nodes : ℕ
  pub max_edges : ℕ

pub data ParseError : Type 0 where
  too_many_nodes too_many_edges : ParseError

-- `nodes`, the name of `cur`, `instr_lines` and `edge_count`.
pub record Scan : Type 0 where
  pub nodes : Dict Node
  pub cur : Option Text
  pub instr_lines : List Text
  pub edge_count : ℕ

pub data Scanned : Type 0 where
  failed : ParseError → Scanned
  scanned : Scan → Scanned

abbrev cons_first : ℕ → List Text → List Text
cons_first c [] = (c ∷ []) ∷ []
cons_first c (t ∷ ts) = (c ∷ t) ∷ ts

-- `argstr.split(",")`
unfoldable pub split_commas : Text → List Text
split_commas [] = [] ∷ []
split_commas (c ∷ cs) =
    let rest = split_commas cs in if c == 44 then [] ∷ rest else cons_first c rest

abbrev before : ℕ → Option (Text × Text) → Option (Text × Text)
before c none = none
before c (some (k, v)) = some (c ∷ k, v)

-- `part.split("=", 1)`, if there is a `=`.
unfoldable pub split_equals : Text → Option (Text × Text)
split_equals [] = none
split_equals (c ∷ cs) =
    let rest = split_equals cs in if c == 61 then some ([], cs) else before c rest

abbrev add_pair : Text → Text → Dict (Option Text) → Dict (Option Text)
add_pair [] v args = args
add_pair (c ∷ cs) v args = insert (c ∷ cs) (some v) args

unfoldable add_part : Text → Option (Text × Text) → Dict (Option Text) → Dict (Option Text)
unfolding strip
add_part [] kv args = args
add_part (c ∷ cs) none args = insert (c ∷ cs) none args
add_part (c ∷ cs) (some (k, v)) args = add_pair (strip k) (strip v) args

unfoldable add_parts : List Text → Dict (Option Text) → Dict (Option Text)
unfolding strip add_part split_equals
add_parts [] args = args
add_parts (p ∷ ps) args = add_parts ps (add_part (strip p) (split_equals (strip p)) args)

-- `_parse_anno_args`
unfoldable pub parse_anno_args : Text → Dict (Option Text)
unfolding split_commas add_parts
parse_anno_args argstr = add_parts (split_commas argstr) []

-- `.update(…)`
abbrev update : Dict (Option Text) → Dict (Option Text) → Dict (Option Text)
update args [] = args
update args ((k, v) ∷ more) = update (insert k v args) more

-- `"\n".join(…)`
abbrev join_lines : List Text → Text
join_lines [] = []
join_lines (l ∷ []) = l
join_lines (l ∷ k ∷ ls) = l ++ 10 ∷ join_lines (k ∷ ls)

-- A change of the node of a name.
unfoldable pub modify : Text → (Node → Node) → Dict Node → Dict Node
modify k f [] = []
modify k f ((j, n) ∷ d) = if text_eq j k then (j, f n) ∷ d else (j, n) ∷ modify k f d

abbrev pub set_instruction : Text → Node → Node
set_instruction t n = record {
  name = n.name;
  instruction = t;
  edges = n.edges;
  annotations = n.annotations;
}

abbrev pub add_edge : Edge → Node → Node
add_edge e n = record {
  name = n.name;
  instruction = n.instruction;
  edges = n.edges ++ e ∷ [];
  annotations = n.annotations;
}

-- `cur.annotations.setdefault(name, {}).update(args)`
abbrev pub add_annotation : Text → Dict (Option Text) → Node → Node
add_annotation name args n = record {
  name = n.name;
  instruction = n.instruction;
  edges = n.edges;
  annotations = insert name (update (lookup_or [] name n.annotations) args) n.annotations;
}

unfoldable pub flush_at : Option Text → List Text → Dict Node → Dict Node
unfolding strip modify
flush_at none ls d = d
flush_at (some k) ls d = modify k (set_instruction (strip (join_lines ls))) d

-- `flush`
unfoldable pub flush : Scan → Dict Node
unfolding flush_at
flush s = flush_at s.cur s.instr_lines s.nodes

-- `.replace(" ", "_")`
abbrev underscore : ℕ → ℕ
underscore c = if c == 32 then 95 else c

unfoldable pub node_name : Text → Text
unfolding strip lower
node_name t = map underscore (lower (strip t))

abbrev pub new_node : Text → Node
new_node name = record { name = name; instruction = []; edges = []; annotations = [] }

abbrev pub empty_scan : Scan
empty_scan = record { nodes = []; cur = none; instr_lines = []; edge_count = 0 }

module _ (p : Patterns) (b : Bounds) where
  -- A heading, with the nodes after `flush`.
  unfoldable pub open_node : Text → Dict Node → ℕ → Scanned
  open_node name nodes edge_count =
      if not (has_key name nodes) && leb b.max_nodes (length nodes)
      then failed too_many_nodes
      else scanned (record {
        nodes = insert name (new_node name) nodes;
        cur = some name;
        instr_lines = [];
        edge_count = edge_count;
      })

  -- A line under a heading: the edge's groups, the annotation's, and the line.
  unfoldable pub content :
      Text → Option (Text × Text) → Option (Text × Text) → Text → Scan → Scanned
  unfolding modify strip parse_anno_args
  content k (some (target, condition)) a line s =
      if ltb b.max_edges (suc s.edge_count)
      then failed too_many_edges
      else scanned (record {
        nodes = modify k (add_edge (strip target, strip condition)) s.nodes;
        cur = s.cur;
        instr_lines = s.instr_lines;
        edge_count = suc s.edge_count;
      })
  content k none (some (name, args)) line s = scanned (record {
    nodes = modify k (add_annotation (strip name) (parse_anno_args args)) s.nodes;
    cur = s.cur;
    instr_lines = s.instr_lines;
    edge_count = s.edge_count;
  })
  content k none none line s = scanned (record {
    nodes = s.nodes;
    cur = s.cur;
    instr_lines = s.instr_lines ++ line ∷ [];
    edge_count = s.edge_count;
  })

  unfoldable pub under : Option Text → Text → Scan → Scanned
  unfolding content
  under none line s = scanned s
  under (some k) line s = content k (p.edge line) (p.anno line) line s

  unfoldable pub on_line : Option Text → Text → Scan → Scanned
  unfolding under open_node flush node_name
  on_line (some h) line s = open_node (node_name h) (flush s) s.edge_count
  on_line none line s = under s.cur line s

  abbrev pub and_then : Scanned → (Scan → Scanned) → Scanned
  and_then (failed e) f = failed e
  and_then (scanned s) f = f s

  -- `for line in body.splitlines()`
  unfoldable pub scan_lines : List Text → Scan → Scanned
  unfolding on_line
  scan_lines [] s = scanned s
  scan_lines (line ∷ lines) s = and_then (on_line (p.head line) line s) (λ t. scan_lines lines t)

-- `meta.get("start") or (next(iter(nodes)) if nodes else "")`
abbrev pub first_node : Dict Node → Text
first_node [] = []
first_node ((k, n) ∷ d) = k

abbrev pub start_of : Option Text → Dict Node → Text
start_of none d = first_node d
start_of (some []) d = first_node d
start_of (some (c ∷ cs)) d = c ∷ cs

pub data Parsed : Type 0 where
  parse_failed : ParseError → Parsed
  parsed : Graph → Parsed

-- The end of `parse`, with the name and the start of the front matter.
unfoldable pub finish : Text → Option Text → Scanned → Parsed
unfolding flush
finish name start (failed e) = parse_failed e
finish name start (scanned s) =
    parsed (record { name = name; start = start_of start (flush s); nodes = flush s })

module _ (p : Patterns) (b : Bounds) where
  -- `parse` of the lines of the body, behind the front matter.
  unfoldable pub parse_lines : Text → Option Text → List Text → Parsed
  unfolding scan_lines finish
  parse_lines name start lines = finish name start (scan_lines p b lines empty_scan)

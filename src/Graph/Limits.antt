-- ===== src/Graph/Limits.antt =====
-- The bounds of a parsed document (prismpath/parser.py).
use prismpath.Base.{
  ℕ, suc, ◌≤◌, Option, none, some, Bool, true, false, not, ◌&&◌, if◌then◌else◌, List, [], ◌∷◌,
  length, length-append, leb, ltb, All, ◌≡◌, refl, sym, ap, ◌∙◌, arith, Bool-cases, inl, inr,
  ltb→ge, leb→gt,
}
use prismpath.Base.Text.{Text, text_eq, text_eq_iff, strip}
use prismpath.Base.Dict.{Dict, has_key, insert}
use prismpath.Graph.{Node, Edge}
use prismpath.Graph.Parse.{
  Patterns, Bounds, ParseError, Scan, Scanned, failed, scanned, modify, add_edge, flush_at, flush,
  node_name, new_node, open_node, content, under, on_line, and_then, scan_lines, empty_scan, Parsed,
  parse_failed, parsed, finish, parse_lines,
}

length-modify : (k : Text) (f : Node → Node) (d : Dict Node) → length (modify k f d) ≡ length d
unfolding modify
length-modify k f [] = refl
length-modify k f ((j, n) ∷ d) = elim (Bool-cases (text_eq j k)) [
  | inl t ↦ rw t
  | inr t ↦ rw (t, length-modify k f d)
]

modify-All :
    (P : Text × Node → Type 0) (k : Text) (f : Node → Node)
    → ((j : Text) (n : Node) → P (j, n) → P (j, f n))
    → (d : Dict Node) → All P d
    → All P (modify k f d)
unfolding modify
modify-All P k f step [] h = h
modify-All P k f step ((j, n) ∷ d) (h, hs) = elim (Bool-cases (text_eq j k)) [
  | inl t ↦ rw t (step j n h, hs)
  | inr t ↦ rw t (h, modify-All P k f step d hs)
]

insert-All :
    (P : Text × Node → Type 0) (k : Text) (v : Node)
    → ((j : Text) → j ≡ k → P (j, v))
    → (d : Dict Node) → All P d
    → All P (insert k v d)
insert-All P k v new [] h = (new k refl, h)
insert-All P k v new ((j, n) ∷ d) (h, hs) = elim (Bool-cases (text_eq j k)) [
  | inl t ↦ rw t (new j ((text_eq_iff j k).0 t), hs)
  | inr t ↦ rw t (h, insert-All P k v new d hs)
]

insert-hit :
    (k j : Text) (v n : Node) (d : Dict Node)
    → text_eq j k ≡ true
    → insert k v ((j, n) ∷ d) ≡ (j, v) ∷ d
insert-hit k j v n d t = rw t

insert-miss :
    (k j : Text) (v n : Node) (d : Dict Node)
    → text_eq j k ≡ false
    → insert k v ((j, n) ∷ d) ≡ (j, n) ∷ insert k v d
insert-miss k j v n d t = rw t

has_key-miss :
    (k j : Text) (n : Node) (d : Dict Node)
    → text_eq j k ≡ false
    → has_key k ((j, n) ∷ d) ≡ has_key k d
has_key-miss k j n d t = ground (arith, t)

length-insert_le : (k : Text) (v : Node) (d : Dict Node) → length (insert k v d) ≤ suc (length d)
length-insert_le k v [] = omega arith
length-insert_le k v ((j, n) ∷ d) = elim (Bool-cases (text_eq j k)) [
  | inl t ↦ omega (arith, ap length (insert-hit k j v n d t))
  | inr t ↦ omega (arith, ap length (insert-miss k j v n d t), length-insert_le k v d)
]

length-insert_known :
    (k : Text) (v : Node) (d : Dict Node) → has_key k d ≡ true → length (insert k v d) ≡ length d
length-insert_known k v [] h = cc
length-insert_known k v ((j, n) ∷ d) h = elim (Bool-cases (text_eq j k)) [
  | inl t ↦ ap length (insert-hit k j v n d t)
  | inr t ↦
      ap length (insert-miss k j v n d t)
      ∙ ap suc (length-insert_known k v d (sym (has_key-miss k j n d t) ∙ h))
]

-- A node under its name, with no more than a number of edges.
abbrev pub Small : ℕ → Text × Node → Type 0
Small count (k, n) = (n.name ≡ k) × (length n.edges ≤ count)

-- Within the bounds, with no node of more than `count` edges.
unfoldable pub Fits : Bounds → ℕ → Dict Node → Type 0
Fits b count d = (length d ≤ b.max_nodes) × All (Small count) d

All-Small-suc : (count : ℕ) (d : Dict Node) → All (Small count) d → All (Small (suc count)) d
All-Small-suc count [] h = h
All-Small-suc count ((k, n) ∷ d) ((e, l), hs) = ((e, omega (arith, l)), All-Small-suc count d hs)

add_edge-All :
    (e : Edge) (k : Text) (count : ℕ) (d : Dict Node)
    → All (Small count) d
    → All (Small (suc count)) (modify k (add_edge e) d)
unfolding modify
add_edge-All e k count [] h = h
add_edge-All e k count ((j, n) ∷ d) ((same, l), hs) = elim (Bool-cases (text_eq j k)) [
  | inl t ↦
      rw t ((same, omega (arith, l, length-append n.edges (e ∷ []))), All-Small-suc count d hs)
  | inr t ↦ rw t ((same, omega (arith, l)), add_edge-All e k count d hs)
]

-- What `scan_lines` keeps, and what it ends with.
abbrev pub FitsScan : Bounds → Scan → Type 0
FitsScan b s = (s.edge_count ≤ b.max_edges) × Fits b s.edge_count s.nodes

abbrev pub FitsScanned : Bounds → Scanned → Type 0
FitsScanned b (failed e) = Unit
FitsScanned b (scanned s) = FitsScan b s

modify-Fits :
    (b : Bounds) (count : ℕ) (k : Text) (f : Node → Node)
    → ((j : Text) (n : Node) → Small count (j, n) → Small count (j, f n))
    → (d : Dict Node) → Fits b count d
    → Fits b count (modify k f d)
unfolding Fits
modify-Fits b count k f step d (l, a) =
    (omega (arith, l, length-modify k f d), modify-All (Small count) k f step d a)

flush-Fits : (b : Bounds) (count : ℕ) (s : Scan) → Fits b count s.nodes → Fits b count (flush s)
unfolding flush
flush-Fits b count s h = at s.cur
  where
    at : (cur : Option Text) → Fits b count (flush_at cur s.instr_lines s.nodes)
    at none = h
    at (some k) = modify-Fits b count k _ (λ j n small. small) s.nodes h

-- A result behind a test that fails with an error.
unless-FitsScanned :
    (b : Bounds) (e : ParseError) (s : Scan) (t : Bool)
    → (t ≡ false → FitsScan b s)
    → FitsScanned b (if t then failed e else scanned s)
unless-FitsScanned b e s true h = tt
unless-FitsScanned b e s false h = h refl

room :
    (b : Bounds) (name : Text) (d : Dict Node) (known : Bool)
    → has_key name d ≡ known
    → length d ≤ b.max_nodes
    → (not known && leb b.max_nodes (length d)) ≡ false
    → length (insert name (new_node name) d) ≤ b.max_nodes
room b name d true k m t = omega (arith, m, length-insert_known name (new_node name) d k)
room b name d false k m t =
    omega (arith, leb→gt b.max_nodes (length d) t, length-insert_le name (new_node name) d)

empty-Fits : (b : Bounds) → Fits b 0 []
unfolding Fits
empty-Fits b = (omega arith, tt)

module _ (p : Patterns) (b : Bounds) where
  open_node-FitsScanned :
      (name : Text) (d : Dict Node) (count : ℕ)
      → count ≤ b.max_edges
      → Fits b count d
      → FitsScanned b (open_node p b name d count)
  unfolding open_node Fits
  open_node-FitsScanned name d count l (m, a) =
      unless-FitsScanned b _ _ (not (has_key name d) && leb b.max_nodes (length d)) λ t. (
        l,
        (
          room b name d (has_key name d) refl m t,
          insert-All (Small count) name (new_node name) (λ j e. (sym e, omega arith)) d a,
        ),
      )

  content-FitsScanned :
      (k : Text) (e a : Option (Text × Text)) (line : Text) (s : Scan)
      → FitsScan b s
      → FitsScanned b (content p b k e a line s)
  unfolding content Fits
  content-FitsScanned k (some (target, condition)) a line s (l, (m, ns)) =
      unless-FitsScanned b _ _ (ltb b.max_edges (suc s.edge_count)) λ t. (
        ltb→ge b.max_edges (suc s.edge_count) t,
        (
          omega (arith, m, length-modify k (add_edge (strip target, strip condition)) s.nodes),
          add_edge-All (strip target, strip condition) k s.edge_count s.nodes ns,
        ),
      )
  content-FitsScanned k none (some (name, args)) line s (l, m) =
      (l, modify-Fits b s.edge_count k _ (λ j n small. small) s.nodes m)
  content-FitsScanned k none none line s h = h

  on_line-FitsScanned :
      (h : Option Text) (line : Text) (s : Scan)
      → FitsScan b s
      → FitsScanned b (on_line p b h line s)
  unfolding on_line
  on_line-FitsScanned (some h) line s (l, m) =
      open_node-FitsScanned (node_name h) (flush s) s.edge_count l (flush-Fits b s.edge_count s m)
  on_line-FitsScanned none line s fits = at s.cur
    where
      at : (cur : Option Text) → FitsScanned b (under p b cur line s)
      at none = fits
      at (some k) = content-FitsScanned k (p.edge line) (p.anno line) line s fits

  and_then-FitsScanned :
      (r : Scanned) (f : Scan → Scanned)
      → FitsScanned b r
      → ((s : Scan) → FitsScan b s → FitsScanned b (f s))
      → FitsScanned b (and_then p b r f)
  and_then-FitsScanned (failed e) f h next = tt
  and_then-FitsScanned (scanned s) f h next = next s h

  scan_lines-FitsScanned :
      (lines : List Text) (s : Scan) → FitsScan b s → FitsScanned b (scan_lines p b lines s)
  unfolding scan_lines
  scan_lines-FitsScanned [] s h = h
  scan_lines-FitsScanned (line ∷ lines) s h =
      and_then-FitsScanned (on_line p b (p.head line) line s) (scan_lines p b lines)
        (on_line-FitsScanned (p.head line) line s h) (λ t fits. scan_lines-FitsScanned lines t fits)

  -- An error, or a graph within the bounds, with its nodes under their names.
  unfoldable pub Bounded : Parsed → Type 0
  unfolding Fits
  Bounded (parse_failed e) = Unit
  Bounded (parsed g) = Fits b b.max_edges g.nodes

  All-Small-le : (m n : ℕ) (d : Dict Node) → m ≤ n → All (Small m) d → All (Small n) d
  All-Small-le m n [] l h = h
  All-Small-le m n ((k, x) ∷ d) l ((e, small), hs) =
      ((e, omega (arith, l, small)), All-Small-le m n d l hs)

  finish-Bounded :
      (name : Text) (start : Option Text) (r : Scanned)
      → FitsScanned b r
      → Bounded (finish name start r)
  unfolding finish Bounded Fits
  finish-Bounded name start (failed e) h = tt
  finish-Bounded name start (scanned s) (l, fits) =
      let (m, small) = flush-Fits b s.edge_count s fits in
      (m, All-Small-le s.edge_count b.max_edges (flush s) l small)

  -- Whatever its lines are, a document is refused, or it has no more nodes than MAX_NODES, and each node is under
  -- its own name and has no more edges than MAX_EDGES.
  pub parse_lines-Bounded :
      (name : Text) (start : Option Text) (lines : List Text)
      → Bounded (parse_lines p b name start lines)
  unfolding parse_lines
  parse_lines-Bounded name start lines =
      finish-Bounded name start (scan_lines p b lines empty_scan)
        (scan_lines-FitsScanned lines empty_scan (omega arith, empty-Fits b))

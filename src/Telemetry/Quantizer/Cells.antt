-- ===== src/Telemetry/Quantizer/Cells.antt =====
-- The cells of a numeric field keep its decisions (adapters/telemetry/quantizer.py, `_numeric_partition`,
-- `FieldPartition.symbol` and `FieldPartition.representative`).
use prismpath.Base.{
  ℕ, suc, Option, none, some, Bool, true, false, if◌then◌else◌, List, [], ◌∷◌, get_elem?, ◌≡◌, refl,
  sym, ap, subst, ◌∙◌, ◌⊎◌, inl, inr, arith, Bool-cases,
}
use prismpath.Base.Int.{ℤ, pos, suc_ℤ, pred_ℤ, leb_ℤ}
use prismpath.Base.Maybe.{◌>>=◌}
use prismpath.Predicates.Value as V
use prismpath.Telemetry.Quantizer.{
  NumAtom, truths, sorted_constants, Span, fine_from, rep, Cell, same_bools, new_cell, merge,
  cells_of, numeric_cells, numeric, above, below, cell_index, symbol, representative_of, int_of,
}
use prismpath.Telemetry.Quantizer.Sorted.{In, IsRising}
use prismpath.Telemetry.Quantizer.Spans.{
  CutsOnly, Constant, Chain, last, link, bottom-Constant, fine_from-Chain, Rises-In, leb_ℤ_refl,
  suc-pred, sorted_constants-IsRising,
}

module _ (ats : List NumAtom) (only : CutsOnly ats) where
  same_bools-eq : (bs cs : List Bool) → same_bools bs cs ≡ true → bs ≡ cs
  same_bools-eq [] [] h = refl
  same_bools-eq (true ∷ bs) (true ∷ cs) h = ap (λ ds. true ∷ ds) (same_bools-eq bs cs h)
  same_bools-eq (false ∷ bs) (false ∷ cs) h = ap (λ ds. false ∷ ds) (same_bools-eq bs cs h)
  same_bools-eq _ _ h = cc

  -- Every number that the cell holds has the decisions of its representative.
  abbrev Keeps : Cell → Type 0
  Keeps c =
      (v : ℤ)
      → above c.lo v ≡ true
      → below c.hi v ≡ true
      → truths ats v ≡ truths ats c.representative

  -- Such cells, one after another up to the one without a bound.
  data Covers : Option ℤ → List Cell → Type 0 where
    last_cell : {c : Cell} → c.hi ≡ none → Keeps c → Covers c.lo (c ∷ [])
    next_cell :
        {c : Cell} {h : ℤ} {rest : List Cell}
        → c.hi ≡ some h
        → Keeps c
        → Covers (some (suc_ℤ h)) rest
        → Covers c.lo (c ∷ rest)

  -- What follows a cell with this upper bound.
  abbrev Follows : Option ℤ → List Span → Type 0
  Follows none fine = fine ≡ []
  Follows (some h) fine = Chain ats only (some (suc_ℤ h)) fine

  beyond : (h v : ℤ) → leb_ℤ v h ≡ false → leb_ℤ (suc_ℤ h) v ≡ true
  beyond h v e = ground (arith, e)

  split_at : (h v : ℤ) → (leb_ℤ v h ≡ true) ⊎ (leb_ℤ (suc_ℤ h) v ≡ true)
  split_at h v = elim (Bool-cases (leb_ℤ v h)) [ inl e ↦ inl e | inr e ↦ inr (beyond h v e) ]

  abbrev cell : Option ℤ → Option ℤ → ℤ → Cell
  cell lo hi r = record { lo = lo; hi = hi; representative = r }

  -- One interval more: it extends the cell, or it begins the next.
  merge-link :
      (lo hi : Option ℤ) (h r : ℤ) (fine : List Span)
      → Keeps (cell lo (some h) r)
      → Constant ats only (some (suc_ℤ h)) hi
      → (Keeps (cell lo hi r) → Covers lo (merge ats (cell lo hi r) fine))
      → Covers (some (suc_ℤ h)) (merge ats (new_cell (some (suc_ℤ h)) hi) fine)
      → Covers lo (merge ats (cell lo (some h) r) ((some (suc_ℤ h), hi) ∷ fine))
  unfolding merge
  merge-link lo hi h r fine keeps k extended next =
      at (same_bools (truths ats (rep (some (suc_ℤ h)) hi)) (truths ats r)) refl
    where
      at :
          (b : Bool)
          → same_bools (truths ats (rep (some (suc_ℤ h)) hi)) (truths ats r) ≡ b
          → Covers lo (
              if b
              then merge ats (cell lo hi r) fine
              else cell lo (some h) r ∷ merge ats (new_cell (some (suc_ℤ h)) hi) fine)
      at true e = extended (λ v up down. elim (split_at h v) [
        | inl l ↦ keeps v up l
        | inr l ↦ k v l down ∙ same_bools-eq (truths ats (rep (some (suc_ℤ h)) hi)) (truths ats r) e
      ])
      at false e = next_cell refl keeps next

  merge-last :
      (lo : Option ℤ) (r : ℤ) → Keeps (cell lo none r) → Covers lo (merge ats (cell lo none r) [])
  unfolding merge
  merge-last lo r keeps = last_cell refl keeps

  merge-Covers :
      (lo : Option ℤ) (h r : ℤ) (s : Option ℤ) (fine : List Span)
      → Keeps (cell lo (some h) r)
      → some (suc_ℤ h) ≡ s
      → Chain ats only s fine
      → Covers lo (merge ats (cell lo (some h) r) fine)
  merge-Covers lo h r s _ keeps e (last k) =
      subst
        (λ z.
          Constant ats only z none → Covers lo (merge ats (cell lo (some h) r) ((z, none) ∷ [])))
        e
        (λ k'.
          merge-link lo none h r [] keeps k' (merge-last lo r)
            (merge-last (some (suc_ℤ h)) (rep (some (suc_ℤ h)) none) k'))
        k
  merge-Covers lo h r s _ keeps e (link {h = h'} {rest = rest} k f) =
      let extended : Keeps (cell lo (some h') r)
          → Covers lo (merge ats (cell lo (some h') r) rest) =
        λ q. merge-Covers lo h' r (some (suc_ℤ h')) rest q refl f in
      let next : Constant ats only s (some h') → Covers s (merge ats (new_cell s (some h')) rest) =
        λ q. merge-Covers s h' (rep s (some h')) (some (suc_ℤ h')) rest q refl f in
      subst
        (λ z.
          Constant ats only z (some h')
          → (Constant ats only z (some h') → Covers z (merge ats (new_cell z (some h')) rest))
          → Covers lo (merge ats (cell lo (some h) r) ((z, some h') ∷ rest)))
        e (λ k' next'. merge-link lo (some h') h r rest keeps k' extended (next' k')) k next

  -- The cell that `symbol` finds.
  abbrev Finds : List Cell → ℤ → Type 0
  Finds cells v =
      (i : ℕ) × (c : Cell) × (cell_index cells v ≡ some i)
      × (get_elem? cells i ≡ some c)
      × (truths ats v ≡ truths ats c.representative)

  found_here :
      (c : Cell) (rest : List Cell) (v : ℤ)
      → above c.lo v ≡ true
      → below c.hi v ≡ true
      → Keeps c
      → Finds (c ∷ rest) v
  unfolding cell_index
  found_here c rest v up down keeps = (0, c, rw (up, down) refl, refl, keeps v up down)

  found_later :
      (c : Cell) (rest : List Cell) (v : ℤ)
      → above c.lo v ≡ true
      → below c.hi v ≡ false
      → Finds rest v
      → Finds (c ∷ rest) v
  unfolding cell_index
  found_later c rest v up down (i, c', e, get, same) = (suc i, c', rw (up, down, e) refl, get, same)

  past : (h v : ℤ) → leb_ℤ v h ≡ false → leb_ℤ (suc_ℤ h) v ≡ true
  past h v e = ground (arith, e)

  cell_index-Finds :
      (lo : Option ℤ) (cells : List Cell) (v : ℤ)
      → Covers lo cells
      → above lo v ≡ true
      → Finds cells v
  cell_index-Finds lo _ v (last_cell {c = c} none_above keeps) up =
      found_here c [] v up (subst (λ z. below z v ≡ true) (sym none_above) refl) keeps
  cell_index-Finds lo _ v (next_cell {c = c} {h = h} {rest = rest} top keeps f) up =
      elim (Bool-cases (leb_ℤ v h)) [
        | inl l ↦ found_here c rest v up (subst (λ z. below z v ≡ true) (sym top) l) keeps
        | inr l ↦
            found_later c rest v up (subst (λ z. below z v ≡ false) (sym top) l)
              (cell_index-Finds (some (suc_ℤ h)) rest v f (past h v l))
      ]

  cells_of-Covers :
      (cs : List ℤ)
      → IsRising cs
      → ((k : ℤ) → In k (sorted_constants ats) → In k cs)
      → Covers none (cells_of ats cs)
  cells_of-Covers [] r h =
      let none_in : (k : ℤ) → In k (sorted_constants ats) → ⊥ = λ k q. h k q in
      merge-Covers none (pred_ℤ (pos 0)) (rep none (some (pred_ℤ (pos 0)))) (some (pos 0))
        (fine_from (pos 0) []) (bottom-Constant ats only (pos 0) (λ k q. absurd (none_in k q))) refl
        (fine_from-Chain ats only (pos 0) [] tt (λ k q. absurd (none_in k q)))
  cells_of-Covers (c ∷ cs) r h =
      merge-Covers none (pred_ℤ c) (rep none (some (pred_ℤ c))) (some c) (fine_from c cs)
        (bottom-Constant ats only c (λ k q. elim (h k q) [
          | inl e ↦ subst (λ j. leb_ℤ c j ≡ true) (sym e) (leb_ℤ_refl c)
          | inr z ↦ Rises-In ats only c k cs r z
        ]))
        (ap some (suc-pred c))
        (fine_from-Chain ats only c cs r (λ k q. elim (h k q) [
          | inl e ↦ inl (subst (λ j. leb_ℤ j c ≡ true) (sym e) (leb_ℤ_refl c))
          | inr z ↦ inr z
        ]))

-- Of atoms that are comparisons with constants: every integer has a symbol, and every atom is as true of
-- the symbol's representative as of the integer.
pub symbol-representative_of :
    (ats : List NumAtom) (v : ℤ)
    → CutsOnly ats
    → (i : ℕ) × (r : ℤ) × (symbol (numeric (numeric_cells ats)) (V.int v) ≡ some i)
      × (representative_of (numeric (numeric_cells ats)) i ≡ some (V.int r))
      × (truths ats v ≡ truths ats r)
unfolding symbol representative_of int_of numeric_cells
symbol-representative_of ats v only =
    let (i, c, e, get, same) =
      cell_index-Finds ats only none (numeric_cells ats) v
        (cells_of-Covers ats only (sorted_constants ats) (sorted_constants-IsRising ats) (λ k q. q))
        refl in
    (i, c.representative, e, ap (λ o. o >>= λ d. some (V.int d.representative)) get, same)

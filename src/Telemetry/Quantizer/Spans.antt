-- ===== src/Telemetry/Quantizer/Spans.antt =====
-- Between two constants no comparison changes (adapters/telemetry/quantizer.py, `_numeric_partition`).
use prismpath.Base.{
  Option, none, some, Bool, true, false, not, ◌&&◌, if◌then◌else◌, List, [], ◌∷◌, ◌≡◌, refl, sym,
  ap, subst, ◌∙◌, ◌⊎◌, inl, inr, arith,
}
use prismpath.Base.Int.{ℤ, suc_ℤ, pred_ℤ, leb_ℤ, eq_ℤ}
use prismpath.Predicates.Syntax.{CmpOp}
use prismpath.Telemetry.Quantizer.{
  NumAtom, num_cut, num_member, num_truth, atom_true, truths, sorted_constants, Span, fine_from,
  rep, above, below,
}
use prismpath.Telemetry.Quantizer.Sorted.{In, Rises, IsRising, insert_int-IsRising, In-insert_int}

-- The field is only compared with constants, by an order or an equality.
abbrev pub CutsOnly : List NumAtom → Type 0
CutsOnly [] = Unit
CutsOnly (num_cut op k ∷ ats) = CutsOnly ats
CutsOnly _ = ⊥

pub sorted_constants-IsRising : (ats : List NumAtom) → IsRising (sorted_constants ats)
unfolding sorted_constants
sorted_constants-IsRising [] = tt
sorted_constants-IsRising (num_cut op k ∷ ats) =
    insert_int-IsRising k (sorted_constants ats) (sorted_constants-IsRising ats)
sorted_constants-IsRising (num_member b vs ∷ ats) = sorted_constants-IsRising ats
sorted_constants-IsRising (num_truth ∷ ats) = sorted_constants-IsRising ats

-- The constant does not tell the two apart.
abbrev SameSide : ℤ → ℤ → ℤ → Type 0
SameSide k v w = (leb_ℤ v k ≡ leb_ℤ w k) × (leb_ℤ k v ≡ leb_ℤ k w)

eq_ℤ-leb_ℤ : (v k : ℤ) → eq_ℤ v k ≡ (leb_ℤ v k && leb_ℤ k v)
eq_ℤ-leb_ℤ v k = ground arith

atom_true-SameSide :
    (op : CmpOp) (k v w : ℤ)
    → SameSide k v w
    → atom_true (num_cut op k) v ≡ atom_true (num_cut op k) w
unfolding atom_true
atom_true-SameSide CmpOp.lt k v w (a, b) = ap not b
atom_true-SameSide CmpOp.lt_e k v w (a, b) = a
atom_true-SameSide CmpOp.gt k v w (a, b) = ap not a
atom_true-SameSide CmpOp.gt_e k v w (a, b) = b
atom_true-SameSide CmpOp.eq k v w (a, b) = eq_ℤ-leb_ℤ v k ∙ (λ i. a i && b i) ∙ sym (eq_ℤ-leb_ℤ w k)
atom_true-SameSide CmpOp.not_eq k v w (a, b) =
    ap not (eq_ℤ-leb_ℤ v k ∙ (λ i. a i && b i) ∙ sym (eq_ℤ-leb_ℤ w k))
atom_true-SameSide _ k v w h = refl

truths-SameSide :
    (ats : List NumAtom) (v w : ℤ)
    → CutsOnly ats
    → ((k : ℤ) → In k (sorted_constants ats) → SameSide k v w)
    → truths ats v ≡ truths ats w
unfolding truths sorted_constants
truths-SameSide [] v w only h = refl
truths-SameSide (num_cut op k ∷ ats) v w only h =
    let here =
      atom_true-SameSide op k v w (h k (In-insert_int k k (sorted_constants ats) (inl refl))) in
    let later =
      truths-SameSide ats v w only
        (λ j q. h j (In-insert_int j k (sorted_constants ats) (inr q))) in
    λ i. here i ∷ later i
truths-SameSide (num_member b vs ∷ ats) v w only h = absurd only
truths-SameSide (num_truth ∷ ats) v w only h = absurd only

pub leb_ℤ_refl : (c : ℤ) → leb_ℤ c c ≡ true
leb_ℤ_refl c = ground arith

antisymmetric : (c v : ℤ) → leb_ℤ c v ≡ true → leb_ℤ v c ≡ true → v ≡ c
antisymmetric c v up down = ground (arith, up, down)

right_of :
    (k c v : ℤ)
    → leb_ℤ k c ≡ true
    → leb_ℤ (suc_ℤ c) v ≡ true
    → (leb_ℤ v k ≡ false) × (leb_ℤ k v ≡ true)
right_of k c v l up = (ground (arith, l, up), ground (arith, l, up))

left_of :
    (k d v : ℤ)
    → leb_ℤ d k ≡ true
    → leb_ℤ v (pred_ℤ d) ≡ true
    → (leb_ℤ v k ≡ true) × (leb_ℤ k v ≡ false)
left_of k d v l down = (ground (arith, l, down), ground (arith, l, down))

both :
    (k v w : ℤ)
    → (leb_ℤ v k ≡ false) × (leb_ℤ k v ≡ true)
    → (leb_ℤ w k ≡ false) × (leb_ℤ k w ≡ true)
    → SameSide k v w
both k v w (a, b) (c, d) = (a ∙ sym c, b ∙ sym d)

both' :
    (k v w : ℤ)
    → (leb_ℤ v k ≡ true) × (leb_ℤ k v ≡ false)
    → (leb_ℤ w k ≡ true) × (leb_ℤ k w ≡ false)
    → SameSide k v w
both' k v w (a, b) (c, d) = (a ∙ sym c, b ∙ sym d)

pub suc-pred : (d : ℤ) → suc_ℤ (pred_ℤ d) ≡ d
suc-pred d = ground arith

-- No number lies between.
no_gap : (c d : ℤ) → leb_ℤ d c ≡ false → leb_ℤ (suc_ℤ c) (pred_ℤ d) ≡ false → suc_ℤ c ≡ d
no_gap c d h e = ground (arith, h, e)

module _ (ats : List NumAtom) (only : CutsOnly ats) where
  -- The atoms are as true everywhere in the interval as at its representative.
  abbrev pub Constant : Option ℤ → Option ℤ → Type 0
  Constant lo hi =
      (v : ℤ) → above lo v ≡ true → below hi v ≡ true → truths ats v ≡ truths ats (rep lo hi)

  -- Intervals that follow one another without a gap, up to the one without a bound.
  pub data Chain : Option ℤ → List Span → Type 0 where
    last : {lo : Option ℤ} → Constant lo none → Chain lo ((lo, none) ∷ [])
    link :
        {lo : Option ℤ} {h : ℤ} {rest : List Span}
        → Constant lo (some h)
        → Chain (some (suc_ℤ h)) rest
        → Chain lo ((lo, some h) ∷ rest)

  point-Constant : (c : ℤ) → Constant (some c) (some c)
  unfolding rep
  point-Constant c v up down = ap (truths ats) (antisymmetric c v up down)

  -- The constants lie at or below `c`, or at or above `d`.
  gap-Constant :
      (c d : ℤ)
      → ((k : ℤ) → In k (sorted_constants ats) → (leb_ℤ k c ≡ true) ⊎ (leb_ℤ d k ≡ true))
      → leb_ℤ (suc_ℤ c) (pred_ℤ d) ≡ true
      → Constant (some (suc_ℤ c)) (some (pred_ℤ d))
  unfolding rep
  gap-Constant c d h wide v up down = truths-SameSide ats v (suc_ℤ c) only (λ k q. elim (h k q) [
    | inl l ↦
        both k v (suc_ℤ c) (right_of k c v l up) (right_of k c (suc_ℤ c) l (leb_ℤ_refl (suc_ℤ c)))
    | inr l ↦ both' k v (suc_ℤ c) (left_of k d v l down) (left_of k d (suc_ℤ c) l wide)
  ])

  -- Above all constants, and below all.
  top-Constant :
      (c : ℤ)
      → ((k : ℤ) → In k (sorted_constants ats) → leb_ℤ k c ≡ true)
      → Constant (some (suc_ℤ c)) none
  unfolding rep
  top-Constant c h v up down = truths-SameSide ats v (suc_ℤ c) only (λ k q.
      both k v (suc_ℤ c) (right_of k c v (h k q) up)
        (right_of k c (suc_ℤ c) (h k q) (leb_ℤ_refl (suc_ℤ c))))

  pub bottom-Constant :
      (c : ℤ)
      → ((k : ℤ) → In k (sorted_constants ats) → leb_ℤ c k ≡ true)
      → Constant none (some (pred_ℤ c))
  unfolding rep
  bottom-Constant c h v up down = truths-SameSide ats v (pred_ℤ c) only (λ k q.
      both' k v (pred_ℤ c) (left_of k c v (h k q) down)
        (left_of k c (pred_ℤ c) (h k q) (leb_ℤ_refl (pred_ℤ c))))

  through : (d e k : ℤ) → leb_ℤ e d ≡ false → leb_ℤ e k ≡ true → leb_ℤ d k ≡ true
  through d e k up l = ground (arith, up, l)

  pub Rises-In : (d k : ℤ) (ds : List ℤ) → Rises d ds → In k ds → leb_ℤ d k ≡ true
  Rises-In d k [] r q = absurd q
  Rises-In d k (e ∷ es) (up, r) (inl q) =
      through d e k up (subst (λ j. leb_ℤ e j ≡ true) (sym q) (leb_ℤ_refl e))
  Rises-In d k (e ∷ es) (up, r) (inr q) = through d e k up (Rises-In e k es r q)

  pub fine_from-Chain :
      (c : ℤ) (ds : List ℤ)
      → Rises c ds
      → ((k : ℤ) → In k (sorted_constants ats) → (leb_ℤ k c ≡ true) ⊎ In k ds)
      → Chain (some c) (fine_from c ds)
  unfolding fine_from
  fine_from-Chain c [] r h =
      link (point-Constant c)
        (last (top-Constant c (λ k q. elim (h k q) [ inl l ↦ l | inr z ↦ absurd z ])))
  fine_from-Chain c (d ∷ ds) (up, r) h =
      at (leb_ℤ (suc_ℤ c) (pred_ℤ d)) refl (fine_from-Chain d ds r later)
    where
      lower : (k : ℤ) → leb_ℤ d c ≡ false → leb_ℤ k c ≡ true → leb_ℤ k d ≡ true
      lower k u l = ground (arith, u, l)

      later : (k : ℤ) → In k (sorted_constants ats) → (leb_ℤ k d ≡ true) ⊎ In k ds
      later k q = elim (h k q) [
        | inl l ↦ inl (lower k up l)
        | inr (inl e) ↦ inl (subst (λ j. leb_ℤ j d ≡ true) (sym e) (leb_ℤ_refl d))
        | inr (inr z) ↦ inr z
      ]

      sides : (k : ℤ) → In k (sorted_constants ats) → (leb_ℤ k c ≡ true) ⊎ (leb_ℤ d k ≡ true)
      sides k q = elim (h k q) [
        | inl l ↦ inl l
        | inr (inl z) ↦ inr (subst (λ j. leb_ℤ d j ≡ true) (sym z) (leb_ℤ_refl d))
        | inr (inr z) ↦ inr (Rises-In d k ds r z)
      ]

      at :
          (b : Bool)
          → leb_ℤ (suc_ℤ c) (pred_ℤ d) ≡ b
          → Chain (some d) (fine_from d ds)
          → Chain (some c) (
              (some c, some c)
              ∷ (if b then (some (suc_ℤ c), some (pred_ℤ d)) ∷ fine_from d ds else fine_from d ds))
      at true e rest = link (point-Constant c) (
          link (gap-Constant c d sides e)
            (subst (λ j. Chain (some j) (fine_from d ds)) (sym (suc-pred d)) rest))
      at false e rest =
          link (point-Constant c)
            (subst (λ j. Chain (some j) (fine_from d ds)) (sym (no_gap c d up e)) rest)

-- ===== src/Telemetry/Merkle/Inclusion.antt =====
-- Every leaf of a Merkle tree (prismpath/ledger_ots.py) verifies with its own path.
use prismpath.Base.{
  ℕ, zero, suc, ◌+◌, ◌-◌, ◌%◌, ◌/◌, ◌≤◌, some, Bool, true, false, List, [], ◌∷◌, length, get_elem?,
  ◌==◌, ◌≡◌, refl, sym, ap, ◌∙◌, arith,
}
use prismpath.Base.Maybe.{◌>>=◌}
use prismpath.Telemetry.Merkle.{
  Hashes, Side, pair_up, layers_from, root_of, sibling_on, sibling, path, merkle_root, merkle_path,
  climb, verify_leaf,
}

module _ {Digest : Type 0} (h : Hashes Digest) where
  length-pair_up :
      (ds : List Digest) → length (pair_up h ds) + length (pair_up h ds) ≤ suc (length ds)
  unfolding pair_up
  length-pair_up [] = omega arith
  length-pair_up (a ∷ []) = omega arith
  length-pair_up (a ∷ b ∷ ds) = omega (arith, length-pair_up ds)

  -- The parent of a leaf with its sibling.
  abbrev parent : Digest → Side × Digest → Digest
  parent d (Side.right, s) = h.pair d s
  parent d (Side.left, s) = h.pair s d

  mod2 : (i : ℕ) → suc (suc i) % 2 ≡ i % 2
  mod2 i = omega arith

  div2 : (i : ℕ) → suc (suc i) / 2 ≡ suc (i / 2)
  div2 i = omega arith

  add_one : (j : ℕ) → suc (suc (suc j)) + 1 ≡ suc (suc (suc j + 1))
  add_one j = omega arith

  sub_one : (j : ℕ) → suc (suc (suc j)) - 1 ≡ suc (suc (suc j - 1))
  sub_one j = omega arith

  sibling_on-next :
      (even : Bool) (a b : Digest) (ds : List Digest) (j : ℕ)
      → sibling_on h even (a ∷ b ∷ ds) (suc (suc (suc j))) ≡ sibling_on h even ds (suc j)
  unfolding sibling_on
  sibling_on-next true a b ds j = rw (add_one j)
  sibling_on-next false a b ds j = rw (sub_one j)

  sibling-next :
      (a b : Digest) (ds : List Digest) (i : ℕ)
      → sibling h (a ∷ b ∷ ds) (suc (suc i)) ≡ sibling h ds i
  unfolding sibling sibling_on
  sibling-next a b ds zero = refl
  sibling-next a b ds (suc j) =
      ap (λ t. sibling_on h (t == 0) (a ∷ b ∷ ds) (suc (suc (suc j)))) (mod2 (suc j))
      ∙ sibling_on-next (suc j % 2 == 0) a b ds j

  -- The sibling is there, and the two make the digest above.
  sibling-parent :
      (ds : List Digest) (i : ℕ) (d : Digest)
      → get_elem? ds i ≡ some d
      → (step : Side × Digest) × (sibling h ds i ≡ some step)
        × (get_elem? (pair_up h ds) (i / 2) ≡ some (parent d step))
  unfolding sibling sibling_on pair_up
  sibling-parent [] i d e = cc
  sibling-parent (a ∷ []) zero d e = ((Side.right, a), refl, cc)
  sibling-parent (a ∷ []) (suc i) d e = cc
  sibling-parent (a ∷ b ∷ ds) zero d e = ((Side.right, b), refl, cc)
  sibling-parent (a ∷ b ∷ ds) (suc zero) d e = ((Side.left, a), refl, cc)
  sibling-parent (a ∷ b ∷ ds) (suc (suc i)) d e =
      let (step, s, p) = sibling-parent ds i d e in
      (step, sibling-next a b ds i ∙ s, ap (get_elem? (h.pair a b ∷ pair_up h ds)) (div2 i) ∙ p)

  -- A layer below others adds its step.
  path-layer :
      (l : List Digest) (fuel : ℕ) (ds : List Digest) (i : ℕ)
      → path h (l ∷ layers_from h fuel ds) i ≡ (
          sibling h l i >>= λ step.
          path h (layers_from h fuel ds) (i / 2) >>= λ steps. some (step ∷ steps))
  unfolding path layers_from
  path-layer l zero ds i = refl
  path-layer l (suc fuel) [] i = refl
  path-layer l (suc fuel) (a ∷ []) i = refl
  path-layer l (suc fuel) (a ∷ b ∷ ds) i = refl

  root_of-layer :
      (l : List Digest) (fuel : ℕ) (ds : List Digest)
      → root_of h (l ∷ layers_from h fuel ds) ≡ root_of h (layers_from h fuel ds)
  unfolding layers_from
  root_of-layer l zero ds = refl
  root_of-layer l (suc fuel) [] = refl
  root_of-layer l (suc fuel) (a ∷ []) = refl
  root_of-layer l (suc fuel) (a ∷ b ∷ ds) = refl

  climb-step :
      (d : Digest) (step : Side × Digest) (steps : List (Side × Digest))
      → climb h d (step ∷ steps) ≡ climb h (parent d step) steps
  unfolding climb
  climb-step d (Side.left, s) steps = refl
  climb-step d (Side.right, s) steps = refl

  -- With fuel for the layers, the path is computed, and it leads from its leaf to the root.
  climb-path :
      (fuel : ℕ) (ds : List Digest) (i : ℕ) (d : Digest)
      → length ds ≤ fuel
      → get_elem? ds i ≡ some d
      → (steps : List (Side × Digest)) × (path h (layers_from h fuel ds) i ≡ some steps)
        × (root_of h (layers_from h fuel ds) ≡ some (climb h d steps))
  unfolding path layers_from climb pair_up
  climb-path zero [] i d bound e = cc
  climb-path zero (a ∷ ds) i d bound e = ground (arith, bound)
  climb-path (suc fuel) [] i d bound e = cc
  climb-path (suc fuel) (a ∷ []) zero d bound e = ([], refl, e)
  climb-path (suc fuel) (a ∷ []) (suc i) d bound e = cc
  climb-path (suc fuel) (a ∷ b ∷ ds) i d bound e =
      let (step, s, p) = sibling-parent (a ∷ b ∷ ds) i d e in
      let (steps, q, r) =
        climb-path fuel (pair_up h (a ∷ b ∷ ds)) (i / 2) (parent d step)
          (omega (arith, bound, length-pair_up (a ∷ b ∷ ds))) p in
      (
        step ∷ steps,
        path-layer (a ∷ b ∷ ds) fuel (pair_up h (a ∷ b ∷ ds)) i ∙ (rw (s, q)),
        root_of-layer (a ∷ b ∷ ds) fuel (pair_up h (a ∷ b ∷ ds))
            ∙ r
            ∙ ap some (sym (climb-step d step steps)),
      )

  -- Every leaf of a tree has a path, with which it verifies against the root.
  pub merkle_path-verify_leaf :
      (ds : List Digest) (i : ℕ) (d : Digest)
      → get_elem? ds i ≡ some d
      → (steps : List (Side × Digest)) × (root : Digest) × (merkle_path h ds i ≡ some steps)
        × (merkle_root h ds ≡ some root)
        × (verify_leaf h d steps root ≡ true)
  unfolding merkle_path merkle_root verify_leaf
  merkle_path-verify_leaf ds i d e =
      let (steps, p, r) = climb-path (length ds) ds i d (omega arith) e in
      (steps, climb h d steps, p, r, (h.same_iff (climb h d steps) (climb h d steps)).1 refl)

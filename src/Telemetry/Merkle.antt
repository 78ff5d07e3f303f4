-- ===== src/Telemetry/Merkle.antt =====
-- The Merkle tree over block hashes (prismpath/ledger_ots.py, `merkle_root_and_paths` and
-- `verify_leaf`), which the telemetry adapter reuses. The hash function is a parameter; the hexadecimal
-- spelling of a digest is the digest.
pub mod Inclusion
use prismpath.Base.{
  ℕ, zero, suc, ◌+◌, ◌-◌, ◌%◌, ◌/◌, Option, none, some, Bool, true, false, if◌then◌else◌, List, [],
  ◌∷◌, ◌++◌, length, get_elem?, ◌==◌, ◌≡◌, ◌↔◌, leb, map,
}
use prismpath.Base.Maybe.{◌>>=◌}
use prismpath.Telemetry.Zeckendorf.{Bits}

-- SHA-256 of a block, of two digests side by side, and of an epoch's root behind the previous chained
-- root (`none` is the empty string), with the comparison of digests.
pub record Hashes (Digest : Type 0) : Type 0 where
  pub same : Digest → Digest → Bool
  pub same_iff : (a b : Digest) → (same a b ≡ true) ↔ (a ≡ b)
  pub leaf : Bits → Digest
  pub pair : Digest → Digest → Digest
  pub chain : Option Digest → Digest → Digest

-- A step of a path: the side that the sibling is on, and the sibling.
pub data Side : Type 0 where
  left right : Side

module _ {Digest : Type 0} (h : Hashes Digest) where
  -- `[_h(cur[i] + cur[i+1]) for i in range(0, len(cur), 2)]`, the last one doubled if it is odd.
  unfoldable pub pair_up : List Digest → List Digest
  pair_up [] = []
  pair_up (a ∷ []) = h.pair a a ∷ []
  pair_up (a ∷ b ∷ ds) = h.pair a b ∷ pair_up ds

  -- `while len(layers[-1]) > 1`, on fuel: a layer is at most half as long as the one below it, so the
  -- number of leaves is enough.
  unfoldable pub layers_from : ℕ → List Digest → List (List Digest)
  unfolding pair_up
  layers_from (suc fuel) (a ∷ b ∷ ds) = (a ∷ b ∷ ds) ∷ layers_from fuel (pair_up (a ∷ b ∷ ds))
  layers_from _ ds = ds ∷ []

  abbrev pub root_of : List (List Digest) → Option Digest
  root_of [] = none
  root_of (l ∷ []) = get_elem? l 0
  root_of (l ∷ k ∷ ls) = root_of (k ∷ ls)

  -- `if len(L) % 2: L = L + [L[-1]]`
  abbrev pub padded : List Digest → List Digest
  padded [] = []
  padded (a ∷ []) = a ∷ a ∷ []
  padded (a ∷ b ∷ ds) = a ∷ b ∷ padded ds

  -- `("R", L[idx+1]) if idx % 2 == 0 else ("L", L[idx-1])`; `none` is an IndexError.
  unfoldable pub sibling_on : Bool → List Digest → ℕ → Option (Side × Digest)
  sibling_on true l idx = get_elem? (padded l) (idx + 1) >>= λ s. some (Side.right, s)
  sibling_on false l idx = get_elem? (padded l) (idx - 1) >>= λ s. some (Side.left, s)

  unfoldable pub sibling : List Digest → ℕ → Option (Side × Digest)
  unfolding sibling_on
  sibling l idx = sibling_on (idx % 2 == 0) l idx

  -- `path(idx)`, over all layers but the last.
  unfoldable pub path : List (List Digest) → ℕ → Option (List (Side × Digest))
  unfolding sibling
  path [] idx = some []
  path (l ∷ []) idx = some []
  path (l ∷ k ∷ ls) idx =
      sibling l idx >>= λ step. path (k ∷ ls) (idx / 2) >>= λ steps. some (step ∷ steps)

  -- `merkle_root_and_paths`: the root, and the path of the leaf at an index.
  unfoldable pub merkle_root : List Digest → Option Digest
  unfolding layers_from
  merkle_root leaves = root_of (layers_from (length leaves) leaves)

  unfoldable pub merkle_path : List Digest → ℕ → Option (List (Side × Digest))
  unfolding layers_from path
  merkle_path leaves idx = path (layers_from (length leaves) leaves) idx

  unfoldable pub climb : Digest → List (Side × Digest) → Digest
  climb cur [] = cur
  climb cur ((Side.right, s) ∷ steps) = climb (h.pair cur s) steps
  climb cur ((Side.left, s) ∷ steps) = climb (h.pair s cur) steps

  -- `verify_leaf`
  unfoldable pub verify_leaf : Digest → List (Side × Digest) → Digest → Bool
  unfolding climb
  verify_leaf leaf steps root = h.same (climb leaf steps) root

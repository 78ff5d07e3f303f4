-- ===== src/Telemetry/SelfHeal.antt =====
-- The self-healing transport (adapters/telemetry/selfheal.py): blocks of a bit stream under a Merkle
-- root, a receiver that accepts a block only with its proof, and selective retransmission. The
-- receiver's dictionary has keys below `n` only, so it is a list of `n` slots.
pub mod Repair
use prismpath.Base.{
  ℕ, zero, suc, ◌+◌, ◌<◌, Option, none, some, Bool, true, false, if◌then◌else◌, List, [], ◌∷◌, ◌++◌,
  length, get_elem?, ◌==◌, ltb, map, take, drop,
}
use prismpath.Base.Maybe.{◌>>=◌}
use prismpath.Telemetry.Zeckendorf.{Bits}
use prismpath.Telemetry.Merkle.{Hashes, Side, merkle_root, merkle_path, verify_leaf}

-- `[bits[i:i + block_bits] for i in range(0, len(bits), block_bits)]` for blocks of `suc n` bits, on
-- fuel: a block takes a bit at least, so the number of bits is enough.
unfoldable pub slices : ℕ → ℕ → Bits → List Bits
slices fuel n [] = []
slices zero n (b ∷ bits) = []
slices (suc fuel) n (b ∷ bits) = take (suc n) (b ∷ bits) ∷ slices fuel n (drop (suc n) (b ∷ bits))

abbrev pub or_empty : List Bits → List Bits
or_empty [] = [] ∷ []
or_empty (b ∷ bs) = b ∷ bs

-- `chunk`; `none` is the ValueError.
unfoldable pub chunk : Bits → ℕ → Option (List Bits)
unfolding slices
chunk bits zero = none
chunk bits (suc n) = some (or_empty (slices (length bits) n bits))

-- `"".join(...)`
abbrev pub join : List Bits → Bits
join [] = []
join (b ∷ bs) = b ++ join bs

pub record Sender (Digest : Type 0) : Type 0 where
  pub blocks : List Bits
  pub root : Digest

pub record Receiver (Digest : Type 0) : Type 0 where
  pub root : Digest
  pub slots : List (Option Bits)

-- `self._blocks[idx] = block`
abbrev pub put : ℕ → Bits → List (Option Bits) → List (Option Bits)
put idx block [] = []
put zero block (s ∷ slots) = some block ∷ slots
put (suc idx) block (s ∷ slots) = s ∷ put idx block slots

-- The indices, from `i`, of the slots without a block.
abbrev pub missing_from : ℕ → List (Option Bits) → List ℕ
missing_from i [] = []
missing_from i (none ∷ slots) = i ∷ missing_from (suc i) slots
missing_from i (some b ∷ slots) = missing_from (suc i) slots

-- `len(self._blocks)`
abbrev pub held : List (Option Bits) → ℕ
held [] = 0
held (none ∷ slots) = held slots
held (some b ∷ slots) = suc (held slots)

-- The blocks in order; `none` is a KeyError.
abbrev pub collect : List (Option Bits) → Option (List Bits)
collect [] = some []
collect (none ∷ slots) = none
collect (some b ∷ slots) = collect slots >>= λ bs. some (b ∷ bs)

module _ {Digest : Type 0} (h : Hashes Digest) where
  -- The root of `commit`; its proofs are computed on request.
  unfoldable pub commit : List Bits → Option Digest
  unfolding merkle_root
  commit blocks = merkle_root h (map h.leaf blocks)

  unfoldable pub verify_block : Bits → List (Side × Digest) → Digest → Bool
  unfolding verify_leaf
  verify_block block proof root = verify_leaf h (h.leaf block) proof root

  -- `Sender.__init__`
  unfoldable pub make_sender : Bits → ℕ → Option (Sender Digest)
  unfolding chunk commit
  make_sender bits block_bits = chunk bits block_bits >>= λ blocks.
      commit blocks >>= λ root. some (record { blocks = blocks; root = root })

  -- `Sender.serve`; `none` is an IndexError.
  unfoldable pub serve : Sender Digest → ℕ → Option (Bits × List (Side × Digest))
  unfolding merkle_path
  serve s idx = get_elem? s.blocks idx >>= λ block.
      merkle_path h (map h.leaf s.blocks) idx >>= λ proof. some (block, proof)

  -- `Receiver.accept`, with the answer and the receiver after it.
  unfoldable pub accept : ℕ → Bits → List (Side × Digest) → Receiver Digest → Bool × Receiver Digest
  unfolding verify_block
  accept idx block proof r =
      if ltb idx (length r.slots)
      then (if verify_block block proof r.root
          then (true, record { root = r.root; slots = put idx block r.slots })
          else (false, r))
      else (false, r)

  unfoldable pub missing : Receiver Digest → List ℕ
  missing r = missing_from 0 r.slots

  unfoldable pub complete : Receiver Digest → Bool
  complete r = held r.slots == length r.slots

  -- `Receiver.assemble`; `none` is the ValueError.
  unfoldable pub assemble : Receiver Digest → Option Bits
  unfolding complete
  assemble r = if complete r then (collect r.slots >>= λ bs. some (join bs)) else none

  abbrev pub count : ℕ → Bool → List ℕ → List ℕ
  count idx true idxs = idx ∷ idxs
  count idx false idxs = idxs

  -- The body of `repair`'s loop, for each index.
  unfoldable pub repair_each :
      Sender Digest → List ℕ → Receiver Digest → Option (List ℕ × Receiver Digest)
  unfolding serve accept
  repair_each s [] r = some ([], r)
  repair_each s (idx ∷ idxs) r = serve s idx >>= λ (block, proof).
      repair_each s idxs (accept idx block proof r).1 >>= λ (more, r').
      some (count idx (accept idx block proof r).0 more, r')

  -- `repair`: the indices retransmitted, and the receiver after it.
  unfoldable pub repair : Sender Digest → Receiver Digest → Option (List ℕ × Receiver Digest)
  unfolding missing repair_each
  repair s r = repair_each s (missing r) r

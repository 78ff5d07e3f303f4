-- ===== src/Telemetry/Epochs.antt =====
-- The chained epochs and their retention (adapters/telemetry/epochs.py).
pub mod Retention
pub mod Soundness
pub mod Histories
pub mod Acknowledged
use prismpath.Base.{
  ℕ, zero, suc, ◌+◌, Option, none, some, Bool, true, false, not, if◌then◌else◌, List, [], ◌∷◌, ◌++◌,
  length, ltb, map, ◌&&◌,
}
use prismpath.Base.Maybe.{◌>>=◌}
use prismpath.Telemetry.Zeckendorf.{Bits}
use prismpath.Telemetry.Merkle.{Hashes}
use prismpath.Telemetry.SelfHeal.{chunk, commit}

-- `blocks` is `none` once the raw data is dropped.
pub record Epoch (Digest : Type 0) : Type 0 where
  pub id : ℕ
  pub blocks : Option (List Bits)
  pub merkle : Digest
  pub chained : Digest
  pub acked : Bool
  pub dropped_under_pressure : Bool

pub record EpochStore (Digest : Type 0) : Type 0 where
  pub block_bits : ℕ
  pub max_data_epochs : ℕ
  pub epochs : List (Epoch Digest)

abbrev pub is_some : Option (List Bits) → Bool
is_some none = false
is_some (some b) = true

module _ {Digest : Type 0} where
  unfoldable pub has_data : Epoch Digest → Bool
  has_data e = is_some e.blocks

  -- `EpochStore.__init__`
  unfoldable pub new_store : ℕ → ℕ → EpochStore Digest
  new_store block_bits max_data = record {
    block_bits = block_bits;
    max_data_epochs = max_data;
    epochs = [];
  }

  -- `len(with_data)`
  unfoldable pub data_count : List (Epoch Digest) → ℕ
  unfolding has_data
  data_count [] = 0
  data_count (e ∷ es) = if has_data e then suc (data_count es) else data_count es

  -- A victim of the cap: its blocks go, and it is a gap if it was not acknowledged.
  unfoldable pub evict : Epoch Digest → Epoch Digest
  evict e = record {
    id = e.id;
    blocks = none;
    merkle = e.merkle;
    chained = e.chained;
    acked = e.acked;
    dropped_under_pressure = if e.acked then e.dropped_under_pressure else true;
  }

  -- `with_data.pop(0)` is evicted.
  unfoldable pub evict_oldest : List (Epoch Digest) → List (Epoch Digest)
  unfolding has_data evict
  evict_oldest [] = []
  evict_oldest (e ∷ es) = if has_data e then evict e ∷ es else e ∷ evict_oldest es

  -- `_enforce_cap`, on fuel: an iteration evicts an epoch, so the number of epochs is enough.
  unfoldable pub enforce_cap : ℕ → ℕ → List (Epoch Digest) → List (Epoch Digest)
  unfolding data_count evict_oldest
  enforce_cap zero cap es = es
  enforce_cap (suc fuel) cap es =
      let rest = enforce_cap fuel cap (evict_oldest es) in
      if ltb cap (data_count es) then rest else es

  abbrev pub last_chained : Option Digest → List (Epoch Digest) → Option Digest
  last_chained prev [] = prev
  last_chained prev (e ∷ es) = last_chained (some e.chained) es

  -- What an acknowledgement does to an epoch.
  unfoldable pub confirm : Epoch Digest → Epoch Digest
  confirm e = record {
    id = e.id;
    blocks = none;
    merkle = e.merkle;
    chained = e.chained;
    acked = true;
    dropped_under_pressure = e.dropped_under_pressure;
  }

  -- `chain`
  unfoldable pub chain : EpochStore Digest → List Digest
  chain s = map (λ e. e.chained) s.epochs

  abbrev pub ids_where : (Epoch Digest → Bool) → List (Epoch Digest) → List ℕ
  ids_where test [] = []
  ids_where test (e ∷ es) = if test e then e.id ∷ ids_where test es else ids_where test es

  unfoldable pub retransmittable : EpochStore Digest → List ℕ
  unfolding has_data
  retransmittable s = ids_where has_data s.epochs

  unfoldable pub gaps : EpochStore Digest → List ℕ
  gaps s = ids_where (λ e. e.dropped_under_pressure) s.epochs

module _ {Digest : Type 0} (h : Hashes Digest) where
  -- The epoch that `seal` appends.
  unfoldable pub new_epoch : List (Epoch Digest) → List Bits → Digest → Epoch Digest
  new_epoch es blocks root = record {
    id = length es;
    blocks = some blocks;
    merkle = root;
    chained = h.chain (last_chained none es) root;
    acked = false;
    dropped_under_pressure = false;
  }

  -- `self.epochs.append(ep)` and `self._enforce_cap()`.
  unfoldable pub add_epoch : EpochStore Digest → List Bits → Digest → EpochStore Digest
  unfolding enforce_cap new_epoch
  add_epoch s blocks root = record {
    block_bits = s.block_bits;
    max_data_epochs = s.max_data_epochs;
    epochs =
        enforce_cap (suc (length s.epochs)) s.max_data_epochs
          (s.epochs ++ new_epoch s.epochs blocks root ∷ []);
  }

  -- `EpochStore.seal`; `none` is the ValueError of `chunk`.
  unfoldable pub seal : EpochStore Digest → Bits → Option (EpochStore Digest)
  unfolding chunk commit add_epoch
  seal s bits = chunk bits s.block_bits >>= λ blocks.
      commit h blocks >>= λ root. some (add_epoch s blocks root)

  -- `next(i for i, ep in enumerate(self.epochs) if ep.chained_root == chained_root)`
  unfoldable pub find_root : Digest → List (Epoch Digest) → Option ℕ
  find_root root [] = none
  find_root root (e ∷ es) =
      let rest = find_root root es >>= λ i. some (suc i) in
      if h.same e.chained root then some 0 else rest

  -- The loop of `ack` over `self.epochs[:idx + 1]`: the epochs after it, and `dropped`.
  unfoldable pub confirm_upto : ℕ → List (Epoch Digest) → List (Epoch Digest) × ℕ
  unfolding has_data confirm
  confirm_upto idx [] = ([], 0)
  confirm_upto zero (e ∷ es) = (confirm e ∷ es, if has_data e then 1 else 0)
  confirm_upto (suc idx) (e ∷ es) =
      let (more, dropped) = confirm_upto idx es in
      (confirm e ∷ more, if has_data e then suc dropped else dropped)

  unfoldable pub ack_at : EpochStore Digest → Option ℕ → EpochStore Digest × ℕ
  unfolding confirm_upto
  ack_at s none = (s, 0)
  ack_at s (some idx) = (
    record {
      block_bits = s.block_bits;
      max_data_epochs = s.max_data_epochs;
      epochs = (confirm_upto idx s.epochs).0;
    },
    (confirm_upto idx s.epochs).1,
  )

  -- `EpochStore.ack`: the store after it, and the number of epochs dropped.
  unfoldable pub ack : EpochStore Digest → Digest → EpochStore Digest × ℕ
  unfolding find_root ack_at
  ack s root = ack_at s (find_root root s.epochs)

  unfoldable pub verify_from : Option Digest → List (Epoch Digest) → Bool
  verify_from prev [] = true
  verify_from prev (e ∷ es) =
      h.same e.chained (h.chain prev e.merkle) && verify_from (some e.chained) es

  -- `verify_chain`
  unfoldable pub verify_chain : EpochStore Digest → Bool
  unfolding verify_from
  verify_chain s = verify_from none s.epochs

-- A call of a store, and the calls in order.
pub data Call (Digest : Type 0) : Type 0 where
  seal_call : Bits → Call Digest
  ack_call : Digest → Call Digest

module _ {Digest : Type 0} (h : Hashes Digest) where
  unfoldable pub perform : EpochStore Digest → Call Digest → Option (EpochStore Digest)
  unfolding seal ack
  perform s (Call.seal_call bits) = seal h s bits
  perform s (Call.ack_call root) = some (ack h s root).0

  unfoldable pub perform_all : EpochStore Digest → List (Call Digest) → Option (EpochStore Digest)
  unfolding perform
  perform_all s [] = some s
  perform_all s (c ∷ cs) = perform s c >>= λ s'. perform_all s' cs

-- ===== src/Examples/TelemetryRun.antt =====
-- The telemetry adapter (adapters/telemetry) with sums in place of hashes.
use prismpath.Base.{
  ℕ, ◌+◌, Option, none, some, Bool, if◌then◌else◌, true, false, List, [], ◌∷◌, ◌++◌, ◌==◌, ==_iff,
  ◌≡◌, refl, arith, map,
}
use prismpath.Base.Maybe.{◌>>=◌}
use prismpath.Base.Int.{ℤ, pos, eq_ℤ}
use prismpath.Telemetry.Zeckendorf.{Bits, encode, decode, encode_stream, decode_stream}
use prismpath.Telemetry.Zeckendorf.Greedy.{separated, last_bit}
use prismpath.Telemetry.Zeckendorf.Stream.{decode_stream-encode_stream, decode-encode}
use prismpath.Telemetry.Merkle.{Hashes, Side, merkle_root, merkle_path, verify_leaf}
use prismpath.Telemetry.Merkle.Inclusion.{merkle_path-verify_leaf}
use prismpath.Telemetry.SelfHeal.{chunk, make_sender, missing, assemble, repair, Receiver}
use prismpath.Telemetry.SelfHeal.Repair.{gap, kept, settled, repair-assemble}
use prismpath.Telemetry.Transport.{decode_stream-repair}
use prismpath.Telemetry.Epochs.{
  Epoch, EpochStore, data_count, confirm, new_store, ack, Call, perform_all,
}
use prismpath.Telemetry.Epochs.Soundness.{IsSound}
use prismpath.Telemetry.Epochs.Histories.{Extends, perform_all-IsSound, new_store-IsSound}
use prismpath.Telemetry.Epochs.Acknowledged.{ack-front}
use prismpath.Telemetry.AckChannel.{Message, receive, new_receiver}
use prismpath.Telemetry.AckChannel.Replay.{LetsThrough, receive-LetsThrough}

abbrev weight : Bits → ℕ
weight [] = 1
weight (true ∷ bits) = weight bits + weight bits + 1
weight (false ∷ bits) = weight bits + weight bits

abbrev chain_sum : Option ℕ → ℕ → ℕ
chain_sum none root = root
chain_sum (some prev) root = prev + prev + root

abbrev sums : Hashes ℕ
sums = record {
  same = λ a b. a == b;
  same_iff = λ a b. ==_iff a b;
  leaf = weight;
  pair = λ a b. a + a + a + b;
  chain = chain_sum;
}

abbrev one_zero : Bits
one_zero = true ∷ false ∷ []

decode_stream-encode_stream_example :
    (bits : Bits) × (encode_stream (3 ∷ 1 ∷ []) ≡ some bits)
    × (decode_stream (bits ++ one_zero) ≡ some (3 ∷ 1 ∷ []))
decode_stream-encode_stream_example =
    decode_stream-encode_stream (3 ∷ 1 ∷ []) one_zero (omega arith, (omega arith, tt)) refl

decode-encode_example :
    (zeck : Bits) × (encode 11 ≡ some (zeck ++ true ∷ []))
    × (separated zeck ≡ true)
    × (last_bit zeck ≡ true)
    × (decode (zeck ++ true ∷ []) ≡ some 11)
decode-encode_example = decode-encode 11 (omega arith)

merkle_path-verify_leaf_example :
    (steps : List (Side × ℕ)) × (root : ℕ) × (merkle_path sums (5 ∷ 7 ∷ 9 ∷ []) 2 ≡ some steps)
    × (merkle_root sums (5 ∷ 7 ∷ 9 ∷ []) ≡ some root)
    × (verify_leaf sums 9 steps root ≡ true)
merkle_path-verify_leaf_example = merkle_path-verify_leaf sums (5 ∷ 7 ∷ 9 ∷ []) 2 9 refl

abbrev stream : Bits
stream = true ∷ false ∷ true ∷ true ∷ true ∷ []

abbrev cut : List Bits
cut = (true ∷ false ∷ []) ∷ (true ∷ true ∷ []) ∷ (true ∷ []) ∷ []

abbrev lossy : List (Option Bits)
lossy = none ∷ some (true ∷ true ∷ []) ∷ none ∷ []

repair-assemble_example :
    (root : ℕ) × (make_sender sums stream 2 ≡ some (record { blocks = cut; root = root }))
    × (repair sums (record { blocks = cut; root = root }) (record { root = root; slots = lossy })
        ≡ some (
          missing sums (record { root = root; slots = lossy }),
          record { root = root; slots = map some cut },
        ))
    × (assemble sums (record { root = root; slots = map some cut }) ≡ some stream)
unfolding chunk
repair-assemble_example = repair-assemble sums stream 1 cut refl lossy (gap (kept (gap settled)))

-- The code of 3, 0011 in the source's spelling, and that of 1.
abbrev sent : Bits
sent = false ∷ false ∷ true ∷ true ∷ true ∷ true ∷ []

decode_stream-repair_example :
    (root : ℕ) × (r : Receiver ℕ) × (make_sender sums sent 4
      ≡ some (record {
        blocks = (false ∷ false ∷ true ∷ true ∷ []) ∷ (true ∷ true ∷ []) ∷ [];
        root = root;
      }))
    × (repair sums
          (record {
            blocks = (false ∷ false ∷ true ∷ true ∷ []) ∷ (true ∷ true ∷ []) ∷ [];
            root = root;
          })
          (record { root = root; slots = none ∷ some (true ∷ true ∷ []) ∷ [] })
        ≡ some
            (missing sums (record { root = root; slots = none ∷ some (true ∷ true ∷ []) ∷ [] }), r))
    × ((assemble sums r >>= decode_stream) ≡ some (3 ∷ 1 ∷ []))
unfolding chunk encode_stream
decode_stream-repair_example =
    decode_stream-repair sums (3 ∷ 1 ∷ []) (omega arith, (omega arith, tt)) sent refl 3
      ((false ∷ false ∷ true ∷ true ∷ []) ∷ (true ∷ true ∷ []) ∷ []) refl
      (none ∷ some (true ∷ true ∷ []) ∷ []) (gap (kept settled))

abbrev calls : List (Call ℕ)
calls =
    Call.seal_call stream ∷ Call.seal_call one_zero ∷ Call.ack_call 4 ∷ Call.seal_call stream ∷ []

perform_all-IsSound_example :
    (t : EpochStore ℕ) × (perform_all sums (new_store 2 1) calls ≡ some t)
    × IsSound sums t
    × Extends sums t (new_store 2 1)
unfolding new_store
perform_all-IsSound_example =
    perform_all-IsSound sums (new_store 2 1) 1 refl (new_store-IsSound sums 2 1) calls

-- An epoch with an empty block.
abbrev epoch : ℕ → ℕ → Epoch ℕ
epoch i root = record {
  id = i;
  blocks = some ([] ∷ []);
  merkle = root;
  chained = root;
  acked = false;
  dropped_under_pressure = false;
}

ack-front_example :
    ((ack sums
        (record {
          block_bits = 2;
          max_data_epochs = 3;
          epochs = epoch 0 5 ∷ epoch 1 6 ∷ epoch 2 7 ∷ [];
        })
        6).0.epochs
      ≡ map confirm (epoch 0 5 ∷ epoch 1 6 ∷ []) ++ epoch 2 7 ∷ [])
    × ((ack sums
          (record {
            block_bits = 2;
            max_data_epochs = 3;
            epochs = epoch 0 5 ∷ epoch 1 6 ∷ epoch 2 7 ∷ [];
          })
          6).1
        ≡ data_count (epoch 0 5 ∷ epoch 1 6 ∷ []))
ack-front_example =
    ack-front sums
      (record {
        block_bits = 2;
        max_data_epochs = 3;
        epochs = epoch 0 5 ∷ epoch 1 6 ∷ epoch 2 7 ∷ [];
      })
      6 (epoch 0 5 ∷ []) (epoch 1 6) (epoch 2 7 ∷ []) refl ((λ e. omega (arith, e)), tt) refl

abbrev sign : ℕ → ℤ → ℤ × ℕ
sign root seq = (seq, root)

abbrev same_tag : ℤ × ℕ → ℤ × ℕ → Bool
same_tag (s, r) (t, q) = if eq_ℤ s t then r == q else false

abbrev message : ℕ → ℤ → ℕ → Message ℕ (ℤ × ℕ)
message root seq claimed = record { root = root; seq = seq; tag = (seq, claimed) }

-- One authentic message, the same again, and a forged one.
receive-LetsThrough_example : LetsThrough sums sign same_tag (new_receiver (new_store 2 1)) (
    receive sums sign same_tag
      (new_receiver (new_store 2 1))
      (message 4 (pos 0) 4 ∷ message 4 (pos 0) 4 ∷ message 4 (pos 1) 5 ∷ []))
receive-LetsThrough_example =
    receive-LetsThrough sums sign same_tag (new_receiver (new_store 2 1))
      (message 4 (pos 0) 4 ∷ message 4 (pos 0) 4 ∷ message 4 (pos 1) 5 ∷ [])

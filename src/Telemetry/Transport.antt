-- ===== src/Telemetry/Transport.antt =====
-- The codec (adapters/telemetry/zeckendorf.py) over the self-healing transport
-- (adapters/telemetry/selfheal.py).
use prismpath.Base.{ℕ, suc, ◌≤◌, Option, some, List, [], All, ◌≡◌, refl, sym, ap, ◌∙◌, append-nil}
use prismpath.Base.Maybe.{◌>>=◌}
use prismpath.Telemetry.Zeckendorf.{Bits, encode_stream, decode_stream}
use prismpath.Telemetry.Zeckendorf.Stream.{decode_stream-encode_stream}
use prismpath.Telemetry.Merkle.{Hashes}
use prismpath.Telemetry.SelfHeal.{chunk, Receiver, make_sender, missing, assemble, repair}
use prismpath.Telemetry.SelfHeal.Repair.{Agrees, repair-assemble, same_answer}

module _ {Digest : Type 0} (h : Hashes Digest) where
  -- Positive integers, encoded, cut into blocks of `suc n` bits and partly lost on the way, are the integers
  -- that are decoded after a repair, if the receiver has the sender's root and holds the right block in each
  -- slot that is not empty.
  pub decode_stream-repair :
      (values : List ℕ)
      → All (λ v. 1 ≤ v) values
      → (bits : Bits) → encode_stream values ≡ some bits
      → (n : ℕ) (blocks : List Bits) → chunk bits (suc n) ≡ some blocks
      → (slots : List (Option Bits)) → Agrees slots blocks
      → (root : Digest) × (r : Receiver Digest) × (make_sender h bits (suc n)
          ≡ some (record { blocks = blocks; root = root }))
        × (repair h
              (record { blocks = blocks; root = root })
              (record { root = root; slots = slots })
            ≡ some (missing h (record { root = root; slots = slots }), r))
        × ((assemble h r >>= decode_stream) ≡ some values)
  decode_stream-repair values positive bits e n blocks cut slots a =
      let (root, made, repaired, whole) = repair-assemble h bits n blocks cut slots a in
      let (sent, e', decoded) = decode_stream-encode_stream values [] positive refl in
      (
        root,
        _,
        made,
        repaired,
        ap (λ o. o >>= decode_stream) whole
            ∙ ap decode_stream (same_answer bits sent (sym e ∙ e') ∙ sym (append-nil sent))
            ∙ decoded,
      )

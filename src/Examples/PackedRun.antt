-- ===== src/Examples/PackedRun.antt =====
-- Three integers in words of eight bytes (adapters/telemetry/packed.py).
use prismpath.Base.{ℕ, ◌<◌, some, false, List, [], ◌∷◌, ◌++◌, replicate, ◌≡◌, refl, arith}
use prismpath.Telemetry.Zeckendorf.{Bits, encode_stream}
use prismpath.Telemetry.Packed.{encode_words, decode_words, unpack}
use prismpath.Telemetry.Packed.Words.{decode_words-encode_words}

decode_words-encode_words_example :
    (data' : List ℕ) × (bits : Bits) × (j : ℕ) × (encode_stream (1 ∷ 7 ∷ 100 ∷ []) ≡ some bits)
    × (encode_words 64 (1 ∷ 7 ∷ 100 ∷ []) ≡ some data')
    × (unpack data' ≡ bits ++ replicate j false)
    × (j < 64)
    × (decode_words data' ≡ some (1 ∷ 7 ∷ 100 ∷ []))
decode_words-encode_words_example =
    decode_words-encode_words 7 64 (1 ∷ 7 ∷ 100 ∷ []) refl
      (omega arith, (omega arith, (omega arith, tt)))

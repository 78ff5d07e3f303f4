-- ===== src/Telemetry/Packed.antt =====
-- The words on the wire (adapters/telemetry/packed.py): bits into bytes and back. A byte is a number.
-- `none` is the OverflowError of `to_bytes`, or the error of the codec.
pub mod Bytes
pub mod Words
use prismpath.Base.{
  ℕ, zero, suc, ◌+◌, ◌-◌, ◌*◌, ◌/◌, ◌%◌, Option, none, some, Bool, true, false, if◌then◌else◌, List,
  [], ◌∷◌, ◌++◌, ◌==◌,
}
use prismpath.Base.Maybe.{◌>>=◌}
use prismpath.Telemetry.Zeckendorf.{Bits, encode_stream, decode_stream}

-- `acc.to_bytes(k, "big")`
unfoldable pub to_bytes : ℕ → ℕ → Option (List ℕ)
to_bytes zero acc = if acc == 0 then some [] else none
to_bytes (suc k) acc = to_bytes k (acc / 256) >>= λ high. some (high ++ acc % 256 ∷ [])

-- The variables of `pack`.
pub record Packing : Type 0 where
  pub out : List ℕ
  pub acc : ℕ
  pub n : ℕ

abbrev pub bit_value : Bool → ℕ
bit_value true = 1
bit_value false = 0

-- The body of the loop.
unfoldable pub push_bit : ℕ → Bool → Packing → Option Packing
unfolding to_bytes
push_bit word_bits b s =
    let acc = s.acc * 2 + bit_value b in
    if suc s.n == word_bits
    then (to_bytes (word_bits / 8) acc >>= λ bytes.
        some (record { out = s.out ++ bytes; acc = 0; n = 0 }))
    else some (record { out = s.out; acc = acc; n = suc s.n })

unfoldable pub push_all : ℕ → Bits → Packing → Option Packing
unfolding push_bit
push_all word_bits [] s = some s
push_all word_bits (b ∷ bits) s = push_bit word_bits b s >>= λ t. push_all word_bits bits t

-- `acc << j`
abbrev pub shift : ℕ → ℕ → ℕ
shift zero acc = acc
shift (suc j) acc = shift j (acc * 2)

-- The partial word.
unfoldable pub flush_word : ℕ → Packing → Option (List ℕ)
unfolding to_bytes
flush_word word_bits s =
    if s.n == 0
    then some s.out
    else (to_bytes (word_bits / 8) (shift (word_bits - s.n) s.acc) >>= λ bytes.
        some (s.out ++ bytes))

unfoldable pub pack : ℕ → Bits → Option (List ℕ)
unfolding push_all flush_word
pack word_bits bits =
    push_all word_bits bits (record { out = []; acc = 0; n = 0 }) >>= λ s. flush_word word_bits s

-- The low bits of a number, the highest first.
unfoldable pub bits_of : ℕ → ℕ → Bits
bits_of zero acc = []
bits_of (suc n) acc = bits_of n (acc / 2) ++ (acc % 2 == 1) ∷ []

-- `unpack`: `format(b, "08b")` of each byte.
unfoldable pub unpack : List ℕ → Bits
unfolding bits_of
unpack [] = []
unpack (b ∷ data') = bits_of 8 b ++ unpack data'

-- `encode`
unfoldable pub encode_words : ℕ → List ℕ → Option (List ℕ)
unfolding pack encode_stream
encode_words word_bits ints = encode_stream ints >>= λ bits. pack word_bits bits

-- `decode`
unfoldable pub decode_words : List ℕ → Option (List ℕ)
unfolding unpack decode_stream
decode_words data' = decode_stream (unpack data')

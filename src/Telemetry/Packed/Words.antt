-- ===== src/Telemetry/Packed/Words.antt =====
-- What is packed (adapters/telemetry/packed.py) is unpacked with zeros behind it, and decoded.
use prismpath.Base.{
  ℕ, zero, suc, ◌+◌, ◌-◌, ◌*◌, ◌/◌, ◌≤◌, ◌<◌, Option, some, Bool, true, false, if◌then◌else◌, List,
  [], ◌∷◌, ◌++◌, ◌==◌, ==_iff, replicate, ◌≡◌, refl, sym, ap, subst, ◌∙◌, arith, append-nil,
  append_assoc, All,
}
use prismpath.Base.Maybe.{◌>>=◌}
use prismpath.Telemetry.Zeckendorf.{Bits, encode_stream, decode_stream}
use prismpath.Telemetry.Zeckendorf.Greedy.{separated}
use prismpath.Telemetry.Zeckendorf.Stream.{decode_stream-encode_stream}
use prismpath.Telemetry.Packed.{
  to_bytes, Packing, bit_value, push_bit, push_all, shift, flush_word, pack, bits_of, unpack,
  encode_words, decode_words,
}
use prismpath.Telemetry.Packed.Bytes.{
  more, halve, Fits, eight, eight-mul, halve-more, halve-shift, bits_of-padded, unpack-append,
  to_bytes-unpack, more-add, half_bit, bits_of-push,
}

-- Words of `suc k` bytes.
module _ (k w : ℕ) (bytes_in : w ≡ suc k * 8) where
  word_eq : eight (suc k) ≡ w
  word_eq = eight-mul (suc k) ∙ sym bytes_in

  bytes_eq : w / 8 ≡ suc k
  bytes_eq = omega (arith, bytes_in)

  -- A whole word is written.
  word-unpack :
      (acc : ℕ)
      → Fits w acc
      → (bytes : List ℕ) × (to_bytes (w / 8) acc ≡ some bytes) × (unpack bytes ≡ bits_of w acc)
  word-unpack acc fits =
      let (bytes, e, same) = to_bytes-unpack (suc k) acc (ap (λ v. halve v acc) word_eq ∙ fits) in
      (bytes, ap (λ v. to_bytes v acc) bytes_eq ∙ e, same ∙ ap (λ v. bits_of v acc) word_eq)

  -- The bits so far are in the bytes and in the word that is open.
  record IsPacked (done : Bits) (s : Packing) : Type 0 where
    all_bits : unpack s.out ++ bits_of s.n s.acc ≡ done
    fits : Fits s.n s.acc
    room : suc s.n ≤ w

  abbrev PushedTo : Bits → Option Packing → Type 0
  PushedTo done o = (t : Packing) × (o ≡ some t) × IsPacked done t

  push_bit-PushedTo :
      (b : Bool) (done : Bits) (s : Packing)
      → IsPacked done s
      → PushedTo (done ++ b ∷ []) (push_bit w b s)
  unfolding push_bit bits_of
  push_bit-PushedTo b done s p = at (suc s.n == w) refl
    where
      acc : ℕ
      acc = s.acc * 2 + bit_value b

      fits_more : Fits (suc s.n) acc
      fits_more = ap (halve s.n) (half_bit s.acc b) ∙ p.fits

      with_bit : unpack s.out ++ bits_of (suc s.n) acc ≡ done ++ b ∷ []
      with_bit =
          ap (λ t. unpack s.out ++ t) (bits_of-push s.n s.acc b)
          ∙ sym (append_assoc (unpack s.out) (bits_of s.n s.acc) (b ∷ []))
          ∙ ap (λ t. t ++ b ∷ []) p.all_bits

      full :
          suc s.n ≡ w
          → PushedTo (done ++ b ∷ []) (
              to_bytes (w / 8) acc >>= λ bytes.
              some (record { out = s.out ++ bytes; acc = 0; n = 0 }))
      full e =
          let (bytes, f, same) = word-unpack acc (sym (ap (λ v. halve v acc) e) ∙ fits_more) in
          (
            record { out = s.out ++ bytes; acc = 0; n = 0 },
            ap (λ o. o >>= λ bs. some (record { out = s.out ++ bs; acc = 0; n = 0 })) f,
            record {
              all_bits =
                  append-nil (unpack (s.out ++ bytes))
                  ∙ unpack-append s.out bytes
                  ∙ ap (λ t. unpack s.out ++ t) (same ∙ ap (λ v. bits_of v acc) (sym e))
                  ∙ with_bit;
              fits = refl;
              room = omega (arith, bytes_in);
            },
          )

      at :
          (c : Bool)
          → (suc s.n == w) ≡ c
          → PushedTo (done ++ b ∷ []) (
              if c
              then (to_bytes (w / 8) acc >>= λ bytes.
                  some (record { out = s.out ++ bytes; acc = 0; n = 0 }))
              else some (record { out = s.out; acc = acc; n = suc s.n }))
      at true e = full ((==_iff (suc s.n) w).0 e)
      at false e = (
        record { out = s.out; acc = acc; n = suc s.n },
        refl,
        record { all_bits = with_bit; fits = fits_more; room = not_full s.n p.room e },
      )
        where
          not_full : (n : ℕ) → suc n ≤ w → (suc n == w) ≡ false → suc (suc n) ≤ w
          not_full n r e = ground (arith, r, e)

  push_all-PushedTo :
      (bits done : Bits) (s : Packing)
      → IsPacked done s
      → PushedTo (done ++ bits) (push_all w bits s)
  unfolding push_all
  push_all-PushedTo [] done s p = (s, refl, subst (λ t. IsPacked t s) (sym (append-nil done)) p)
  push_all-PushedTo (b ∷ bits) done s p =
      let (t, e, q) = push_bit-PushedTo b done s p in
      let (u, f, r) = push_all-PushedTo bits (done ++ b ∷ []) t q in
      (
        u,
        ap (λ o. o >>= λ x. push_all w bits x) e ∙ f,
        subst (λ ds. IsPacked ds u) (append_assoc done (b ∷ []) bits) r,
      )

  -- The bytes hold the bits, and fewer zeros behind them than a word has bits.
  abbrev PaddedTo : Bits → Option (List ℕ) → Type 0
  PaddedTo done o =
      (data' : List ℕ) × (j : ℕ) × (o ≡ some data')
      × (unpack data' ≡ done ++ replicate j false)
      × (j < w)

  not_zero : (n : ℕ) → (suc n == 0) ≡ false
  not_zero n = ground arith

  flush_word-PaddedTo :
      (done : Bits) (s : Packing) → IsPacked done s → PaddedTo done (flush_word w s)
  unfolding flush_word bits_of
  flush_word-PaddedTo done s p = at s.n refl
    where
      at :
          (n : ℕ)
          → s.n ≡ n
          → PaddedTo done (
              if n == 0
              then some s.out
              else (to_bytes (w / 8) (shift (w - n) s.acc) >>= λ bytes. some (s.out ++ bytes)))
      at zero e = (
        s.out,
        0,
        refl,
        sym (append-nil (unpack s.out))
            ∙ ap (λ n. unpack s.out ++ bits_of n s.acc) (sym e)
            ∙ p.all_bits
            ∙ sym (append-nil done),
        omega (arith, bytes_in),
      )
      at (suc n) e =
          let j = w - suc n in
          let total : more j (suc n) ≡ w = omega (arith, more-add j (suc n), p.room, e) in
          let fits_shifted : Fits w (shift j s.acc) =
            ap (λ v. halve v (shift j s.acc)) (sym total)
            ∙ halve-more j (suc n) (shift j s.acc)
            ∙ ap (halve (suc n)) (halve-shift j s.acc)
            ∙ ap (λ v. halve v s.acc) (sym e)
            ∙ p.fits in
          let (bytes, f, same) = word-unpack (shift j s.acc) fits_shifted in
          (
            s.out ++ bytes,
            j,
            ap
                  (λ b.
                    if b
                    then some s.out
                    else (to_bytes (w / 8) (shift (w - suc n) s.acc) >>= λ bs. some (s.out ++ bs)))
                  (not_zero n)
                ∙ ap (λ o. o >>= λ bs. some (s.out ++ bs)) f,
            unpack-append s.out bytes
                ∙ ap (λ t. unpack s.out ++ t)
                    (same
                      ∙ ap (λ v. bits_of v (shift j s.acc)) (sym total)
                      ∙ bits_of-padded j (suc n) s.acc
                      ∙ ap (λ v. bits_of v s.acc ++ replicate j false) (sym e))
                ∙ sym (append_assoc (unpack s.out) (bits_of s.n s.acc) (replicate j false))
                ∙ ap (λ t. t ++ replicate j false) p.all_bits,
            omega (arith, p.room),
          )

  pack-PaddedTo : (bits : Bits) → PaddedTo bits (pack w bits)
  unfolding pack bits_of unpack
  pack-PaddedTo bits =
      let start : Packing = record { out = []; acc = 0; n = 0 } in
      let (s, e, p) =
        push_all-PushedTo bits [] start
          (record { all_bits = refl; fits = refl; room = omega (arith, bytes_in) }) in
      let (data', j, f, same, less) = flush_word-PaddedTo bits s p in
      (data', j, ap (λ o. o >>= λ t. flush_word w t) e ∙ f, same, less)

zeros_separated : (j : ℕ) → separated (replicate j false) ≡ true
zeros_separated zero = refl
zeros_separated (suc zero) = refl
zeros_separated (suc (suc j)) = zeros_separated (suc j)

-- Positive integers are encoded into whole bytes, and these are decoded to the same integers, for words of
-- any positive number of bytes; the bytes hold the bits of the stream and behind them fewer zeros than a
-- word has bits.
pub decode_words-encode_words :
    (k w : ℕ) (values : List ℕ)
    → w ≡ suc k * 8
    → All (λ n. 1 ≤ n) values
    → (data' : List ℕ) × (bits : Bits) × (j : ℕ) × (encode_stream values ≡ some bits)
      × (encode_words w values ≡ some data')
      × (unpack data' ≡ bits ++ replicate j false)
      × (j < w)
      × (decode_words data' ≡ some values)
unfolding encode_words decode_words
decode_words-encode_words k w values bytes_in positive =
    let (bits, coded, plain) = decode_stream-encode_stream values [] positive refl in
    let (data', j, e, same, less) = pack-PaddedTo k w bytes_in bits in
    let (bits', coded', padded) =
      decode_stream-encode_stream values (replicate j false) positive (zeros_separated j) in
    (
      data',
      bits,
      j,
      coded,
      ap (λ o. o >>= λ b. pack w b) coded ∙ e,
      same,
      less,
      ap decode_stream
            (same ∙ ap (λ b. b ++ replicate j false) (same_bits bits bits' (sym coded ∙ coded')))
          ∙ padded,
    )
  where
    same_bits : (a b : Bits) → some a ≡ some b → a ≡ b
    same_bits a b e = cc

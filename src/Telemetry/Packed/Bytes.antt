-- ===== src/Telemetry/Packed/Bytes.antt =====
-- Bytes, and the bits in them (adapters/telemetry/packed.py).
use prismpath.Base.{
  ℕ, zero, suc, ◌+◌, ◌*◌, ◌/◌, ◌%◌, none, some, Bool, true, false, if◌then◌else◌, List, [], ◌∷◌,
  ◌++◌, ◌==◌, replicate, ◌≡◌, refl, sym, ap, ◌∙◌, arith, append-nil, append_assoc,
}
use prismpath.Base.Maybe.{◌>>=◌}
use prismpath.Telemetry.Packed.{to_bytes, bit_value, shift, bits_of, unpack}

-- `i` more.
abbrev pub more : ℕ → ℕ → ℕ
more zero m = m
more (suc i) m = suc (more i m)

abbrev pub halve : ℕ → ℕ → ℕ
halve zero acc = acc
halve (suc i) acc = halve i (acc / 2)

-- The number has at most `n` bits.
abbrev pub Fits : ℕ → ℕ → Type 0
Fits n acc = halve n acc ≡ 0

pub eight : ℕ → ℕ
eight zero = zero
eight (suc k) = more 8 (eight k)

pub eight-mul : (k : ℕ) → eight k ≡ k * 8
unfolding eight
eight-mul zero = omega arith
eight-mul (suc k) = omega (arith, eight-mul k)

bits_of-more : (i m acc : ℕ) → bits_of (more i m) acc ≡ bits_of m (halve i acc) ++ bits_of i acc
unfolding bits_of
bits_of-more zero m acc = sym (append-nil (bits_of m acc))
bits_of-more (suc i) m acc =
    ap (λ t. t ++ (acc % 2 == 1) ∷ []) (bits_of-more i m (acc / 2))
    ∙ append_assoc (bits_of m (halve i (acc / 2))) (bits_of i (acc / 2)) ((acc % 2 == 1) ∷ [])

pub halve-more : (i m acc : ℕ) → halve (more i m) acc ≡ halve m (halve i acc)
halve-more zero m acc = refl
halve-more (suc i) m acc = halve-more i m (acc / 2)

halve-byte : (acc : ℕ) → halve 8 acc ≡ acc / 256
halve-byte acc = omega arith

shift-double : (i q : ℕ) → shift i (q * 2) ≡ shift i q * 2
shift-double zero q = refl
shift-double (suc i) q = shift-double i (q * 2)

half_sum : (s r : ℕ) → (s * 2 + r) / 2 ≡ s + r / 2
half_sum s r = omega arith

odd_sum : (s r : ℕ) → (s * 2 + r) % 2 ≡ r % 2
odd_sum s r = omega arith

-- What is shifted out of the low bits does not show in them.
bits_of-shift : (i q r : ℕ) → bits_of i (shift i q + r) ≡ bits_of i r
unfolding bits_of
bits_of-shift zero q r = refl
bits_of-shift (suc i) q r =
    let low = shift-double i q in
    λ j.
      (ap (λ t. bits_of i ((t + r) / 2)) low
          ∙ ap (bits_of i) (half_sum (shift i q) r)
          ∙ bits_of-shift i q (r / 2))
        j
      ++ (ap (λ t. ((t + r) % 2) == 1) low ∙ ap (λ t. t == 1) (odd_sum (shift i q) r)) j ∷ []

pub halve-shift : (i q : ℕ) → halve i (shift i q) ≡ q
halve-shift zero q = refl
halve-shift (suc i) q =
    ap (λ t. halve i (t / 2)) (shift-double i q) ∙ ap (halve i) (omega arith) ∙ halve-shift i q

pub whole : (acc : ℕ) → shift 8 (acc / 256) + acc % 256 ≡ acc
whole acc = omega arith

bits_of-byte : (acc : ℕ) → bits_of 8 (acc % 256) ≡ bits_of 8 acc
bits_of-byte acc = sym (bits_of-shift 8 (acc / 256) (acc % 256)) ∙ ap (bits_of 8) (whole acc)

bits_of-zero : (i : ℕ) → bits_of i 0 ≡ replicate i false
unfolding bits_of
bits_of-zero zero = refl
bits_of-zero (suc i) = ap (λ t. t ++ false ∷ []) (bits_of-zero i) ∙ at_end i
  where
    at_end : (i : ℕ) → replicate i false ++ false ∷ [] ≡ false ∷ replicate i false
    at_end zero = refl
    at_end (suc i) = ap (λ t. false ∷ t) (at_end i)

-- A number that is shifted to the left has zeros on its right.
pub bits_of-padded :
    (j n acc : ℕ) → bits_of (more j n) (shift j acc) ≡ bits_of n acc ++ replicate j false
bits_of-padded j n acc = bits_of-more j n (shift j acc) ∙ (λ i.
    bits_of n (halve-shift j acc i)
    ++ (ap (bits_of j) (plus_zero (shift j acc)) ∙ bits_of-shift j acc 0 ∙ bits_of-zero j) i)
  where
    plus_zero : (t : ℕ) → t ≡ t + 0
    plus_zero t = omega arith

pub unpack-append : (xs ys : List ℕ) → unpack (xs ++ ys) ≡ unpack xs ++ unpack ys
unfolding unpack
unpack-append [] ys = refl
unpack-append (x ∷ xs) ys =
    ap (λ t. bits_of 8 x ++ t) (unpack-append xs ys)
    ∙ sym (append_assoc (bits_of 8 x) (unpack xs) (unpack ys))

unpack-one : (b : ℕ) → unpack (b ∷ []) ≡ bits_of 8 b
unfolding unpack
unpack-one b = append-nil (bits_of 8 b)

-- A number that fits is written, and read back bit by bit.
pub to_bytes-unpack :
    (k acc : ℕ)
    → Fits (eight k) acc
    → (bytes : List ℕ) × (to_bytes k acc ≡ some bytes) × (unpack bytes ≡ bits_of (eight k) acc)
unfolding to_bytes eight unpack bits_of
to_bytes-unpack zero acc fits = ([], ap (λ (t : ℕ). if t == 0 then some [] else none) fits, refl)
to_bytes-unpack (suc k) acc fits =
    let down : Fits (eight k) (acc / 256) =
      sym (ap (halve (eight k)) (halve-byte acc)) ∙ sym (halve-more 8 (eight k) acc) ∙ fits in
    let (high, e, same) = to_bytes-unpack k (acc / 256) down in
    (
      high ++ acc % 256 ∷ [],
      ap (λ o. o >>= λ h. some (h ++ acc % 256 ∷ [])) e,
      unpack-append high (acc % 256 ∷ [])
          ∙ (λ i. same i ++ (unpack-one (acc % 256) ∙ bits_of-byte acc) i)
          ∙ ap (λ t. bits_of (eight k) t ++ bits_of 8 acc) (sym (halve-byte acc))
          ∙ sym (bits_of-more 8 (eight k) acc),
    )

pub more-add : (i m : ℕ) → more i m ≡ i + m
more-add zero m = omega arith
more-add (suc i) m = omega (arith, more-add i m)

pub half_bit : (acc : ℕ) (b : Bool) → (acc * 2 + bit_value b) / 2 ≡ acc
half_bit acc true = omega arith
half_bit acc false = omega arith

low_bit : (acc : ℕ) (b : Bool) → ((acc * 2 + bit_value b) % 2 == 1) ≡ b
low_bit acc true = ap (λ t. t == 1) (one acc)
  where
    one : (acc : ℕ) → (acc * 2 + 1) % 2 ≡ 1
    one acc = omega arith
low_bit acc false = ap (λ t. t == 1) (none_left acc)
  where
    none_left : (acc : ℕ) → (acc * 2 + 0) % 2 ≡ 0
    none_left acc = omega arith

pub bits_of-push :
    (n acc : ℕ) (b : Bool) → bits_of (suc n) (acc * 2 + bit_value b) ≡ bits_of n acc ++ b ∷ []
unfolding bits_of
bits_of-push n acc b = λ i. bits_of n (half_bit acc b i) ++ low_bit acc b i ∷ []

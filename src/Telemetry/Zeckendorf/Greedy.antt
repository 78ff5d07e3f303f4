-- ===== src/Telemetry/Zeckendorf/Greedy.antt =====
-- The greedy loop of `encode` (adapters/telemetry/zeckendorf.py) finds the Zeckendorf representation,
-- and `decode` reads it back.
use prismpath.Base.{
  ℕ, zero, suc, ◌+◌, ◌-◌, ◌≤◌, ◌<◌, some, Bool, true, false, ◌&&◌, not, if◌then◌else◌, [], ◌∷◌,
  ◌++◌, length, leb, reverse, ◌≡◌, refl, sym, ap, ◌∙◌, arith, Bool-cases, inl, inr, leb→le, leb→gt,
  length-append, ge→ltb, gt→leb, le→leb, tests,
}
use Prim.Native.Nat.add
use native.Mathlib.Nat.{add-zero}
use prismpath.Telemetry.Zeckendorf.{Bits, greedy, encode, decode, weigh, ends_in_11, init}
use prismpath.Telemetry.Zeckendorf.Basis.{
  fib, basis, ascending, fib_pos, fib-suc_le_twice, reverse-basis, fibs_upto-basis, grow_by-basis,
}

-- The number that bits stand for, from the term `i` on, low to high.
abbrev pub value : ℕ → Bits → ℕ
value i [] = 0
value i (d ∷ ds) = (if d then fib i else 0) + value (suc i) ds

-- No two adjacent ones.
abbrev pub separated : Bits → Bool
separated [] = true
separated (a ∷ []) = true
separated (a ∷ b ∷ ds) = not (a && b) && separated (b ∷ ds)

abbrev pub last_bit : Bits → Bool
last_bit [] = false
last_bit (a ∷ []) = a
last_bit (a ∷ b ∷ ds) = last_bit (b ∷ ds)

value-snoc :
    (i : ℕ) (ds : Bits) (d : Bool)
    → value i (ds ++ d ∷ []) ≡ value i ds + (if d then fib (length ds + i) else 0)
value-snoc i [] d = rw (add.zero i) (omega arith)
value-snoc i (e ∷ ds) d =
    let shift : length ds + suc i ≡ suc (length ds) + i = omega arith in
    omega (arith, rw shift at (value-snoc (suc i) ds d))

pub separated-snoc :
    (ds : Bits) (d : Bool)
    → separated ds ≡ true
    → (last_bit ds && d) ≡ false
    → separated (ds ++ d ∷ []) ≡ true
separated-snoc [] d h k = refl
separated-snoc (a ∷ []) d h k = ground arith
separated-snoc (a ∷ b ∷ ds) d h k = ground (arith, separated-snoc (b ∷ ds) d)

pub last_bit-snoc : (ds : Bits) (d : Bool) → last_bit (ds ++ d ∷ []) ≡ d
last_bit-snoc [] d = refl
last_bit-snoc (a ∷ []) d = refl
last_bit-snoc (a ∷ b ∷ ds) d = last_bit-snoc (b ∷ ds) d

ends_in_11-snoc : (ds : Bits) → ends_in_11 (ds ++ true ∷ []) ≡ last_bit ds
ends_in_11-snoc [] = refl
ends_in_11-snoc (a ∷ []) = ground arith
ends_in_11-snoc (a ∷ b ∷ []) = ground arith
ends_in_11-snoc (a ∷ b ∷ c ∷ ds) = ends_in_11-snoc (b ∷ c ∷ ds)

init-snoc : (ds : Bits) (d : Bool) → init (ds ++ d ∷ []) ≡ ds
init-snoc [] d = refl
init-snoc (a ∷ []) d = refl
init-snoc (a ∷ b ∷ ds) d = ap (λ t. a ∷ t) (init-snoc (b ∷ ds) d)

weigh-ascending : (i k : ℕ) (ds : Bits) → length ds ≤ k → weigh (ascending i k) ds ≡ value i ds
unfolding weigh
weigh-ascending i zero [] h = refl
weigh-ascending i zero (d ∷ ds) h = absurd (omega arith)
weigh-ascending i (suc k) [] h = refl
weigh-ascending i (suc k) (d ∷ ds) h =
    ap (λ t. (if d then fib i else 0) + t) (weigh-ascending (suc i) k ds (omega arith))

-- `decode` reads a string of bits that ends in a one, with the terminator behind it.
pub decode-value : (ds : Bits) → last_bit ds ≡ true → decode (ds ++ true ∷ []) ≡ some (value 0 ds)
unfolding decode fib
decode-value ds h =
    let rounds = length ds - 2 in
    let enough : length ds ≤ suc (suc (rounds + 0)) = omega arith in
    rw (ends_in_11-snoc ds, init-snoc ds true, h)
      (ap some (
        ap (λ fs. weigh (reverse fs) ds) (grow_by-basis rounds 0)
        ∙ (ap (λ fs. weigh fs ds) (reverse-basis (suc (suc (rounds + 0))))
            ∙ weigh-ascending 0 (suc (suc (rounds + 0))) ds enough)))

-- What the greedy loop finds for a number below the next term.
pub record IsGreedy (m n : ℕ) (r : Bits × ℕ) : Type 0 where
  pub len : length r.0 ≡ m
  pub exact : r.1 ≡ 0
  pub sums : value 0 r.0 ≡ n
  pub apart : separated r.0 ≡ true

-- One more bit behind those of a smaller number.
snoc-IsGreedy :
    (m n n' : ℕ) (r : Bits × ℕ) (d : Bool)
    → IsGreedy m n' r
    → n ≡ n' + (if d then fib m else 0)
    → (last_bit r.0 && d) ≡ false
    → IsGreedy (suc m) n (r.0 ++ d ∷ [], r.1)
snoc-IsGreedy m n n' r d g e k = record {
  len = omega (arith, length-append r.0 (d ∷ []), g.len);
  exact = g.exact;
  sums = value-snoc 0 r.0 d ∙ (rw (g.len, g.sums, add-zero m) (sym e));
  apart = separated-snoc r.0 d g.apart k;
}

-- The largest bit is set exactly if the number reaches its term.
greedy-last_bit : (m n : ℕ) → last_bit (greedy (basis (suc m)) n).0 ≡ leb (fib m) n
unfolding greedy
greedy-last_bit m n =
    last_bit-snoc (greedy (basis m) (if leb (fib m) n then n - fib m else n)).0 (leb (fib m) n)

rest-lt : (j n : ℕ) → n < fib (suc (suc j)) → n - fib (suc j) < fib j
unfolding fib
rest-lt j n k = omega (arith, fib_pos j)

-- Below the term before the last, the last bit is not set.
greedy-below :
    (m n : ℕ) → fib m ≤ n → n < fib (suc m) → last_bit (greedy (basis m) (n - fib m)).0 ≡ false
unfolding greedy
greedy-below zero n h k = refl
greedy-below (suc j) n h k =
    greedy-last_bit j (n - fib (suc j)) ∙ gt→leb (fib j) (n - fib (suc j)) (rest-lt j n k)

pub greedy-IsGreedy : (m n : ℕ) → n < fib m → IsGreedy m n (greedy (basis m) n)
unfolding greedy fib
greedy-IsGreedy zero n h = record {
  len = refl;
  exact = small n h;
  sums = sym (small n h);
  apart = refl;
}
  where
    small : (n : ℕ) → n < fib 0 → n ≡ 0
    small n h = omega arith
greedy-IsGreedy (suc m) n h = elim (Bool-cases (leb (fib m) n)) [
  | inl fits ↦ rw fits (
      snoc-IsGreedy m n (n - fib m) (greedy (basis m) (n - fib m)) true
        (greedy-IsGreedy m (n - fib m) (omega (tests, fib-suc_le_twice m, leb→le (fib m) n fits)))
        (omega (arith, leb→le (fib m) n fits)) (rw (greedy-below m n (leb→le (fib m) n fits) h)))
  | inr not_fits ↦ rw not_fits (
      snoc-IsGreedy m n n (greedy (basis m) n) false
        (greedy-IsGreedy m n (leb→gt (fib m) n not_fits)) (omega arith) (ground arith))
]

-- Every positive integer is encoded: its code is the Zeckendorf bits, with no two adjacent ones and
-- the largest set, behind which stands the terminator.
pub record IsCode (n : ℕ) (code : Bits) : Type 0 where
  pub zeck : Bits
  pub code_eq : code ≡ zeck ++ true ∷ []
  pub apart : separated zeck ≡ true
  pub ends : last_bit zeck ≡ true
  pub sums : value 0 zeck ≡ n

pub encode-IsCode : (n : ℕ) → 1 ≤ n → (code : Bits) × (encode n ≡ some code) × IsCode n code
unfolding encode
encode-IsCode n h =
    let (k, e, below, above) = fibs_upto-basis n h in
    let g = greedy-IsGreedy (suc k) n above in
    (
      (greedy (basis (suc k)) n).0 ++ true ∷ [],
      rw (e, ge→ltb n 1 h, g.exact) refl,
      record {
        zeck = (greedy (basis (suc k)) n).0;
        code_eq = refl;
        apart = g.apart;
        ends = greedy-last_bit k n ∙ le→leb (fib k) n below;
        sums = g.sums;
      },
    )

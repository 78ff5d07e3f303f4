-- ===== src/Telemetry/Zeckendorf/Basis.antt =====
-- The Fibonacci basis (adapters/telemetry/zeckendorf.py): what the two loops that build it return.
use prismpath.Base.{
  ℕ, zero, suc, ◌+◌, ◌≤◌, ◌<◌, List, [], ◌∷◌, ◌++◌, leb, reverse, ◌≡◌, refl, sym, ap, ◌∙◌, arith,
  Bool-cases, inl, inr, reverse-append, leb→le, leb→gt, lt→ltb, ◌⊎◌,
}
use Prim.Native.Nat.add
use native.Mathlib.Nat.{add-zero}
use prismpath.Telemetry.Zeckendorf.{grow, grow_by, fibs_upto}

-- 1, 2, 3, 5, 8, …
unfoldable pub fib : ℕ → ℕ
fib zero = 1
fib (suc zero) = 2
fib (suc (suc i)) = fib (suc i) + fib i

-- The first `m` terms, largest first, and the terms from `i` on, smallest first.
abbrev pub basis : ℕ → List ℕ
basis zero = []
basis (suc m) = fib m ∷ basis m

abbrev pub ascending : ℕ → ℕ → List ℕ
ascending i zero = []
ascending i (suc k) = fib i ∷ ascending (suc i) k

pub fib_pos : (i : ℕ) → 1 ≤ fib i
unfolding fib
fib_pos zero = omega arith
fib_pos (suc zero) = omega arith
fib_pos (suc (suc i)) = omega (arith, fib_pos i)

pub fib-suc_lt : (i : ℕ) → fib i < fib (suc i)
unfolding fib
fib-suc_lt zero = omega arith
fib-suc_lt (suc i) = omega (arith, fib_pos i)

pub fib-suc_le_twice : (i : ℕ) → fib (suc i) ≤ fib i + fib i
unfolding fib
fib-suc_le_twice zero = omega arith
fib-suc_le_twice (suc zero) = omega arith
fib-suc_le_twice (suc (suc i)) = omega (arith, fib-suc_le_twice i, fib-suc_le_twice (suc i))

ascending-last : (i k : ℕ) → ascending i k ++ fib (k + i) ∷ [] ≡ ascending i (suc k)
ascending-last i zero = rw (add.zero i)
ascending-last i (suc k) = ap (λ t. fib i ∷ t) (rw (add_suc_left k i) (ascending-last (suc i) k))
  where
    add_suc_left : (k i : ℕ) → suc k + i ≡ k + suc i
    add_suc_left k i = omega arith

pub reverse-basis : (m : ℕ) → reverse (basis m) ≡ ascending 0 m
reverse-basis zero = refl
reverse-basis (suc m) =
    reverse-append (fib m ∷ []) (basis m)
    ∙ (ap (λ t. t ++ fib m ∷ []) (reverse-basis m)
        ∙ (ap (λ j. ascending 0 m ++ fib j ∷ []) (sym (add-zero m)) ∙ ascending-last 0 m))

-- The loop ends at a basis whose last term is above `n`.
grow-basis :
    (fuel n m : ℕ)
    → n < fib (suc m) + fuel
    → (k : ℕ) × (grow fuel n (basis (suc (suc m))) ≡ basis (suc (suc k)))
      × (n < fib (suc k))
      × ((fib k ≤ n) ⊎ (k ≡ m))
unfolding grow fib
grow-basis zero n m h = (m, refl, omega arith, inr refl)
grow-basis (suc fuel) n m h = elim (Bool-cases (leb (fib (suc m)) n)) [
  | inl more ↦
      let (k, e, above, below) = grow-basis fuel n (suc m) (omega (arith, fib-suc_lt (suc m))) in
      (k, rw more e, above, inl (bound k below (leb→le _ _ more)))
  | inr done ↦ (m, rw done refl, leb→gt _ _ done, inr refl)
]
  where
    bound : (k : ℕ) → (fib k ≤ n) ⊎ (k ≡ suc m) → fib (suc m) ≤ n → fib k ≤ n
    bound k (inl h) _ = h
    bound k (inr e) h = rw e h

-- For a positive integer the basis ends with the largest term that is not above it.
pub fibs_upto-basis :
    (n : ℕ) → 1 ≤ n → (k : ℕ) × (fibs_upto n ≡ basis (suc k)) × (fib k ≤ n) × (n < fib (suc k))
unfolding fibs_upto fib
fibs_upto-basis n h =
    let (k, e, above, below) = grow-basis n n 0 (omega arith) in
    (k, rw e (rw (lt→ltb n (fib (suc k)) above) refl), bound k below, above)
  where
    bound : (k : ℕ) → (fib k ≤ n) ⊎ (k ≡ 0) → fib k ≤ n
    bound k (inl q) = q
    bound k (inr q) = rw q h

pub grow_by-basis :
    (rounds m : ℕ) → grow_by rounds (basis (suc (suc m))) ≡ basis (suc (suc (rounds + m)))
unfolding grow_by fib
grow_by-basis zero m = rw (add.zero m)
grow_by-basis (suc rounds) m =
    grow_by-basis rounds (suc m) ∙ ap (λ j. basis (suc (suc j))) (omega arith)

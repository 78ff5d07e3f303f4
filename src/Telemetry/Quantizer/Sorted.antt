-- ===== src/Telemetry/Quantizer/Sorted.antt =====
-- The sorted constants of a numeric field (adapters/telemetry/quantizer.py, `_numeric_partition`).
use prismpath.Base.{
  Bool, true, false, if◌then◌else◌, List, [], ◌∷◌, ◌≡◌, refl, subst, ◌⊎◌, inl, inr, arith,
}
use prismpath.Base.Int.{ℤ, leb_ℤ, eq_ℤ, eq_ℤ_iff}
use prismpath.Telemetry.Quantizer.{insert_int}

-- `n` is one of `ns`.
abbrev pub In : ℤ → List ℤ → Type 0
In n [] = ⊥
In n (m ∷ ms) = (n ≡ m) ⊎ In n ms

-- `c` is smaller than the numbers, which go up.
abbrev pub Rises : ℤ → List ℤ → Type 0
Rises c [] = Unit
Rises c (d ∷ ds) = (leb_ℤ d c ≡ false) × Rises d ds

abbrev pub IsRising : List ℤ → Type 0
IsRising [] = Unit
IsRising (c ∷ cs) = Rises c cs

less : (n m : ℤ) → eq_ℤ n m ≡ false → leb_ℤ n m ≡ true → leb_ℤ m n ≡ false
less n m e h = ground (arith, e, h)

more : (n m : ℤ) → leb_ℤ n m ≡ false → leb_ℤ n m ≡ false
more n m h = h

insert_int-Rises :
    (n c : ℤ) (ms : List ℤ) → leb_ℤ n c ≡ false → Rises c ms → Rises c (insert_int n ms)
unfolding insert_int
insert_int-Rises n c [] h r = (h, tt)
insert_int-Rises n c (m ∷ ms) h (up, r) =
    at (eq_ℤ n m) (leb_ℤ n m) refl refl (λ e. insert_int-Rises n m ms e r)
  where
    at :
        (b d : Bool)
        → eq_ℤ n m ≡ b
        → leb_ℤ n m ≡ d
        → (leb_ℤ n m ≡ false → Rises m (insert_int n ms))
        → Rises c (if b then m ∷ ms else if d then n ∷ m ∷ ms else m ∷ insert_int n ms)
    at true d e l rec = (up, r)
    at false true e l rec = (h, (less n m e l, r))
    at false false e l rec = (up, rec l)

pub insert_int-IsRising : (n : ℤ) (ms : List ℤ) → IsRising ms → IsRising (insert_int n ms)
unfolding insert_int
insert_int-IsRising n [] r = tt
insert_int-IsRising n (m ∷ ms) r = at (eq_ℤ n m) (leb_ℤ n m) refl refl
  where
    at :
        (b d : Bool)
        → eq_ℤ n m ≡ b
        → leb_ℤ n m ≡ d
        → IsRising (if b then m ∷ ms else if d then n ∷ m ∷ ms else m ∷ insert_int n ms)
    at true d e l = r
    at false true e l = (less n m e l, r)
    at false false e l = insert_int-Rises n m ms l r

pub In-insert_int : (k n : ℤ) (ms : List ℤ) → (k ≡ n) ⊎ In k ms → In k (insert_int n ms)
unfolding insert_int
In-insert_int k n [] h = h
In-insert_int k n (m ∷ ms) h = at (eq_ℤ n m) (leb_ℤ n m) refl h (λ q. In-insert_int k n ms q)
  where
    at :
        (b d : Bool)
        → eq_ℤ n m ≡ b
        → (k ≡ n) ⊎ In k (m ∷ ms)
        → ((k ≡ n) ⊎ In k ms → In k (insert_int n ms))
        → In k (if b then m ∷ ms else if d then n ∷ m ∷ ms else m ∷ insert_int n ms)
    at true d e (inl q) rec = inl (subst (λ j. k ≡ j) ((eq_ℤ_iff n m).0 e) q)
    at true d e (inr q) rec = q
    at false true e q rec = q
    at false false e (inl q) rec = inr (rec (inl q))
    at false false e (inr (inl q)) rec = inl q
    at false false e (inr (inr q)) rec = inr (rec (inr q))

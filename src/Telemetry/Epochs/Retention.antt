-- ===== src/Telemetry/Epochs/Retention.antt =====
-- What any sequence of seals and acknowledgements keeps (adapters/telemetry/epochs.py).
use prismpath.Base.{
  ℕ, zero, suc, ◌+◌, ◌<◌, ◌≤◌, Bool, true, false, not, ◌||◌, if◌then◌else◌, List, [], ◌∷◌, ◌++◌,
  length, ltb, All, ◌≡◌, refl, sym, ap, ◌∙◌, arith, Bool-cases, inl, inr, ltb→lt, ltb→ge, lt→ltb,
  ge→ltb,
}
use prismpath.Telemetry.Epochs.{
  Epoch, has_data, data_count, evict, evict_oldest, enforce_cap, confirm,
}

module _ {Digest : Type 0} where
  -- An epoch has its data unless it is acknowledged or a gap.
  unfoldable pub IsKept : Epoch Digest → Type 0
  unfolding has_data
  IsKept e = has_data e ≡ not (e.acked || e.dropped_under_pressure)

  -- The epochs are numbered from `i`.
  abbrev pub Numbered : ℕ → List (Epoch Digest) → Type 0
  Numbered i [] = Unit
  Numbered i (e ∷ es) = (e.id ≡ i) × Numbered (suc i) es

  evict-IsKept : (e : Epoch Digest) → IsKept (evict e)
  unfolding IsKept has_data evict
  evict-IsKept e = flags e.acked e.dropped_under_pressure
    where
      flags : (a d : Bool) → false ≡ not (a || (if a then d else true))
      flags true d = refl
      flags false d = refl

  pub confirm-IsKept : (e : Epoch Digest) → IsKept (confirm e)
  unfolding IsKept has_data confirm
  confirm-IsKept e = refl

  pub data_count-append :
      (es ks : List (Epoch Digest)) → data_count (es ++ ks) ≡ data_count es + data_count ks
  unfolding data_count
  data_count-append [] ks = omega arith
  data_count-append (e ∷ es) ks = elim (Bool-cases (has_data e)) [
    | inl t ↦ ground (arith, t, data_count-append es ks)
    | inr f ↦ ground (arith, f, data_count-append es ks)
  ]

  pub data_count_le : (es : List (Epoch Digest)) → data_count es ≤ length es
  unfolding data_count
  data_count_le [] = omega arith
  data_count_le (e ∷ es) = elim (Bool-cases (has_data e)) [
    | inl t ↦ ground (arith, t, data_count_le es)
    | inr f ↦ ground (arith, f, data_count_le es)
  ]

  has_data-evict : (e : Epoch Digest) → has_data (evict e) ≡ false
  unfolding has_data evict
  has_data-evict e = refl

  pub has_data-confirm : (e : Epoch Digest) → has_data (confirm e) ≡ false
  unfolding has_data confirm
  has_data-confirm e = refl

  pub data_count-has :
      (e : Epoch Digest) (es : List (Epoch Digest))
      → has_data e ≡ true
      → data_count (e ∷ es) ≡ suc (data_count es)
  unfolding data_count
  data_count-has e es t = rw t

  pub data_count-lacks :
      (e : Epoch Digest) (es : List (Epoch Digest))
      → has_data e ≡ false
      → data_count (e ∷ es) ≡ data_count es
  unfolding data_count
  data_count-lacks e es f = rw f

  evict_oldest-has :
      (e : Epoch Digest) (es : List (Epoch Digest))
      → has_data e ≡ true
      → evict_oldest (e ∷ es) ≡ evict e ∷ es
  unfolding evict_oldest
  evict_oldest-has e es t = rw t

  evict_oldest-lacks :
      (e : Epoch Digest) (es : List (Epoch Digest))
      → has_data e ≡ false
      → evict_oldest (e ∷ es) ≡ e ∷ evict_oldest es
  unfolding evict_oldest
  evict_oldest-lacks e es f = rw f

  data_count-evict_oldest :
      (es : List (Epoch Digest))
      → 0 < data_count es
      → suc (data_count (evict_oldest es)) ≡ data_count es
  unfolding data_count evict_oldest
  data_count-evict_oldest [] l = ground (arith, l)
  data_count-evict_oldest (e ∷ es) l = elim (Bool-cases (has_data e)) [
    | inl t ↦
        ap (λ xs. suc (data_count xs)) (evict_oldest-has e es t)
        ∙ ap suc (data_count-lacks (evict e) es (has_data-evict e))
        ∙ sym (data_count-has e es t)
    | inr f ↦
        ap (λ xs. suc (data_count xs)) (evict_oldest-lacks e es f)
        ∙ ap suc (data_count-lacks e (evict_oldest es) f)
        ∙ data_count-evict_oldest es (omega (arith, l, data_count-lacks e es f))
        ∙ sym (data_count-lacks e es f)
  ]

  enforce_cap-over :
      (fuel cap : ℕ) (es : List (Epoch Digest))
      → cap < data_count es
      → enforce_cap (suc fuel) cap es ≡ enforce_cap fuel cap (evict_oldest es)
  unfolding enforce_cap
  enforce_cap-over fuel cap es l = rw (lt→ltb cap (data_count es) l)

  enforce_cap-within :
      (fuel cap : ℕ) (es : List (Epoch Digest))
      → data_count es ≤ cap
      → enforce_cap (suc fuel) cap es ≡ es
  unfolding enforce_cap
  enforce_cap-within fuel cap es l = rw (ge→ltb cap (data_count es) l)

  -- With fuel for the epochs over the cap, no more than the cap hold data.
  pub data_count-enforce_cap :
      (fuel cap : ℕ) (es : List (Epoch Digest))
      → data_count es ≤ fuel + cap
      → data_count (enforce_cap fuel cap es) ≤ cap
  unfolding enforce_cap
  data_count-enforce_cap zero cap es bound = omega (arith, bound)
  data_count-enforce_cap (suc fuel) cap es bound = elim (Bool-cases (ltb cap (data_count es))) [
    | inl t ↦
        let l : cap < data_count es = ltb→lt cap (data_count es) t in
        rw (enforce_cap-over fuel cap es l) (
          data_count-enforce_cap fuel cap (evict_oldest es)
            (omega (arith, bound, data_count-evict_oldest es (omega (arith, l)))))
    | inr f ↦
        let l : data_count es ≤ cap = ltb→ge cap (data_count es) f in
        rw (enforce_cap-within fuel cap es l) l
  ]

  -- What an eviction keeps, the enforcement of the cap keeps.
  pub enforce_cap-keeps :
      (P : List (Epoch Digest) → Type 0)
      → ((es : List (Epoch Digest)) → P es → P (evict_oldest es))
      → (fuel cap : ℕ) (es : List (Epoch Digest)) → P es
      → P (enforce_cap fuel cap es)
  unfolding enforce_cap
  enforce_cap-keeps P step zero cap es p = p
  enforce_cap-keeps P step (suc fuel) cap es p = elim (Bool-cases (ltb cap (data_count es))) [
    | inl t ↦
        rw (enforce_cap-over fuel cap es (ltb→lt cap (data_count es) t))
          (enforce_cap-keeps P step fuel cap (evict_oldest es) (step es p))
    | inr f ↦ rw (enforce_cap-within fuel cap es (ltb→ge cap (data_count es) f)) p
  ]

  pub evict_oldest-All-IsKept :
      (es : List (Epoch Digest)) → All IsKept es → All IsKept (evict_oldest es)
  unfolding evict_oldest
  evict_oldest-All-IsKept [] k = k
  evict_oldest-All-IsKept (e ∷ es) (k, ks) = elim (Bool-cases (has_data e)) [
    | inl t ↦ rw (evict_oldest-has e es t) (evict-IsKept e, ks)
    | inr f ↦ rw (evict_oldest-lacks e es f) (k, evict_oldest-All-IsKept es ks)
  ]

  pub evict_oldest-Numbered :
      (es : List (Epoch Digest)) (i : ℕ) → Numbered i es → Numbered i (evict_oldest es)
  unfolding evict_oldest evict
  evict_oldest-Numbered [] i n = n
  evict_oldest-Numbered (e ∷ es) i (n, ns) = elim (Bool-cases (has_data e)) [
    | inl t ↦ rw (evict_oldest-has e es t) (n, ns)
    | inr f ↦ rw (evict_oldest-lacks e es f) (n, evict_oldest-Numbered es (suc i) ns)
  ]

  -- The links alone: those of an epoch are its Merkle root and its chained root.
  abbrev pub links : List (Epoch Digest) → List (Digest × Digest)
  links [] = []
  links (e ∷ es) = (e.merkle, e.chained) ∷ links es

  pub links-evict_oldest : (es : List (Epoch Digest)) → links (evict_oldest es) ≡ links es
  unfolding evict_oldest evict
  links-evict_oldest [] = refl
  links-evict_oldest (e ∷ es) = elim (Bool-cases (has_data e)) [
    | inl t ↦ ap links (evict_oldest-has e es t)
    | inr f ↦
        ap links (evict_oldest-lacks e es f)
        ∙ ap (λ ls. (e.merkle, e.chained) ∷ ls) (links-evict_oldest es)
  ]

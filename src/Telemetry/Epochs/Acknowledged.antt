-- ===== src/Telemetry/Epochs/Acknowledged.antt =====
-- What an acknowledgement drops (adapters/telemetry/epochs.py).
use prismpath.Base.{
  none, some, false, List, [], ◌∷◌, ◌++◌, length, map, All, ◌≡◌, ◌≢◌, refl, ap, ◌∙◌, Bool-cases,
  inl, inr,
}
use prismpath.Telemetry.Merkle.{Hashes}
use prismpath.Telemetry.Epochs.{
  Epoch, EpochStore, data_count, confirm, find_root, confirm_upto, ack_at, ack,
}

module _ {Digest : Type 0} (h : Hashes Digest) where
  same-false : (a b : Digest) → a ≢ b → h.same a b ≡ false
  same-false a b d = elim (Bool-cases (h.same a b)) [
    | inl t ↦ absurd (d ((h.same_iff a b).0 t))
    | inr f ↦ f
  ]

  find_root-front :
      (root : Digest) (front : List (Epoch Digest)) (e : Epoch Digest) (back : List (Epoch Digest))
      → All (λ x. x.chained ≢ root) front
      → e.chained ≡ root
      → find_root h root (front ++ e ∷ back) ≡ some (length front)
  unfolding find_root
  find_root-front root [] e back d p = rw ((h.same_iff e.chained root).1 p)
  find_root-front root (x ∷ front) e back (d, ds) p =
      rw (same-false x.chained root d, find_root-front root front e back ds p)

  find_root-absent :
      (root : Digest) (es : List (Epoch Digest))
      → All (λ x. x.chained ≢ root) es
      → find_root h root es ≡ none
  unfolding find_root
  find_root-absent root [] d = refl
  find_root-absent root (x ∷ es) (d, ds) =
      rw (same-false x.chained root d, find_root-absent root es ds)

  confirmed-front :
      (front : List (Epoch Digest)) (e : Epoch Digest) (back : List (Epoch Digest))
      → (confirm_upto h (length front) (front ++ e ∷ back)).0
        ≡ map confirm (front ++ e ∷ []) ++ back
  unfolding confirm_upto
  confirmed-front [] e back = refl
  confirmed-front (x ∷ front) e back = ap (λ es. confirm x ∷ es) (confirmed-front front e back)

  dropped-front :
      (front : List (Epoch Digest)) (e : Epoch Digest) (back : List (Epoch Digest))
      → (confirm_upto h (length front) (front ++ e ∷ back)).1 ≡ data_count (front ++ e ∷ [])
  unfolding confirm_upto data_count
  dropped-front [] e back = refl
  dropped-front (x ∷ front) e back = rw (dropped-front front e back)

  -- An acknowledgement of the chained root of an epoch confirms this epoch and all before it, leaves those
  -- behind it as they are, and answers how many of the confirmed ones held data.
  pub ack-front :
      (s : EpochStore Digest) (root : Digest) (front : List (Epoch Digest)) (e : Epoch Digest)
      (back : List (Epoch Digest))
      → s.epochs ≡ front ++ e ∷ back
      → All (λ x. x.chained ≢ root) front
      → e.chained ≡ root
      → ((ack h s root).0.epochs ≡ map confirm (front ++ e ∷ []) ++ back)
        × ((ack h s root).1 ≡ data_count (front ++ e ∷ []))
  unfolding ack ack_at
  ack-front s root front e back split d p =
      let found : find_root h root s.epochs ≡ some (length front) =
        ap (find_root h root) split ∙ find_root-front root front e back d p in
      (
        ap (λ o. (ack_at h s o).0.epochs) found
            ∙ ap (λ es. (confirm_upto h (length front) es).0) split
            ∙ confirmed-front front e back,
        ap (λ o. (ack_at h s o).1) found
            ∙ ap (λ es. (confirm_upto h (length front) es).1) split
            ∙ dropped-front front e back,
      )

  -- An acknowledgement of a root that no epoch has changes nothing.
  pub ack-absent :
      (s : EpochStore Digest) (root : Digest)
      → All (λ x. x.chained ≢ root) s.epochs
      → ack h s root ≡ (s, 0)
  unfolding ack ack_at
  ack-absent s root d = ap (ack_at h s) (find_root-absent root s.epochs d)

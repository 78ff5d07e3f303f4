-- ===== src/Telemetry/Epochs/Soundness.antt =====
-- What seals and acknowledgements keep of a store (adapters/telemetry/epochs.py).
use prismpath.Base.{
  ℕ, zero, suc, ◌+◌, ◌≤◌, Option, none, some, Bool, true, ◌&&◌, List, [], ◌∷◌, ◌++◌, length, All,
  All-append, ◌≡◌, refl, sym, ap, ◌∙◌, arith, Bool-cases, inl, inr, and_left, and_right,
}
use prismpath.Telemetry.Zeckendorf.{Bits}
use prismpath.Telemetry.Merkle.{Hashes}
use prismpath.Telemetry.Epochs.{
  Epoch, EpochStore, has_data, data_count, enforce_cap, last_chained, confirm, new_epoch, add_epoch,
  find_root, confirm_upto, ack_at, ack, verify_from, verify_chain,
}
use prismpath.Telemetry.Epochs.Retention.{
  IsKept, Numbered, confirm-IsKept, data_count-append, data_count_le, data_count-enforce_cap,
  enforce_cap-keeps, evict_oldest-All-IsKept, evict_oldest-Numbered, links, links-evict_oldest,
}

module _ {Digest : Type 0} (h : Hashes Digest) where
  -- At most the cap of epochs hold data; an epoch without data is acknowledged or a gap; the chain
  -- verifies; and the epochs are numbered from 0.
  unfoldable pub IsSound : EpochStore Digest → Type 0
  unfolding IsKept data_count verify_chain
  IsSound s =
      (data_count s.epochs ≤ s.max_data_epochs)
      × All IsKept s.epochs
      × (verify_chain h s ≡ true)
      × Numbered 0 s.epochs

  verify_links : Option Digest → List (Digest × Digest) → Bool
  verify_links prev [] = true
  verify_links prev ((m, c) ∷ ls) = h.same c (h.chain prev m) && verify_links (some c) ls

  verify_from-links :
      (prev : Option Digest) (es : List (Epoch Digest))
      → verify_from h prev es ≡ verify_links prev (links es)
  unfolding verify_from verify_links
  verify_from-links prev [] = refl
  verify_from-links prev (e ∷ es) =
      ap (λ b. h.same e.chained (h.chain prev e.merkle) && b)
        (verify_from-links (some e.chained) es)

  verify_from-same :
      (es ks : List (Epoch Digest))
      → links es ≡ links ks
      → verify_from h none ks ≡ true
      → verify_from h none es ≡ true
  verify_from-same es ks e v =
      verify_from-links none es ∙ ap (verify_links none) e ∙ sym (verify_from-links none ks) ∙ v

  verify_from-append :
      (prev : Option Digest) (es : List (Epoch Digest)) (ep : Epoch Digest)
      → ep.chained ≡ h.chain (last_chained prev es) ep.merkle
      → verify_from h prev es ≡ true
      → verify_from h prev (es ++ ep ∷ []) ≡ true
  unfolding verify_from
  verify_from-append prev [] ep e v = rw ((h.same_iff ep.chained (h.chain prev ep.merkle)).1 e)
  verify_from-append prev (e₀ ∷ es) ep e v =
      rw
        (and_left (h.same e₀.chained (h.chain prev e₀.merkle)) (verify_from h (some e₀.chained) es)
          v)
        (verify_from-append (some e₀.chained) es ep e (
          and_right (h.same e₀.chained (h.chain prev e₀.merkle))
            (verify_from h (some e₀.chained) es) v))

  Numbered-append :
      (i : ℕ) (es : List (Epoch Digest)) (ep : Epoch Digest)
      → Numbered i es
      → ep.id ≡ i + length es
      → Numbered i (es ++ ep ∷ [])
  Numbered-append i [] ep n e = (omega (arith, e), tt)
  Numbered-append i (e₀ ∷ es) ep (n, ns) e =
      (n, Numbered-append (suc i) es ep ns (omega (arith, e)))

  pub links-enforce_cap :
      (fuel cap : ℕ) (es : List (Epoch Digest)) → links (enforce_cap fuel cap es) ≡ links es
  links-enforce_cap fuel cap es =
      enforce_cap-keeps (λ xs. links xs ≡ links es) (λ xs e. links-evict_oldest xs ∙ e) fuel cap es
        refl

  -- What is confirmed loses its data, and is counted.
  pub data_count-confirm_upto :
      (idx : ℕ) (es : List (Epoch Digest))
      → data_count (confirm_upto h idx es).0 + (confirm_upto h idx es).1 ≡ data_count es
  unfolding data_count confirm_upto has_data confirm
  data_count-confirm_upto idx [] = omega arith
  data_count-confirm_upto zero (e ∷ es) = elim (Bool-cases (has_data e)) [
    | inl t ↦ ground (arith, t)
    | inr f ↦ ground (arith, f)
  ]
  data_count-confirm_upto (suc idx) (e ∷ es) = elim (Bool-cases (has_data e)) [
    | inl t ↦ ground (arith, t, data_count-confirm_upto idx es)
    | inr f ↦ ground (arith, f, data_count-confirm_upto idx es)
  ]

  confirm_upto-All-IsKept :
      (idx : ℕ) (es : List (Epoch Digest)) → All IsKept es → All IsKept (confirm_upto h idx es).0
  unfolding confirm_upto
  confirm_upto-All-IsKept idx [] k = k
  confirm_upto-All-IsKept zero (e ∷ es) (k, ks) = (confirm-IsKept e, ks)
  confirm_upto-All-IsKept (suc idx) (e ∷ es) (k, ks) =
      (confirm-IsKept e, confirm_upto-All-IsKept idx es ks)

  confirm_upto-Numbered :
      (idx i : ℕ) (es : List (Epoch Digest)) → Numbered i es → Numbered i (confirm_upto h idx es).0
  unfolding confirm_upto confirm
  confirm_upto-Numbered idx i [] n = n
  confirm_upto-Numbered zero i (e ∷ es) n = n
  confirm_upto-Numbered (suc idx) i (e ∷ es) (n, ns) = (n, confirm_upto-Numbered idx (suc i) es ns)

  pub links-confirm_upto :
      (idx : ℕ) (es : List (Epoch Digest)) → links (confirm_upto h idx es).0 ≡ links es
  unfolding confirm_upto confirm
  links-confirm_upto idx [] = refl
  links-confirm_upto zero (e ∷ es) = refl
  links-confirm_upto (suc idx) (e ∷ es) =
      ap (λ ls. (e.merkle, e.chained) ∷ ls) (links-confirm_upto idx es)

  ack_at-IsSound :
      (s : EpochStore Digest) (found : Option ℕ) → IsSound s → IsSound (ack_at h s found).0
  unfolding IsSound verify_chain ack_at
  ack_at-IsSound s none ok = ok
  ack_at-IsSound s (some idx) (c, k, v, n) = (
    omega (arith, c, data_count-confirm_upto idx s.epochs),
    confirm_upto-All-IsKept idx s.epochs k,
    verify_from-same (confirm_upto h idx s.epochs).0 s.epochs (links-confirm_upto idx s.epochs) v,
    confirm_upto-Numbered idx 0 s.epochs n,
  )

  pub ack-IsSound : (s : EpochStore Digest) (root : Digest) → IsSound s → IsSound (ack h s root).0
  unfolding ack
  ack-IsSound s root ok = ack_at-IsSound s (find_root h root s.epochs) ok

  pub add_epoch-IsSound :
      (s : EpochStore Digest) (blocks : List Bits) (root : Digest)
      → IsSound s
      → IsSound (add_epoch h s blocks root)
  unfolding IsSound IsKept has_data verify_chain add_epoch new_epoch
  add_epoch-IsSound s blocks root (c, k, v, n) =
      let ep : Epoch Digest = new_epoch h s.epochs blocks root in
      let es : List (Epoch Digest) = s.epochs ++ ep ∷ [] in
      let fuel : ℕ = suc (length s.epochs) in
      (
        data_count-enforce_cap fuel s.max_data_epochs es
            (omega (arith, c, data_count-append s.epochs (ep ∷ []), data_count_le (ep ∷ []))),
        enforce_cap-keeps (All IsKept) evict_oldest-All-IsKept fuel s.max_data_epochs es
            (All-append IsKept s.epochs (ep ∷ []) k (refl, tt)),
        verify_from-same (enforce_cap fuel s.max_data_epochs es) es
            (links-enforce_cap fuel s.max_data_epochs es)
            (verify_from-append none s.epochs ep refl v),
        enforce_cap-keeps (Numbered 0) (λ xs m. evict_oldest-Numbered xs 0 m) fuel s.max_data_epochs
            es (Numbered-append 0 s.epochs ep n (omega arith)),
      )

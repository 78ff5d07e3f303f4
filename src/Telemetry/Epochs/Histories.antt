-- ===== src/Telemetry/Epochs/Histories.antt =====
-- Seals and acknowledgements in any order (adapters/telemetry/epochs.py).
use prismpath.Base.{
  ℕ, suc, Option, none, some, List, [], ◌∷◌, ◌++◌, length, map, ◌≡◌, refl, sym, ap, ◌∙◌, arith,
  append_assoc, append-nil,
}
use prismpath.Base.Maybe.{◌>>=◌}
use prismpath.Telemetry.Zeckendorf.{Bits}
use prismpath.Telemetry.Merkle.{Hashes}
use prismpath.Telemetry.SelfHeal.{chunk, commit}
use prismpath.Telemetry.SelfHeal.Repair.{commit-chunk}
use prismpath.Telemetry.Epochs.{
  Epoch, EpochStore, new_store, data_count, enforce_cap, new_epoch, add_epoch, seal, find_root,
  confirm_upto, ack_at, ack, verify_chain, chain, Call, perform, perform_all,
}
use prismpath.Telemetry.Epochs.Retention.{links}
use prismpath.Telemetry.Epochs.Soundness.{
  IsSound, ack-IsSound, add_epoch-IsSound, links-enforce_cap, links-confirm_upto,
}

module _ {Digest : Type 0} (h : Hashes Digest) where
  -- The settings stay, and the chain of `t` is that of `s` with more behind it.
  unfoldable pub Extends : EpochStore Digest → EpochStore Digest → Type 0
  unfolding chain
  Extends t s =
      (more : List Digest) × (chain t ≡ chain s ++ more)
      × (t.block_bits ≡ s.block_bits)
      × (t.max_data_epochs ≡ s.max_data_epochs)

  chained_roots : List (Digest × Digest) → List Digest
  chained_roots [] = []
  chained_roots ((m, c) ∷ ls) = c ∷ chained_roots ls

  chain-links : (es : List (Epoch Digest)) → map (λ e. e.chained) es ≡ chained_roots (links es)
  unfolding chained_roots
  chain-links [] = refl
  chain-links (e ∷ es) = ap (λ ds. e.chained ∷ ds) (chain-links es)

  chain-same :
      (es ks : List (Epoch Digest))
      → links es ≡ links ks
      → map (λ e. e.chained) es ≡ map (λ e. e.chained) ks
  chain-same es ks e = chain-links es ∙ ap chained_roots e ∙ sym (chain-links ks)

  chain-append :
      (es : List (Epoch Digest)) (ep : Epoch Digest)
      → map (λ e. e.chained) (es ++ ep ∷ []) ≡ map (λ e. e.chained) es ++ ep.chained ∷ []
  chain-append [] ep = refl
  chain-append (e ∷ es) ep = ap (λ ds. e.chained ∷ ds) (chain-append es ep)

  Extends-refl : (s : EpochStore Digest) → Extends s s
  unfolding Extends chain
  Extends-refl s = ([], sym (append-nil (chain s)), refl, refl)

  Extends-size : (t s : EpochStore Digest) → Extends t s → t.block_bits ≡ s.block_bits
  unfolding Extends
  Extends-size t s (more, grown, size, cap) = size

  Extends-trans : (u t s : EpochStore Digest) → Extends u t → Extends t s → Extends u s
  unfolding Extends chain
  Extends-trans u t s (ds, e₁, b₁, m₁) (cs, e₂, b₂, m₂) =
      (cs ++ ds, e₁ ∙ ap (λ xs. xs ++ ds) e₂ ∙ append_assoc (chain s) cs ds, b₁ ∙ b₂, m₁ ∙ m₂)

  ack_at-Extends : (s : EpochStore Digest) (found : Option ℕ) → Extends (ack_at h s found).0 s
  unfolding Extends chain ack_at
  ack_at-Extends s none = Extends-refl s
  ack_at-Extends s (some idx) = (
    [],
    chain-same (confirm_upto h idx s.epochs).0 s.epochs (links-confirm_upto h idx s.epochs)
        ∙ sym (append-nil (chain s)),
    refl,
    refl,
  )

  ack-Extends : (s : EpochStore Digest) (root : Digest) → Extends (ack h s root).0 s
  unfolding ack
  ack-Extends s root = ack_at-Extends s (find_root h root s.epochs)

  add_epoch-Extends :
      (s : EpochStore Digest) (blocks : List Bits) (root : Digest)
      → Extends (add_epoch h s blocks root) s
  unfolding Extends chain add_epoch
  add_epoch-Extends s blocks root =
      let ep : Epoch Digest = new_epoch h s.epochs blocks root in
      let es : List (Epoch Digest) = s.epochs ++ ep ∷ [] in
      (
        ep.chained ∷ [],
        chain-same (enforce_cap (suc (length s.epochs)) s.max_data_epochs es) es
              (links-enforce_cap h (suc (length s.epochs)) s.max_data_epochs es)
            ∙ chain-append s.epochs ep,
        refl,
        refl,
      )

  seal-add_epoch :
      (s : EpochStore Digest) (n : ℕ)
      → s.block_bits ≡ suc n
      → (bits : Bits)
      → (blocks : List Bits) × (root : Digest) × (seal h s bits ≡ some (add_epoch h s blocks root))
  unfolding seal
  seal-add_epoch s n e bits =
      let (blocks, root, cut, committed) = commit-chunk h bits n in
      let finish : List Bits → Option (EpochStore Digest) =
        λ bs. commit h bs >>= λ r. some (add_epoch h s bs r) in
      (
        blocks,
        root,
        ap (λ size. chunk bits size >>= finish) e
            ∙ ap (λ found. found >>= finish) cut
            ∙ ap (λ found. found >>= λ r. some (add_epoch h s blocks r)) committed,
      )

  -- A store with a positive block size performs any call.
  perform-step :
      (s : EpochStore Digest) (n : ℕ)
      → s.block_bits ≡ suc n
      → IsSound h s
      → (c : Call Digest)
      → (t : EpochStore Digest) × (perform h s c ≡ some t) × IsSound h t × Extends t s
  unfolding perform
  perform-step s n e ok (Call.seal_call bits) =
      let (blocks, root, p) = seal-add_epoch s n e bits in
      (
        add_epoch h s blocks root,
        p,
        add_epoch-IsSound h s blocks root ok,
        add_epoch-Extends s blocks root,
      )
  perform-step s n e ok (Call.ack_call root) =
      ((ack h s root).0, refl, ack-IsSound h s root ok, ack-Extends s root)

  -- From a sound store with a positive block size, any calls, in any order, are performed; the store after
  -- them is sound: no more epochs than the cap hold data, an epoch without data is acknowledged or
  -- recorded as a gap, `verify_chain` answers True and the epochs are numbered in order; and its chain of
  -- roots is the one before with more roots behind it.
  pub perform_all-IsSound :
      (s : EpochStore Digest) (n : ℕ)
      → s.block_bits ≡ suc n
      → IsSound h s
      → (cs : List (Call Digest))
      → (t : EpochStore Digest) × (perform_all h s cs ≡ some t) × IsSound h t × Extends t s
  unfolding perform_all
  perform_all-IsSound s n e ok [] = (s, refl, ok, Extends-refl s)
  perform_all-IsSound s n e ok (c ∷ cs) =
      let (t, p, sound, first) = perform-step s n e ok c in
      let (u, q, sound', ext) = perform_all-IsSound t n (Extends-size t s first ∙ e) sound cs in
      (u, rw (p, q), sound', Extends-trans u t s ext first)

  -- A store is sound when it is made.
  pub new_store-IsSound : (block_bits cap : ℕ) → IsSound h (new_store block_bits cap)
  unfolding IsSound new_store data_count verify_chain
  new_store-IsSound block_bits cap = (omega arith, tt, refl, tt)

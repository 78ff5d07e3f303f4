-- ===== src/Telemetry/AckChannel/Replay.antt =====
-- What a receiver of acknowledgements lets through (adapters/telemetry/ackchannel.py).
use prismpath.Base.{
  zero, suc, Bool, true, false, if◌then◌else◌, List, [], ◌∷◌, All, ◌≡◌, refl, arith,
}
use prismpath.Base.Int.{ℤ, pos, negsuc, leb_ℤ, ◌≤ℤ◌, suc_ℤ}
use prismpath.Telemetry.Merkle.{Hashes}
use prismpath.Telemetry.Epochs.{EpochStore, ack}
use prismpath.Telemetry.AckChannel.{AckReceiver, Message, verify_ack, apply_ack, on_ack, receive}

later : (a b : ℤ) → leb_ℤ a b ≡ false → suc_ℤ b ≤ℤ a
later a (pos n) h = ground arith
later a (negsuc zero) h = ground arith
later a (negsuc (suc n)) h = ground arith

module _ {Digest Tag : Type 0} where
  -- The sequence numbers go up from behind `last`.
  abbrev pub Ascending : ℤ → List (Message Digest Tag) → Type 0
  Ascending last [] = Unit
  Ascending last (m ∷ ms) = (suc_ℤ last ≤ℤ m.seq) × Ascending m.seq ms

module _ {Digest Tag : Type 0} (h : Hashes Digest) (sign_ack : Digest → ℤ → Tag)
    (same_tag : Tag → Tag → Bool) where
  -- The acknowledgements alone, without a channel.
  unfoldable pub acknowledge_all : EpochStore Digest → List (Message Digest Tag) → EpochStore Digest
  unfolding ack
  acknowledge_all s [] = s
  acknowledge_all s (m ∷ ms) = acknowledge_all (ack h s m.root).0 ms

  -- Of a receiver, and what `receive` answers for it: the messages let through carry a tag that verifies and
  -- sequence numbers that go up from behind `last_seq`, and the store is as if they alone were acknowledged.
  unfoldable pub LetsThrough :
      AckReceiver Digest → AckReceiver Digest × List (Message Digest Tag) → Type 0
  unfolding verify_ack acknowledge_all
  LetsThrough r after =
      All (λ m. verify_ack h sign_ack same_tag m ≡ true) after.1
      × Ascending r.last_seq after.1
      × (after.0.store ≡ acknowledge_all r.store after.1)

  apply_ack-LetsThrough :
      (r : AckReceiver Digest) (m : Message Digest Tag) (authentic stale : Bool)
      → verify_ack h sign_ack same_tag m ≡ authentic
      → leb_ℤ m.seq r.last_seq ≡ stale
      → (after : AckReceiver Digest × List (Message Digest Tag))
      → LetsThrough (apply_ack h sign_ack same_tag authentic stale r m).0 after
      → LetsThrough r (
        after.0,
        if (apply_ack h sign_ack same_tag authentic stale r m).1.accepted
            then m ∷ after.1
            else after.1,
      )
  unfolding LetsThrough apply_ack acknowledge_all
  apply_ack-LetsThrough r m false stale v l after ok = ok
  apply_ack-LetsThrough r m true true v l after ok = ok
  apply_ack-LetsThrough r m true false v l after (vs, up, same) =
      ((v, vs), (later m.seq r.last_seq l, up), same)

  -- Whatever messages come in, those accepted carry a tag that verifies and sequence numbers that go up from
  -- behind the last accepted one, so that none is accepted twice; and the store is as if they alone had been
  -- acknowledged.
  pub receive-LetsThrough :
      (r : AckReceiver Digest) (ms : List (Message Digest Tag))
      → LetsThrough r (receive h sign_ack same_tag r ms)
  unfolding LetsThrough receive on_ack acknowledge_all
  receive-LetsThrough r [] = (tt, tt, refl)
  receive-LetsThrough r (m ∷ ms) =
      apply_ack-LetsThrough r m (verify_ack h sign_ack same_tag m) (leb_ℤ m.seq r.last_seq) refl
        refl (receive h sign_ack same_tag (on_ack h sign_ack same_tag r m).0 ms)
        (receive-LetsThrough (on_ack h sign_ack same_tag r m).0 ms)

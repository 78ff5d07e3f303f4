-- ===== src/Telemetry/AckChannel.antt =====
-- The authenticated acknowledgements (adapters/telemetry/ackchannel.py). The tag of a root and a sequence
-- number under a secret (HMAC-SHA256 over their JSON) is a parameter.
pub mod Replay
use prismpath.Base.{
  ℕ, zero, suc, ◌<◌, Option, none, some, Bool, true, false, if◌then◌else◌, List, [], ◌∷◌, leb, All,
  ◌≡◌, refl, sym, ap, ◌∙◌, arith, Bool-cases, inl, inr, leb→gt,
}
use prismpath.Base.Int.{ℤ, pos, negsuc, leb_ℤ}
use prismpath.Telemetry.Merkle.{Hashes}
use prismpath.Telemetry.Epochs.{EpochStore, ack}

pub data Reason : Type 0 where
  bad_tag stale_seq ok : Reason

pub record Answer : Type 0 where
  pub accepted : Bool
  pub reason : Reason
  pub dropped : ℕ

pub record AckReceiver (Digest : Type 0) : Type 0 where
  pub store : EpochStore Digest
  pub last_seq : ℤ

-- `AckReceiver.__init__`
unfoldable pub new_receiver : {Digest : Type 0} → EpochStore Digest → AckReceiver Digest
new_receiver store = record { store = store; last_seq = negsuc 0 }

-- A message: a root, a sequence number and a tag.
pub record Message (Digest Tag : Type 0) : Type 0 where
  pub root : Digest
  pub seq : ℤ
  pub tag : Tag

module _ {Digest Tag : Type 0} (h : Hashes Digest) (sign_ack : Digest → ℤ → Tag)
    (same_tag : Tag → Tag → Bool) where
  -- `verify_ack`, with the receiver's secret.
  unfoldable pub verify_ack : Message Digest Tag → Bool
  verify_ack m = same_tag (sign_ack m.root m.seq) m.tag

  -- `on_ack` after its two tests.
  unfoldable pub apply_ack :
      Bool → Bool → AckReceiver Digest → Message Digest Tag → AckReceiver Digest × Answer
  unfolding ack
  apply_ack false stale r m = (r, record { accepted = false; reason = Reason.bad_tag; dropped = 0 })
  apply_ack true true r m = (r, record { accepted = false; reason = Reason.stale_seq; dropped = 0 })
  apply_ack true false r m = (
    record { store = (ack h r.store m.root).0; last_seq = m.seq },
    record { accepted = true; reason = Reason.ok; dropped = (ack h r.store m.root).1 },
  )

  -- `AckReceiver.on_ack`
  unfoldable pub on_ack : AckReceiver Digest → Message Digest Tag → AckReceiver Digest × Answer
  unfolding verify_ack apply_ack
  on_ack r m = apply_ack (verify_ack m) (leb_ℤ m.seq r.last_seq) r m

  -- The messages in the order that they come in: the receiver after them, and those accepted.
  unfoldable pub receive :
      AckReceiver Digest
      → List (Message Digest Tag)
      → AckReceiver Digest × List (Message Digest Tag)
  unfolding on_ack
  receive r [] = (r, [])
  receive r (m ∷ ms) =
      let (r', more) = receive (on_ack r m).0 ms in
      (r', if (on_ack r m).1.accepted then m ∷ more else more)

-- ===== src/CrdtSync/CatchUp.antt =====
-- What the receiver of a connection has of the state that the sender connected with.
use nettverksprogrammering_p.Base.{◌≡◌, true, some, List, All, map}
use nettverksprogrammering_p.Std.Text.{Text}
use nettverksprogrammering_p.CrdtCore.Traits.{CvRdt, IsConvergent}
use nettverksprogrammering_p.CrdtCore.Traits.Order.{Below}
use nettverksprogrammering_p.CrdtCore.Traits.Delivery.{delivered-Below, here}
use nettverksprogrammering_p.CrdtSync.{Codec, hello, state, drive_outgoing, serve_frames, Turn}
use nettverksprogrammering_p.CrdtSync.Pushes.{pushed, pushed-first}
use nettverksprogrammering_p.CrdtSync.Exchange.{IsFaithful, quiet, exchange_merges}

module _ {S : Type 0} {Valid : S → Type 0} {Same : S → S → Type 0} {cvrdt : CvRdt S}
    (laws : IsConvergent Valid Same cvrdt) (codec : Codec S) (leaves : S → S)
    (faithful : IsFaithful codec leaves) where
  open codec use {Bytes, serialize}

  -- The merge satisfies the laws of a convergent type for valid states, and the codec reads back what
  -- it writes, less the fields that it leaves out. A node has connected, the socket takes its greeting
  -- and its first push, and both can be serialized. The peer, whose state is valid, reads to the end
  -- what the node wrote, while nothing else touches its state, and everything that was pushed is valid
  -- as it arrives. Then the state that the peer is left with is above the one that the node connected
  -- with, less the fields that the codec leaves out, whatever wakes the node afterwards and whatever
  -- of its later pushes the socket takes.
  pub connection_catches_up :
      (local s : S) (peer_id : Text) (turns : List (Turn codec)) (b c : Bytes)
      → serialize (hello peer_id) ≡ some b
      → serialize (state s) ≡ some c
      → Valid local
      → All Valid (map leaves (pushed codec peer_id true s true turns))
      → Below laws
          (leaves s)
          (serve_frames codec cvrdt local 0
            (quiet codec (drive_outgoing codec peer_id true s true turns).0)).0
  connection_catches_up local s peer_id turns b c e f v vs =
      rw (exchange_merges codec leaves faithful cvrdt local peer_id true s true turns) (
        rw (pushed-first codec peer_id s turns b c e f) (
          delivered-Below laws local _ (leaves s) v
            (rw (pushed-first codec peer_id s turns b c e f) at vs)
            (here (laws.same_refl (leaves s)))))

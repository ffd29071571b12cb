-- ===== src/CrdtSync.antt =====
-- crates/crdt-sync/src/lib.rs: the exchange of states over TCP connections, for any convergent
-- type. What the sockets, the codec and the runtime do comes in as arguments: a frame or an error
-- that is read, whether a frame that is written is accepted, what `select!` woke up for, and what
-- other tasks did to the shared state in the meantime.
pub mod Exchange
pub mod Incoming
pub mod Node
pub mod Pushes
pub mod CatchUp
pub mod Changes
use nettverksprogrammering_p.Base.{
  ℕ, ◌+◌, ◌≡◌, Bool, true, false, Option, none, some, List, [], ◌∷◌, ◌++◌, ◌>>=◌, if◌then◌else◌,
  map,
}
use nettverksprogrammering_p.Std.Text.{Text}
use nettverksprogrammering_p.CrdtCore.Traits.{CvRdt}

pub data SyncMessage (S : Type 0) : Type 0 where
  hello : Text → SyncMessage S
  state : S → SyncMessage S

-- `bincode::serialize` and `bincode::deserialize`; `none` is an error.
pub record Codec (S : Type 0) : Type 1 where
  pub Bytes : Type 0
  pub serialize : SyncMessage S → Option Bytes
  pub deserialize : Bytes → Option (SyncMessage S)

-- How a task ended, if it did.
pub data Outcome : Type 0 where
  running ended failed : Outcome

-- What `framed.next().await` gives while the stream lasts.
pub data Frame (Bytes : Type 0) : Type 0 where
  bytes : Bytes → Frame Bytes
  broken : Frame Bytes

-- What `select!` woke up for: `recv()` of the change notifications is an error when the channel is
-- closed, and when more than 16 notifications were missed.
pub data Wake : Type 0 where
  changed closed lagged ticked : Wake

module _ {S : Type 0} (codec : Codec S) where
  open codec use {Bytes, serialize, deserialize}

  -- The frames of the connection with the message behind them, `none` on an error. `accepts` says
  -- whether the socket takes the frame.
  pub send_message : Bool → List Bytes → SyncMessage S → Option (List Bytes)
  send_message accepts frames msg = do
    encoded ← serialize msg
    if accepts then some (frames ++ encoded ∷ []) else none

  pub push_state : Bool → List Bytes → S → Option (List Bytes)
  unfolding send_message
  push_state accepts frames s = send_message accepts frames (SyncMessage.state s)

  -- One round of the loop of `drive_outgoing`: the wake-up, the state that `push_state` reads then,
  -- and whether the socket takes the frame.
  abbrev pub Turn : Type 0
  Turn = Wake × S × Bool

  pub drive_loop : List Bytes → List Turn → List Bytes × Outcome
  unfolding push_state
  drive_loop frames [] = (frames, Outcome.running)
  drive_loop frames ((Wake.closed, s, accepts) ∷ turns) = (frames, Outcome.ended)
  drive_loop frames ((Wake.lagged, s, accepts) ∷ turns) = (frames, Outcome.ended)
  drive_loop frames ((wake, s, accepts) ∷ turns) = elim (push_state accepts frames s) [
    | none ↦ (frames, Outcome.failed)
    | some frames' ↦ drive_loop frames' turns
  ]

  -- A connection: the greeting, the state at once, then the loop.
  pub drive_outgoing : Text → Bool → S → Bool → List Turn → List Bytes × Outcome
  unfolding drive_loop
  drive_outgoing peer_id greets s accepts turns =
      elim (send_message greets [] (SyncMessage.hello peer_id)) [
        | none ↦ ([], Outcome.failed)
        | some greeted ↦ elim (push_state accepts greeted s) [
          | none ↦ (greeted, Outcome.failed)
          | some frames ↦ drive_loop frames turns
        ]
      ]

  module _ (cvrdt : CvRdt S) where
    -- The loop of `serve_incoming` over the frames until the stream ends, each with what other
    -- tasks did to the state before it was handled. The number counts the sent `on_remote_update`.
    unfoldable pub serve_frames : S → ℕ → List ((S → S) × Frame Bytes) → S × ℕ × Outcome
    serve_frames s updates [] = (s, updates, Outcome.ended)
    serve_frames s updates ((others, Frame.broken) ∷ rest) = (others s, updates, Outcome.failed)
    serve_frames s updates ((others, Frame.bytes b) ∷ rest) = elim (deserialize b) [
      | none ↦ (others s, updates, Outcome.failed)
      | some (SyncMessage.hello peer_id) ↦ serve_frames (others s) updates rest
      | some (SyncMessage.state remote) ↦
          serve_frames (cvrdt.merge (others s) remote) (updates + 1) rest
    ]

    -- The greeting goes out first; where it fails nothing is read.
    unfoldable pub serve_incoming : Text → Bool → S → List ((S → S) × Frame Bytes) → S × ℕ × Outcome
    unfolding serve_frames send_message
    serve_incoming peer_id greets s arriving =
        elim (send_message greets [] (SyncMessage.hello peer_id)) [
          | none ↦ (s, 0, Outcome.failed)
          | some greeted ↦ serve_frames s 0 arriving
        ]

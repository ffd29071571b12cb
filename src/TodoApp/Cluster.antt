-- ===== src/TodoApp/Cluster.antt =====
-- All peers together with the connections between them: the processes of TodoApp/Process, and for
-- each connection the bytes that are on their way, in the order in which `drive_outgoing` wrote them
-- and `serve_incoming` reads them (crates/crdt-sync/src/lib.rs).
pub mod Carries
pub mod Tracks
pub mod Refines
pub mod Spreads
pub mod Links
pub mod Meeting
pub mod Rounds
pub mod Serves
pub mod Converges
pub mod Requests
pub mod Edits
use nettverksprogrammering_p.Base.{
  ℕ, suc, ◌≡◌, Bool, true, false, Option, none, some, List, [], ◌∷◌, ◌++◌, In, ite, ℕ_discrete,
}
use nettverksprogrammering_p.Std.Text.{Text}
use nettverksprogrammering_p.Std.Word.{dev}
use nettverksprogrammering_p.CrdtCore.Clock.{ReplicaId}
use nettverksprogrammering_p.CrdtSync.{Codec, SyncMessage, hello, state}
use nettverksprogrammering_p.TodoApp.Process as Peer
use nettverksprogrammering_p.TodoApp.Process.{Process, Task, acted, absorbed, aborted}
use nettverksprogrammering_p.TodoApp.Protocol.{ClientMessage}
use nettverksprogrammering_p.TodoApp.Server.{Json}
use nettverksprogrammering_p.TodoApp.State
use nettverksprogrammering_p.TodoApp.State.{TodoState, apply}
use nettverksprogrammering_p.TodoApp.System.{update}

-- One TCP connection. `is_open` says that `drive_outgoing` still runs on it; the receiver reads what
-- is on its way also after that.
pub record Connection (Bytes : Type 0) : Type 0 where
  pub sender : ℕ
  pub receiver : ℕ
  pub is_open : Bool
  pub frames : List Bytes

pub record Cluster (Message Bytes : Type 0) : Type 0 where
  pub process : ℕ → Process Message
  pub connections : List (Connection Bytes)

module _ (json : Json) (codec : Codec TodoState) where
  open json use {Message}
  open codec use {Bytes, serialize, deserialize}

  abbrev pub Net : Type 0
  Net = Cluster Message Bytes

  -- No `drive_outgoing` runs from the one to the other.
  abbrev pub IsFree : ℕ → ℕ → List (Connection Bytes) → Type 0
  IsFree i j connections =
      (c : Connection Bytes) → In c connections → c.sender ≡ i → c.receiver ≡ j → c.is_open ≡ false

  module _ (peer_id : ℕ → Text) (peers : ℕ → List ℕ) where
    -- What the programs do by themselves. What a task reads under the lock and writes to its
    -- connection is one step: nothing else writes there.
    pub data Work (cl : Net) : Net → Type 0 where
      task :
          (i : ℕ) {o : Process Message}
          → Task json (cl.process i) o
          → Work cl (record cl { process = update cl.process i o })
      -- `spawn_outgoing` has connected to a configured peer, each of which has one such task, and
      -- `drive_outgoing` greets
      connect :
          (i j : ℕ) {b : Bytes}
          → In j (peers i)
          → IsFree i j cl.connections
          → serialize (hello (peer_id i)) ≡ some b
          → Work cl (record cl {
            connections =
                record { sender = i; receiver = j; is_open = true; frames = b ∷ [] }
                ∷ cl.connections;
          })
      -- `push_state`, at once, for a change, or for the timer
      push :
          (c : Connection Bytes) (before after : List (Connection Bytes)) {b : Bytes}
          → cl.connections ≡ before ++ c ∷ after
          → c.is_open ≡ true
          → serialize (state (cl.process c.sender).app.inner) ≡ some b
          → Work cl (record cl {
            connections = before ++ record c { frames = c.frames ++ b ∷ [] } ∷ after;
          })
      -- `serve_incoming` at a greeting, at a state, and at bytes that it cannot read
      greet :
          (c : Connection Bytes) (before after : List (Connection Bytes)) {b : Bytes}
          {bs : List Bytes} (name : Text)
          → cl.connections ≡ before ++ c ∷ after
          → c.frames ≡ b ∷ bs
          → deserialize b ≡ some (hello name)
          → Work cl (record cl { connections = before ++ record c { frames = bs } ∷ after })
      deliver :
          (c : Connection Bytes) (before after : List (Connection Bytes)) {b : Bytes}
          {bs : List Bytes} (x : TodoState)
          → cl.connections ≡ before ++ c ∷ after
          → c.frames ≡ b ∷ bs
          → deserialize b ≡ some (state x)
          → Work cl (record {
            process = update cl.process c.receiver (absorbed json (cl.process c.receiver) x);
            connections = before ++ record c { frames = bs } ∷ after;
          })
      refuse :
          (c : Connection Bytes) (before after : List (Connection Bytes)) {b : Bytes}
          {bs : List Bytes}
          → cl.connections ≡ before ++ c ∷ after
          → c.frames ≡ b ∷ bs
          → deserialize b ≡ none
          → Work cl (record cl { connections = before ++ after })

    -- Work goes on for a while, and nothing comes from outside.
    pub data Works (cl : Net) : Net → Type 0 where
      nothing : Works cl cl
      and_work : {cl' cl'' : Net} → Works cl cl' → Work cl' cl'' → Works cl cl''

    pub data Step (cl : Net) : Net → Type 0 where
      work : {cl' : Net} → Work cl cl' → Step cl cl'
      -- a browser's request
      request :
          (i : ℕ) (msg : ClientMessage) {s : TodoState}
          → apply dev (cl.process i).app.inner msg ≡ some s
          → Step cl (record cl { process = update cl.process i (acted json (cl.process i) s) })
      -- a browser's task is aborted before it reads the state
      abort :
          (i : ℕ) {k : ℕ}
          → (cl.process i).owed ≡ suc k
          → Step cl (record cl { process = update cl.process i (aborted json (cl.process i) k) })
      -- `drive_outgoing` ends: the socket or the codec fails, or too many changes were missed
      close :
          (c : Connection Bytes) (before after : List (Connection Bytes))
          → cl.connections ≡ before ++ c ∷ after
          → Step cl (record cl { connections = before ++ record c { is_open = false } ∷ after })
      -- the connection is gone, with what was on its way
      lose :
          (c : Connection Bytes) (before after : List (Connection Bytes))
          → cl.connections ≡ before ++ c ∷ after
          → Step cl (record cl { connections = before ++ after })

    module _ (replica_id : ℕ → ReplicaId) where
      -- what `main` starts at each of the peers
      abbrev pub init : Net
      init = record {
        process = λ i. Peer.start json (State.new (peer_id i) (replica_id i));
        connections = [];
      }

      pub data Reach : Net → Type 0 where
        start : Reach init
        later : {cl cl' : Net} → Reach cl → Step cl cl' → Reach cl'

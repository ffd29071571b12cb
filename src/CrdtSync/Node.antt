-- ===== src/CrdtSync/Node.antt =====
-- A node: the constants, the tasks that `run` starts, and the reconnecting loop of a task.
use nettverksprogrammering_p.Base.{
  ℕ, Bool, Option, none, some, List, [], ◌∷◌, ◌>>=◌, if◌then◌else◌, map,
}
use nettverksprogrammering_p.Std.Text.{Text}
use nettverksprogrammering_p.CrdtSync.{Codec, Turn, drive_outgoing}

-- in seconds
abbrev pub anti_entropy_interval : ℕ
anti_entropy_interval = 5

abbrev pub reconnect_delay : ℕ
reconnect_delay = 2

-- The shared state and the two channels are handed to the tasks; `Addr` is `SocketAddr`.
pub record SyncNode (Addr : Type 0) : Type 0 where
  pub peer_id : Text
  pub listen_addr : Addr
  pub peers : List Addr

-- `SyncNode::new`; the two channels are the counts of TodoApp/Process.
unfoldable pub new : {Addr : Type 0} → Text → Addr → List Addr → SyncNode Addr
new peer_id listen_addr peers = record {
  peer_id = peer_id;
  listen_addr = listen_addr;
  peers = peers;
}

pub data Task (Addr : Type 0) : Type 0 where
  listener : Addr → Text → Task Addr
  outgoing : Addr → Text → Task Addr
  serving : Addr → Text → Task Addr

-- `none` is the error of `TcpListener::bind`; else the loop over `accept` is spawned.
unfoldable pub spawn_listener : {Addr : Type 0} → (Addr → Bool) → Addr → Text → Option (Task Addr)
spawn_listener binds addr peer_id = if binds addr then some (Task.listener addr peer_id) else none

abbrev pub spawn_outgoing : {Addr : Type 0} → Addr → Text → Task Addr
spawn_outgoing addr peer_id = Task.outgoing addr peer_id

-- Where the listener fails no task is started.
unfoldable pub run : {Addr : Type 0} → (Addr → Bool) → SyncNode Addr → Option (List (Task Addr))
unfolding spawn_listener
run binds node = do
  listening ← spawn_listener binds node.listen_addr node.peer_id
  some (listening ∷ map (λ addr. spawn_outgoing addr node.peer_id) node.peers)

-- What `accept` gives: a connection, with the address of the peer, or an error.
pub data Accepted (Addr : Type 0) : Type 0 where
  connection : Addr → Accepted Addr
  accept_error : Accepted Addr

-- The loop of `spawn_listener`: a task serves each connection, under the name of the node; after an
-- error the loop waits and goes on. The result is the tasks that it has started.
unfoldable pub accept_loop : {Addr : Type 0} → Text → List (Accepted Addr) → List (Task Addr)
accept_loop peer_id [] = []
accept_loop peer_id (connection remote ∷ rest) =
    Task.serving remote peer_id ∷ accept_loop peer_id rest
accept_loop peer_id (accept_error ∷ rest) = accept_loop peer_id rest

module _ {S : Type 0} (codec : Codec S) where
  open codec use {Bytes}

  -- One round of the loop of `spawn_outgoing`: a refused connection, or one that was made, with all
  -- that `drive_outgoing` met on it.
  pub data Attempt : Type 0 where
    refused : Attempt
    connected : Bool → S → Bool → List (Turn codec) → Attempt

  -- What the loop wrote, connection by connection; after each round it waits and tries again.
  unfoldable pub outgoing_rounds : Text → List Attempt → List (List Bytes)
  outgoing_rounds peer_id [] = []
  outgoing_rounds peer_id (refused ∷ rounds) = outgoing_rounds peer_id rounds
  outgoing_rounds peer_id (connected greets s accepts turns ∷ rounds) =
      (drive_outgoing codec peer_id greets s accepts turns).0 ∷ outgoing_rounds peer_id rounds

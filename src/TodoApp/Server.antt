-- ===== src/TodoApp/Server.antt =====
-- crates/todo-app/src/server.rs, and the task of main.rs that follows remote updates. The state is
-- behind a lock, so each handler is one step. The JSON codec is a parameter; the channels are the
-- texts sent to the browsers and the number of notifications to the sync layer.
pub mod Broadcast
pub mod Returns
use nettverksprogrammering_p.Base.{
  ℕ, ◌+◌, Bool, true, false, Option, none, some, List, [], ◌∷◌, ◌++◌, ◌>>=◌, if◌then◌else◌,
}
use nettverksprogrammering_p.Std.Word.{Profile}
use nettverksprogrammering_p.TodoApp.Protocol.{ServerMessage, ClientMessage}
use nettverksprogrammering_p.TodoApp.State.{TodoState, apply, snapshot}

-- `serde_json::to_string` and `serde_json::from_str`; `none` is an error.
pub record Json : Type 1 where
  pub Message : Type 0
  pub to_string : ServerMessage → Option Message
  pub from_str : Message → Option ClientMessage

-- What a WebSocket delivers.
pub data WsMessage (Message : Type 0) : Type 0 where
  text : Message → WsMessage Message
  close : WsMessage Message
  other : WsMessage Message

-- What `recv()` gives on a broadcast channel: a notification, or an error because the receiver has
-- missed some, or because the senders are gone.
pub data Received : Type 0 where
  update lagged closed : Received

-- `sync` is the attached notifier with the number of notifications sent, `none` if none is
-- attached; `ws_tx` is what was sent to the browsers.
pub record AppState (Message : Type 0) : Type 0 where
  pub inner : TodoState
  pub ws_tx : List Message
  pub sync_notify : Option ℕ

abbrev pub count_up : Option ℕ → Option ℕ
count_up none = none
count_up (some n) = some (n + 1)

module _ (json : Json) where
  open json use {Message, to_string, from_str}

  unfoldable pub new : TodoState → AppState Message
  new state = record { inner = state; ws_tx = []; sync_notify = none }

  unfoldable pub with_sync_notifier : AppState Message → AppState Message
  with_sync_notifier self = record self { sync_notify = some 0 }

  unfoldable pub broadcast_snapshot : AppState Message → AppState Message
  broadcast_snapshot self = elim (to_string (snapshot self.inner)) [
    | none ↦ self
    | some message ↦ record self { ws_tx = self.ws_tx ++ message ∷ [] }
  ]

  -- `none` is a panic in `apply`.
  unfoldable pub apply_and_broadcast :
      Profile → AppState Message → ClientMessage → Option (AppState Message)
  unfolding broadcast_snapshot
  apply_and_broadcast p self msg = do
    inner ← apply p self.inner msg
    some (
        broadcast_snapshot (record self { inner = inner; sync_notify = count_up self.sync_notify }))

  unfoldable pub handle_text : Profile → AppState Message → Message → Option (AppState Message)
  unfolding apply_and_broadcast
  handle_text p self content = elim (from_str content) [
    | none ↦ some self
    | some msg ↦ apply_and_broadcast p self msg
  ]

  -- The receiving task of `handle_socket`, over what the socket delivers until it ends or fails.
  unfoldable pub recv_task :
      Profile → AppState Message → List (WsMessage Message) → Option (AppState Message)
  unfolding handle_text
  recv_task p self [] = some self
  recv_task p self (WsMessage.close ∷ rest) = some self
  recv_task p self (WsMessage.other ∷ rest) = recv_task p self rest
  recv_task p self (WsMessage.text content ∷ rest) = do
    self' ← handle_text p self content
    recv_task p self' rest

  -- `send_current_snapshot`: what a new browser is sent first, if the socket takes it.
  unfoldable pub send_current_snapshot : AppState Message → Bool → Option Message
  send_current_snapshot self accepts = do
    message ← to_string (snapshot self.inner)
    if accepts then some message else none

  -- The sending task of `handle_socket`: each text that the channel delivers, until the channel
  -- gives an error or the socket refuses a text. `none` is an error of the channel.
  unfoldable pub send_task : List (Option Message × Bool) → List Message
  send_task [] = []
  send_task ((none, accepts) ∷ rest) = []
  send_task ((some message, false) ∷ rest) = []
  send_task ((some message, true) ∷ rest) = message ∷ send_task rest

  -- `handle_socket`: what the two tasks got until `select!` ended them. The result is the state and
  -- what the socket was sent; if the first snapshot is not sent, nothing is read.
  unfoldable pub handle_socket :
      Profile
      → AppState Message
      → Bool
      → List (WsMessage Message)
      → List (Option Message × Bool)
      → Option (AppState Message × List Message)
  unfolding send_current_snapshot recv_task send_task
  handle_socket p self accepts read delivered = elim (send_current_snapshot self accepts) [
    | none ↦ some (self, [])
    | some message ↦ do self' ← recv_task p self read; some (self', message ∷ send_task delivered)
  ]

  -- `while remote_updates.recv().await.is_ok()` of main.rs: each update comes with what the sync
  -- layer has merged into the state by then.
  pub follow_remote : AppState Message → List (Received × TodoState) → AppState Message
  unfolding broadcast_snapshot
  follow_remote self [] = self
  follow_remote self ((Received.update, merged) ∷ rest) =
      follow_remote (broadcast_snapshot (record self { inner = merged })) rest
  follow_remote self ((Received.lagged, merged) ∷ rest) = self
  follow_remote self ((Received.closed, merged) ∷ rest) = self
